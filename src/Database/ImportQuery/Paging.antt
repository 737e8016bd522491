-- ===== src/Database/ImportQuery/Paging.antt =====
-- What a client gets that follows the cursors.
use high_throughput_transact.Base.{
  ℕ, zero, suc, ◌+◌, ◌≤◌, ◌<◌, ◌≡◌, refl, sym, ap, ◌∙◌, subst, ◌⊎◌, ◌↔◌, inl, inr, true, false,
  Option, none, some, List, [], ◌∷◌, ◌++◌, arith, ltb, ltb→lt, Bool-cases, length, take, keep,
}
use mathlib.Core.List.{append-nil, append_assoc}
use high_throughput_transact.Database.World.{RejectedRow}
use high_throughput_transact.Database.ImportQuery.{
  RejectedRecordPage, sort_rows, is_after, matches, last_id, page_of, find_page,
}
use high_throughput_transact.Database.ImportQuery.Order.{
  Above, Rising, Unrepeated, sort_rows-Rising, keep-Above, rows_of, sort_rows-keep,
}
use high_throughput_transact.Database.ImportQuery.Members.{Among, rows_of-Among}

abbrev drop : ℕ → List RejectedRow → List RejectedRow
drop zero xs = xs
drop (suc n) [] = []
drop (suc n) (x ∷ xs) = drop n xs

last_id-Above : (d : ℕ) (P : List RejectedRow) {c : ℕ} → Above d P → last_id P ≡ some c → d < c
last_id-Above d [] a h = cc
last_id-Above d (r ∷ []) {c} a h = let e : r.id ≡ c = cc in omega (arith, e, a.0)
last_id-Above d (r ∷ x ∷ P) {c} a h = last_id-Above d (x ∷ P) a.1 h

Above-left : (d : ℕ) (P Q : List RejectedRow) → Above d (P ++ Q) → Above d P
Above-left d [] Q a = tt
Above-left d (x ∷ P) Q a = (a.0, Above-left d P Q a.1)

-- After the last row of a first part comes the rest.
keep-last_id :
    (P Q : List RejectedRow) {c : ℕ}
    → Rising (P ++ Q)
    → last_id P ≡ some c
    → keep (is_after (some c)) (P ++ Q) ≡ Q
keep-last_id [] Q h e = cc
keep-last_id (r ∷ []) Q {c} h e =
    let same : r.id ≡ c = cc in
    let out : ltb c r.id ≡ false = ground (arith, same) in
    rw out (keep-Above c Q (subst (λ n. Above n Q) same h.0))
keep-last_id (r ∷ x ∷ P) Q {c} h e =
    let below : r.id < c = last_id-Above r.id (x ∷ P) (Above-left r.id (x ∷ P) Q h.0) e in
    let out : ltb c r.id ≡ false = ground (arith, below) in rw out (keep-last_id (x ∷ P) Q h.1 e)

take-drop : (n : ℕ) (xs : List RejectedRow) → take n xs ++ drop n xs ≡ xs
take-drop zero xs = refl
take-drop (suc n) [] = refl
take-drop (suc n) (x ∷ xs) = ap (λ z. x ∷ z) (take-drop n xs)

length-drop : (n : ℕ) (xs : List RejectedRow) → n ≤ length xs → length (drop n xs) + n ≡ length xs
length-drop zero xs h = omega arith
length-drop (suc n) [] h = absurd (omega arith)
length-drop (suc n) (x ∷ xs) h = omega (arith, length-drop n xs (omega arith))

take-all : (n : ℕ) (xs : List RejectedRow) → length xs ≤ n → take n xs ≡ xs
take-all zero [] h = refl
take-all zero (x ∷ xs) h = absurd (omega arith)
take-all (suc n) [] h = refl
take-all (suc n) (x ∷ xs) h = ap (λ z. x ∷ z) (take-all n xs (omega arith))

take-take : (n : ℕ) (xs : List RejectedRow) → take n (take (suc n) xs) ≡ take n xs
take-take zero xs = refl
take-take (suc n) [] = refl
take-take (suc n) (x ∷ xs) = ap (λ z. x ∷ z) (take-take n xs)

length-take : (n : ℕ) (xs : List RejectedRow) → n ≤ length xs → length (take n xs) ≡ n
length-take zero xs h = refl
length-take (suc n) [] h = absurd (omega arith)
length-take (suc n) (x ∷ xs) h = omega (arith, length-take n xs (omega arith))

last_id-some : (x : RejectedRow) (xs : List RejectedRow) → (c : ℕ) × (last_id (x ∷ xs) ≡ some c)
last_id-some x [] = (x.id, refl)
last_id-some x (y ∷ xs) = last_id-some y xs

last_id-append : (P Q : List RejectedRow) {c : ℕ} → last_id Q ≡ some c → last_id (P ++ Q) ≡ some c
last_id-append [] Q h = h
last_id-append (x ∷ []) [] h = cc
last_id-append (x ∷ []) (y ∷ Q) h = h
last_id-append (x ∷ y ∷ P) Q h = last_id-append (y ∷ P) Q h

page_of-short :
    (limit : ℕ) (xs : List RejectedRow)
    → ltb limit (length xs) ≡ false
    → page_of limit xs ≡ some (record { items = xs; next_cursor = none })
unfolding page_of
page_of-short limit xs e = rw (e, page_of)

page_of-full :
    (limit c : ℕ) (xs : List RejectedRow)
    → ltb limit (length xs) ≡ true
    → last_id (take limit xs) ≡ some c
    → page_of limit xs ≡ some (record { items = take limit xs; next_cursor = some c })
unfolding page_of
page_of-full limit c xs e l = rw (e, l, page_of)

-- The page of a list: all of it, or its first rows with the id of the last one.
page_of-cases :
    (m : ℕ) (xs : List RejectedRow)
    → ((length xs ≤ suc m)
        × (page_of (suc m) (take (suc (suc m)) xs)
            ≡ some (record { items = xs; next_cursor = none })))
      ⊎ ((suc m < length xs)
          × ((c : ℕ) × (last_id (take (suc m) xs) ≡ some c)
              × (page_of (suc m) (take (suc (suc m)) xs)
                  ≡ some (record { items = take (suc m) xs; next_cursor = some c }))))
page_of-cases m [] = inl (omega arith, page_of-short (suc m) [] (ground arith))
page_of-cases m (x ∷ xs) = elim (Bool-cases (ltb (suc m) (length (x ∷ xs)))) [
  | inr e ↦
      let fits : length (x ∷ xs) ≤ suc m = ground arith in
      inl (
        fits,
        ap (page_of (suc m)) (take-all (suc (suc m)) (x ∷ xs) (omega (arith, fits)))
            ∙ page_of-short (suc m) (x ∷ xs) e,
      )
  | inl e ↦
      let more : suc m < length (x ∷ xs) = ltb→lt (suc m) (length (x ∷ xs)) e in
      let full : ltb (suc m) (length (take (suc (suc m)) (x ∷ xs))) ≡ true =
        ground (arith, length-take (suc (suc m)) (x ∷ xs) (omega (arith, more))) in
      let (c, l) = last_id-some x (take m xs) in
      let same = take-take (suc m) (x ∷ xs) in
      inr (
        more,
        (
          c,
          l,
          page_of-full (suc m) c (take (suc (suc m)) (x ∷ xs)) full (ap last_id same ∙ l)
              ∙ ap (λ z. some (record { items = z; next_cursor = some c })) same,
        ),
      )
]

-- A client that follows the cursors; `fuel` bounds the number of its requests.
abbrev follow : Option ℕ → (ℕ → List RejectedRow) → List RejectedRow
follow none next = []
follow (some c) next = next c

abbrev gather : Option RejectedRecordPage → (ℕ → List RejectedRow) → List RejectedRow
gather none next = []
gather (some p) next = p.items ++ follow p.next_cursor next

abbrev pub read_pages : ℕ → ℕ → ℕ → Option ℕ → List RejectedRow → List RejectedRow
read_pages zero import_id limit cursor rows = []
read_pages (suc fuel) import_id limit cursor rows =
    gather (find_page import_id cursor limit rows)
      (λ c. read_pages fuel import_id limit (some c) rows)

reads_rest :
    (fuel import_id m : ℕ) (cursor : Option ℕ) (rows before rest : List RejectedRow)
    → Unrepeated (keep (matches import_id none) rows)
    → rows_of import_id rows ≡ before ++ rest
    → sort_rows (keep (matches import_id cursor) rows) ≡ rest
    → length rest < fuel
    → read_pages fuel import_id (suc m) cursor rows ≡ rest
unfolding find_page
reads_rest zero import_id m cursor rows before rest u s e h = absurd (omega arith)
reads_rest (suc fuel) import_id m cursor rows before rest u s e h =
    let two : suc m + 1 ≡ suc (suc m) = omega arith in
    let page : find_page import_id cursor (suc m) rows ≡ page_of (suc m) (take (suc (suc m)) rest) =
      ap (λ n. page_of (suc m) (take n (sort_rows (keep (matches import_id cursor) rows)))) two
      ∙ ap (λ xs. page_of (suc m) (take (suc (suc m)) xs)) e in
    let next = λ (c : ℕ). read_pages fuel import_id (suc m) (some c) rows in
    elim (page_of-cases m rest) [
      | inl (fits, p) ↦ ap (λ o. gather o next) (page ∙ p) ∙ append-nil rest
      | inr (more, (c, l, p)) ↦
          let split : rows_of import_id rows ≡ (before ++ take (suc m) rest) ++ drop (suc m) rest =
            s
            ∙ ap (λ z. before ++ z) (sym (take-drop (suc m) rest))
            ∙ sym (append_assoc before (take (suc m) rest) (drop (suc m) rest)) in
          let rising : Rising ((before ++ take (suc m) rest) ++ drop (suc m) rest) =
            subst Rising split (sort_rows-Rising (keep (matches import_id none) rows) u) in
          let after : sort_rows (keep (matches import_id (some c)) rows) ≡ drop (suc m) rest =
            sort_rows-keep import_id c rows u
            ∙ ap (keep (is_after (some c))) split
            ∙ keep-last_id (before ++ take (suc m) rest) (drop (suc m) rest) rising
                (last_id-append before (take (suc m) rest) l) in
          ap (λ o. gather o next) (page ∙ p)
          ∙ ap (λ z. take (suc m) rest ++ z)
              (reads_rest fuel import_id m (some c) rows (before ++ take (suc m) rest)
                (drop (suc m) rest) u split after
                (omega (arith, length-drop (suc m) rest (omega (arith, more)), h)))
          ∙ take-drop (suc m) rest
    ]

-- A client that starts without a cursor and follows the cursors of the pages gets the rows of the
-- import, sorted, whatever the limit of at least one is: a row is among what it gets exactly when it
-- is a stored rejected row of the import, and the ids rise strictly, so that each comes once; more
-- requests than there are records are enough. The table does not change in between, and ids are
-- unique.
pub read_pages-all :
    (fuel import_id limit : ℕ) (rows : List RejectedRow)
    → 1 ≤ limit
    → Unrepeated (keep (matches import_id none) rows)
    → length (rows_of import_id rows) < fuel
    → let result = read_pages fuel import_id limit none rows in
      (result ≡ rows_of import_id rows)
      × Rising result
      × ((r : RejectedRow) → Among r result ↔ (Among r rows × (r.import_id ≡ import_id)))
read_pages-all fuel import_id zero rows h u f = absurd (omega arith)
read_pages-all fuel import_id (suc m) rows h u f =
    let e : read_pages fuel import_id (suc m) none rows ≡ rows_of import_id rows =
      reads_rest fuel import_id m none rows [] (rows_of import_id rows) u refl refl f in
    (
      e,
      subst Rising (sym e) (sort_rows-Rising (keep (matches import_id none) rows) u),
      λ r.
          subst (λ z. Among r z ↔ (Among r rows × (r.import_id ≡ import_id))) (sym e)
            (rows_of-Among import_id r rows),
    )
