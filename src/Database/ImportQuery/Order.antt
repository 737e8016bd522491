-- ===== src/Database/ImportQuery/Order.antt =====
-- Rows in the order of their ids, and the tests on ids.
use high_throughput_transact.Base.{
  ℕ, ◌≤◌, ◌<◌, ◌≡◌, refl, sym, ap, ◌∙◌, ◌≢◌, inl, inr, true, none, some, List, [], ◌∷◌, arith, ltb,
  leb, ◌==◌, if◌then◌else◌, Bool-cases, keep, All,
}
use high_throughput_transact.Database.World.{RejectedRow}
use high_throughput_transact.Database.ImportQuery.{insert_row, sort_rows, is_after, matches}

abbrev pub Above : ℕ → List RejectedRow → Type 0
Above c = All (λ (r : RejectedRow). c < r.id)

-- The ids rise.
abbrev pub Rising : List RejectedRow → Type 0
Rising [] = Unit {0}
Rising (r ∷ rs) = Above r.id rs × Rising rs

Above-weaken : (c d : ℕ) (xs : List RejectedRow) → c ≤ d → Above d xs → Above c xs
Above-weaken c d [] h a = tt
Above-weaken c d (x ∷ xs) h a = (omega (arith, h, a.0), Above-weaken c d xs h a.1)

-- No row has this id.
abbrev Lacks : ℕ → List RejectedRow → Type 0
Lacks c = All (λ (r : RejectedRow). c ≢ r.id)

abbrev pub Unrepeated : List RejectedRow → Type 0
Unrepeated [] = Unit {0}
Unrepeated (r ∷ rs) = Lacks r.id rs × Unrepeated rs

insert_row-Above :
    (c : ℕ) (r : RejectedRow) (xs : List RejectedRow)
    → c < r.id
    → Above c xs
    → Above c (insert_row r xs)
insert_row-Above c r [] h a = (h, tt)
insert_row-Above c r (x ∷ xs) h a = elim (Bool-cases (leb r.id x.id)) [
  | inl e ↦ rw e (h, a)
  | inr e ↦ rw e (a.0, insert_row-Above c r xs h a.1)
]

insert_row-Lacks :
    (c : ℕ) (r : RejectedRow) (xs : List RejectedRow)
    → c ≢ r.id
    → Lacks c xs
    → Lacks c (insert_row r xs)
insert_row-Lacks c r [] h a = (h, tt)
insert_row-Lacks c r (x ∷ xs) h a = elim (Bool-cases (leb r.id x.id)) [
  | inl e ↦ rw e (h, a)
  | inr e ↦ rw e (a.0, insert_row-Lacks c r xs h a.1)
]

sort_rows-Lacks : (c : ℕ) (xs : List RejectedRow) → Lacks c xs → Lacks c (sort_rows xs)
sort_rows-Lacks c [] h = tt
sort_rows-Lacks c (x ∷ xs) h = insert_row-Lacks c x (sort_rows xs) h.0 (sort_rows-Lacks c xs h.1)

insert_row-Rising :
    (r : RejectedRow) (xs : List RejectedRow) → Lacks r.id xs → Rising xs → Rising (insert_row r xs)
insert_row-Rising r [] l h = (tt, tt)
insert_row-Rising r (x ∷ xs) l h = elim (Bool-cases (leb r.id x.id)) [
  | inl e ↦
      let below : r.id < x.id = ground (arith, l.0) in
      rw e ((below, Above-weaken r.id x.id xs (omega (arith, below)) h.0), h)
  | inr e ↦
      let above : x.id < r.id = ground arith in
      rw e (insert_row-Above x.id r xs above h.0, insert_row-Rising r xs l.1 h.1)
]

pub sort_rows-Rising : (xs : List RejectedRow) → Unrepeated xs → Rising (sort_rows xs)
sort_rows-Rising [] u = tt
sort_rows-Rising (x ∷ xs) u =
    insert_row-Rising x (sort_rows xs) (sort_rows-Lacks x.id xs u.0) (sort_rows-Rising xs u.1)

pub keep-Above : (c : ℕ) (xs : List RejectedRow) → Above c xs → keep (is_after (some c)) xs ≡ xs
keep-Above c [] a = refl
keep-Above c (x ∷ xs) a =
    let e : ltb c x.id ≡ true = ground (arith, a.0) in rw e (ap (λ z. x ∷ z) (keep-Above c xs a.1))

-- A test on ids and the order do not disturb each other.
keep-insert_row :
    (c : ℕ) (r : RejectedRow) (xs : List RejectedRow)
    → Rising xs
    → keep (is_after (some c)) (insert_row r xs) ≡ (
        if ltb c r.id
        then insert_row r (keep (is_after (some c)) xs)
        else keep (is_after (some c)) xs)
keep-insert_row c r [] h = refl
keep-insert_row c r (x ∷ xs) h = elim (Bool-cases (leb r.id x.id)) [
  | inr e ↦ ground (arith, keep-insert_row c r xs h.1)
  | inl e ↦ rw e (ground arith)
]

-- The rows of an import, in the order of their ids.
abbrev pub rows_of : ℕ → List RejectedRow → List RejectedRow
rows_of import_id rows = sort_rows (keep (matches import_id none) rows)

pub sort_rows-keep :
    (import_id c : ℕ) (rs : List RejectedRow)
    → Unrepeated (keep (matches import_id none) rs)
    → sort_rows (keep (matches import_id (some c)) rs)
      ≡ keep (is_after (some c)) (rows_of import_id rs)
sort_rows-keep import_id c [] u = refl
sort_rows-keep import_id c (r ∷ rs) u = elim (Bool-cases (r.import_id == import_id)) [
  | inr e ↦ rw e (sort_rows-keep import_id c rs (rw e at u))
  | inl e ↦
      let v : Lacks r.id (keep (matches import_id none) rs)
          × Unrepeated (keep (matches import_id none) rs) =
        rw e at u in
      let ih = sort_rows-keep import_id c rs v.1 in
      let k =
        keep-insert_row c r (rows_of import_id rs)
          (sort_rows-Rising (keep (matches import_id none) rs) v.1) in
      rw e (elim (Bool-cases (ltb c r.id)) [
        | inl f ↦ rw f (ap (insert_row r) ih ∙ sym (k ∙ rw f))
        | inr f ↦ rw f (ih ∙ sym (k ∙ rw f))
      ])
]
