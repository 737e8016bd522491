-- ===== src/Imports/Reports/Pages.antt =====
-- A page of rejected records, for whatever limit a client asks.
use high_throughput_transact.Base.{
  ℕ, zero, suc, ◌+◌, ◌≤◌, ◌≡◌, refl, ap, ◌∙◌, inl, inr, true, Option, none, some, List, [], ◌∷◌,
  arith, ltb, Bool-cases, length, take, keep, length-take-le, Result, ok, bind_at, ◌>>=◌,
}
use high_throughput_transact.Js.{Js}
use high_throughput_transact.Domain.Errors.{Thrown}
use high_throughput_transact.Database.World.{ImportRow, RejectedRow, World, statement, wrapped}
use high_throughput_transact.Database.ImportRepository.{find_by_id, find_import}
use high_throughput_transact.Database.ImportQuery.{
  RejectedRecordPage, sort_rows, matches, last_id, page_of, find_page, return_page,
  get_rejected_records,
}
use high_throughput_transact.Imports.Reports.{
  max_page_size, clamp_limit, reject_found, get_rejected,
}

last_id-of_suc :
    (n : ℕ) (r : RejectedRow) (rs : List RejectedRow)
    → (c : ℕ) × (last_id (take (suc n) (r ∷ rs)) ≡ some c)
last_id-of_suc zero r rs = (r.id, refl)
last_id-of_suc (suc n) r [] = (r.id, refl)
last_id-of_suc (suc n) r (x ∷ rs) = last_id-of_suc n x rs

-- A page of at least one record can always be made, and holds no more than its limit.
page_of-total :
    (limit : ℕ) (rows : List RejectedRow)
    → 1 ≤ limit
    → (p : RejectedRecordPage) × (page_of limit rows ≡ some p) × (length p.items ≤ limit)
unfolding page_of
page_of-total zero rows h = absurd (omega arith)
page_of-total (suc n) [] h = (record { items = []; next_cursor = none }, ground arith, omega arith)
page_of-total (suc n) (r ∷ rs) h = elim (Bool-cases (ltb (suc n) (length (r ∷ rs)))) [
  | inl e ↦
      let (c, l) = last_id-of_suc n r rs in
      (
        record { items = take (suc n) (r ∷ rs); next_cursor = some c },
        rw e (rw l refl),
        length-take-le (suc n) (r ∷ rs),
      )
  | inr e ↦ (record { items = r ∷ rs; next_cursor = none }, rw e refl, ground arith)
]

-- The limit that is used lies between one and the largest page.
clamp_limit-bounds :
    (js : Js) (floor : js.Number → ℕ) (requested : Option js.Number)
    → ((x : js.Number) → js.le (js.lit 1) x ≡ true → 1 ≤ floor x)
    → (1 ≤ clamp_limit js floor requested) × (clamp_limit js floor requested ≤ max_page_size)
unfolding clamp_limit
clamp_limit-bounds js floor none law = omega arith
clamp_limit-bounds js floor (some x) law = elim (Bool-cases (js.is_finite x)) [
  | inr e ↦ rw e (omega arith)
  | inl e ↦ elim (Bool-cases (js.le (js.lit 1) x)) [
    | inr l ↦ rw (e, l) (omega arith)
    | inl l ↦ rw (e, l) (omega (arith, law x l))
  ]
]

some_injective : {A : Type 0} {a b : A} → some a ≡ some b → a ≡ b
some_injective e = cc

-- The database over a connection that answers.
abbrev pub answering : {js : Js} → World js → World js
answering w = record w { replies = [] }

find_by_id-answered :
    {js : Js} (import_id : ℕ) (w : World js) {r : ImportRow}
    → find_import import_id w.tables.imports ≡ some r
    → find_by_id import_id (answering w) ≡ (ok (some r), answering w)
unfolding find_by_id wrapped statement
find_by_id-answered import_id w found =
    ap (λ o. let x : Result Thrown (Option ImportRow) × World _ = (ok o, answering w) in x) found

get_rejected_records-answered :
    {js : Js} (import_id : ℕ) (cursor : Option ℕ) (limit : ℕ) (w : World js)
    {p : RejectedRecordPage}
    → find_page import_id cursor limit w.tables.rejections ≡ some p
    → get_rejected_records import_id cursor limit (answering w) ≡ (ok p, answering w)
unfolding get_rejected_records wrapped statement ◌>>=◌ return_page
get_rejected_records-answered {js} import_id cursor limit w {p} e = page-answered _ e
  where
    page-answered :
        (o : Option RejectedRecordPage)
        → o ≡ some p
        → wrapped "ImportQuery.getRejectedRecords" (return_page {js = js} o) (answering w)
          ≡ (ok p, answering w)
    page-answered none h = cc
    page-answered (some q) h =
        ap (λ o. let x : Result Thrown RejectedRecordPage × World js = (ok o, answering w) in x)
          (some_injective h)

-- For an import that is stored, and over a connection that answers, a request for rejected records is
-- answered with a page of at most 200 records, the page of a limit between 1 and 200, whatever limit
-- the client asks for, if any; and nothing is written. `Math.floor` of a number of at least one is
-- at least one.
pub get_rejected-page :
    {js : Js} (floor : js.Number → ℕ) (import_id : ℕ) (cursor : Option ℕ)
    (requested : Option js.Number) (w : World js) {r : ImportRow}
    → ((x : js.Number) → js.le (js.lit 1) x ≡ true → 1 ≤ floor x)
    → find_import import_id w.tables.imports ≡ some r
    → (limit : ℕ) × (p : RejectedRecordPage) × (get_rejected floor import_id cursor requested
          (answering w)
        ≡ (ok p, answering w))
      × (find_page import_id cursor limit w.tables.rejections ≡ some p)
      × (1 ≤ limit)
      × (limit ≤ max_page_size)
      × (length p.items ≤ limit)
unfolding get_rejected find_page
get_rejected-page {js} floor import_id cursor requested w {r} law found =
    let limit = clamp_limit js floor requested in
    let (low, high) = clamp_limit-bounds js floor requested law in
    let (p, e, short) =
      page_of-total limit
        (take (limit + 1) (sort_rows (keep (matches import_id cursor) w.tables.rejections))) low in
    let answered =
      bind_at (find_by_id import_id) (reject_found import_id cursor limit) (answering w)
        (find_by_id-answered import_id w found) in
    (
      limit,
      p,
      answered ∙ get_rejected_records-answered import_id cursor limit w e,
      e,
      low,
      high,
      short,
    )
