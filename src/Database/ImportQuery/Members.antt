-- ===== src/Database/ImportQuery/Members.antt =====
-- The rows that a client may see: filtered by the import and sorted, they are the import's rows.
use high_throughput_transact.Base.{
  ℕ, ◌≡◌, sym, ap, ◌∙◌, ◌⊎◌, ◌↔◌, inl, inr, true, none, List, [], ◌∷◌, leb, ◌==◌, ==_iff,
  Bool-cases, keep,
}
use high_throughput_transact.Database.World.{RejectedRow}
use high_throughput_transact.Database.ImportQuery.{insert_row, sort_rows, matches}
use high_throughput_transact.Database.ImportQuery.Order.{rows_of}

-- A row is in a list.
abbrev pub Among : RejectedRow → List RejectedRow → Type 0
Among r [] = ⊥
Among r (x ∷ xs) = (x ≡ r) ⊎ Among r xs

insert_row-Among :
    (r x : RejectedRow) (xs : List RejectedRow) → Among r (insert_row x xs) ↔ ((x ≡ r) ⊎ Among r xs)
insert_row-Among r x [] = ((λ h. h), (λ h. h))
insert_row-Among r x (y ∷ xs) = elim (Bool-cases (leb x.id y.id)) [
  | inl e ↦ rw e ((λ h. h), (λ h. h))
  | inr e ↦
      let (there, back) = insert_row-Among r x xs in
      rw e (
        (λ h. elim h [
          | inl p ↦ inr (inl p)
          | inr q ↦ elim (there q) [ inl p ↦ inl p | inr s ↦ inr (inr s) ]
        ]),
        (λ h. elim h [
          | inl p ↦ inr (back (inl p))
          | inr q ↦ elim q [ inl p ↦ inl p | inr s ↦ inr (back (inr s)) ]
        ]),
      )
]

sort_rows-Among : (r : RejectedRow) (xs : List RejectedRow) → Among r (sort_rows xs) ↔ Among r xs
sort_rows-Among r [] = ((λ h. h), (λ h. h))
sort_rows-Among r (x ∷ xs) =
    let (in_tail, to_tail) = sort_rows-Among r xs in
    let (there, back) = insert_row-Among r x (sort_rows xs) in
    (
      (λ h. elim (there h) [ inl p ↦ inl p | inr q ↦ inr (in_tail q) ]),
      (λ h. back (elim h [ inl p ↦ inl p | inr q ↦ inr (to_tail q) ])),
    )

keep-Among :
    (import_id : ℕ) (r : RejectedRow) (xs : List RejectedRow)
    → Among r (keep (matches import_id none) xs) ↔ (Among r xs × (r.import_id ≡ import_id))
keep-Among import_id r [] = ((λ h. (h, absurd h)), (λ h. h.0))
keep-Among import_id r (x ∷ xs) =
    let (there, back) = keep-Among import_id r xs in
    elim (Bool-cases (x.import_id == import_id)) [
      | inl e ↦
          let own : x.import_id ≡ import_id = (==_iff x.import_id import_id).0 e in
          rw e (
            (λ h. elim h [
              | inl p ↦ (inl p, ap (λ (z : RejectedRow). z.import_id) (sym p) ∙ own)
              | inr q ↦ let (m, i) = there q in (inr m, i)
            ]),
            (λ (m, i). elim m [ inl p ↦ inl p | inr q ↦ inr (back (q, i)) ]),
          )
      | inr e ↦ rw e (
        (λ q. let (m, i) = there q in (inr m, i)),
        (λ (m, i). elim m [
          | inl p ↦
              let own : (x.import_id == import_id) ≡ true =
                (==_iff x.import_id import_id).1 (ap (λ (z : RejectedRow). z.import_id) p ∙ i) in
              absurd (cc)
          | inr q ↦ back (q, i)
        ]),
      )
    ]

pub rows_of-Among :
    (import_id : ℕ) (r : RejectedRow) (rows : List RejectedRow)
    → Among r (rows_of import_id rows) ↔ (Among r rows × (r.import_id ≡ import_id))
rows_of-Among import_id r rows =
    let (out, in_sorted) = sort_rows-Among r (keep (matches import_id none) rows) in
    let (there, back) = keep-Among import_id r rows in (λ h. there (out h), λ h. in_sorted (back h))
