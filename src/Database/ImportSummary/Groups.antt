-- ===== src/Database/ImportSummary/Groups.antt =====
-- GROUP BY and ORDER BY: no row is lost, none is counted twice, and no key has two groups.
use high_throughput_transact.Base.{
  ℕ, suc, ◌+◌, ◌≡◌, refl, sym, ap, ◌∙◌, ◌↔◌, inl, inr, Bool, true, false, ◌||◌, List, [], ◌∷◌,
  arith, if◌then◌else◌, Bool-cases, length, keep,
}
use high_throughput_transact.Database.Table.{count_where}
use high_throughput_transact.Database.ImportSummary.{
  Group, add_to_group, group_by, insert_by, sort_by,
}

pub length-keep : {R : Type 0} (p : R → Bool) (rs : List R) → length (keep p rs) ≡ count_where p rs
unfolding count_where
length-keep p [] = refl
length-keep p (r ∷ rs) = ground (arith, length-keep p rs)

-- The rows of the groups that pass a test, and whether a key has a group.
module _ {K R : Type 0} where
  unfoldable pub tally : (Group K R → Bool) → List (Group K R) → ℕ
  tally p [] = 0
  tally p (g ∷ gs) = (if p g then length g.rows else 0) + tally p gs

  unfoldable pub has_key : (K → K → Bool) → K → List (Group K R) → Bool
  has_key same k [] = false
  has_key same k (g ∷ gs) = same g.key k || has_key same k gs

  -- No key has two groups.
  abbrev pub Unrepeated : (K → K → Bool) → List (Group K R) → Type 0
  Unrepeated same [] = Unit {0}
  Unrepeated same (g ∷ gs) = (has_key same g.key gs ≡ false) × Unrepeated same gs

  tally-insert_by :
      (p : Group K R → Bool) (before : Group K R → Group K R → Bool) (g : Group K R)
      (gs : List (Group K R))
      → tally p (insert_by before g gs) ≡ tally p (g ∷ gs)
  unfolding tally insert_by
  tally-insert_by p before g [] = refl
  tally-insert_by p before g (h ∷ gs) = elim (Bool-cases (before g h)) [
    | inl e ↦ rw e
    | inr e ↦ rw e (omega (arith, tally-insert_by p before g gs))
  ]

  pub tally-sort_by :
      (p : Group K R → Bool) (before : Group K R → Group K R → Bool) (gs : List (Group K R))
      → tally p (sort_by before gs) ≡ tally p gs
  unfolding tally sort_by
  tally-sort_by p before [] = refl
  tally-sort_by p before (g ∷ gs) =
      tally-insert_by p before g (sort_by before gs)
      ∙ ap (λ n. (if p g then length g.rows else 0) + n) (tally-sort_by p before gs)

  has_key-insert_by :
      (same : K → K → Bool) (k : K) (before : Group K R → Group K R → Bool) (g : Group K R)
      (gs : List (Group K R))
      → has_key same k (insert_by before g gs) ≡ (same g.key k || has_key same k gs)
  unfolding has_key insert_by
  has_key-insert_by same k before g [] = refl
  has_key-insert_by same k before g (h ∷ gs) = ground (arith, has_key-insert_by same k before g gs)

  has_key-sort_by :
      (same : K → K → Bool) (k : K) (before : Group K R → Group K R → Bool) (gs : List (Group K R))
      → has_key same k (sort_by before gs) ≡ has_key same k gs
  unfolding has_key sort_by
  has_key-sort_by same k before [] = refl
  has_key-sort_by same k before (g ∷ gs) =
      has_key-insert_by same k before g (sort_by before gs)
      ∙ ap (λ b. same g.key k || b) (has_key-sort_by same k before gs)

-- Groups by a decided equality.
module _ {K R : Type 0} (same : K → K → Bool) (same_iff : (a b : K) → (same a b ≡ true) ↔ (a ≡ b))
    (key_of : R → K) where
  tally-add_to_group :
      (k : K) (r : R) (gs : List (Group K R))
      → tally (λ g. same g.key k) (add_to_group same key_of r gs)
        ≡ (if same (key_of r) k then 1 else 0) + tally (λ g. same g.key k) gs
  unfolding tally add_to_group
  tally-add_to_group k r [] = refl
  tally-add_to_group k r (g ∷ gs) = elim (Bool-cases (same g.key (key_of r))) [
    | inl e ↦
        let q : g.key ≡ key_of r = (same_iff g.key (key_of r)).0 e in rw e (rw q (ground arith))
    | inr e ↦ rw e (omega (arith, tally-add_to_group k r gs))
  ]

  -- A key's groups hold as many rows as have the key.
  pub tally-group_by :
      (k : K) (rs : List R)
      → tally (λ g. same g.key k) (group_by same key_of rs)
        ≡ count_where (λ r. same (key_of r) k) rs
  unfolding group_by count_where tally
  tally-group_by k [] = refl
  tally-group_by k (r ∷ rs) =
      let ih = tally-group_by k rs in
      let e = tally-add_to_group k r (group_by same key_of rs) in ground arith

  total-add_to_group :
      (r : R) (gs : List (Group K R))
      → tally (λ g. true) (add_to_group same key_of r gs) ≡ suc (tally (λ g. true) gs)
  unfolding tally add_to_group
  total-add_to_group r [] = refl
  total-add_to_group r (g ∷ gs) = ground (arith, total-add_to_group r gs)

  pub total-group_by : (rs : List R) → tally (λ g. true) (group_by same key_of rs) ≡ length rs
  unfolding group_by tally
  total-group_by [] = refl
  total-group_by (r ∷ rs) =
      total-add_to_group r (group_by same key_of rs) ∙ ap suc (total-group_by rs)

  same_comm : (a b : K) → same a b ≡ false → same b a ≡ false
  same_comm a b h = elim (Bool-cases (same b a)) [
    | inl e ↦ let q : same a b ≡ true = (same_iff a b).1 (sym ((same_iff b a).0 e)) in cc
    | inr e ↦ e
  ]

  has_key-add_to_group :
      (k : K) (r : R) (gs : List (Group K R))
      → has_key same k (add_to_group same key_of r gs) ≡ (same (key_of r) k || has_key same k gs)
  unfolding has_key add_to_group
  has_key-add_to_group k r [] = refl
  has_key-add_to_group k r (g ∷ gs) = elim (Bool-cases (same g.key (key_of r))) [
    | inl e ↦
        let q : g.key ≡ key_of r = (same_iff g.key (key_of r)).0 e in rw e (rw q (ground arith))
    | inr e ↦ rw e (ground (arith, has_key-add_to_group k r gs))
  ]

  Unrepeated-add_to_group :
      (r : R) (gs : List (Group K R))
      → Unrepeated same gs
      → Unrepeated same (add_to_group same key_of r gs)
  unfolding add_to_group has_key
  Unrepeated-add_to_group r [] u = (refl, tt)
  Unrepeated-add_to_group r (g ∷ gs) u = elim (Bool-cases (same g.key (key_of r))) [
    | inl e ↦ rw e u
    | inr e ↦ rw e (
      has_key-add_to_group g.key r gs ∙ rw (same_comm g.key (key_of r) e) u.0,
      Unrepeated-add_to_group r gs u.1,
    )
  ]

  pub Unrepeated-group_by : (rs : List R) → Unrepeated same (group_by same key_of rs)
  unfolding group_by
  Unrepeated-group_by [] = tt
  Unrepeated-group_by (r ∷ rs) =
      Unrepeated-add_to_group r (group_by same key_of rs) (Unrepeated-group_by rs)

  Unrepeated-insert_by :
      (before : Group K R → Group K R → Bool) (g : Group K R) (gs : List (Group K R))
      → has_key same g.key gs ≡ false
      → Unrepeated same gs
      → Unrepeated same (insert_by before g gs)
  unfolding insert_by has_key
  Unrepeated-insert_by before g [] h u = (refl, tt)
  Unrepeated-insert_by before g (x ∷ gs) h u =
      let apart : same x.key g.key ≡ false = ground arith in
      elim (Bool-cases (before g x)) [
        | inl e ↦ rw e (h, u)
        | inr e ↦ rw e (
          has_key-insert_by same x.key before g gs ∙ rw (same_comm x.key g.key apart) u.0,
          Unrepeated-insert_by before g gs (ground arith) u.1,
        )
      ]

  pub Unrepeated-sort_by :
      (before : Group K R → Group K R → Bool) (gs : List (Group K R))
      → Unrepeated same gs
      → Unrepeated same (sort_by before gs)
  unfolding sort_by
  Unrepeated-sort_by before [] u = tt
  Unrepeated-sort_by before (g ∷ gs) u =
      Unrepeated-insert_by before g (sort_by before gs) (has_key-sort_by same g.key before gs ∙ u.0)
        (Unrepeated-sort_by before gs u.1)
