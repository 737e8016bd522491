-- ===== src/Js/Strings/Laws.antt =====
-- Trimmed text, and what trimming and stripping keep.
use high_throughput_transact.Base.{
  ℕ, ◌≡◌, refl, Bool, true, not, [], ◌∷◌, all, all-keep, arith, ◌↔◌,
}
use high_throughput_transact.Js.Strings.{
  Text, is_space, is_control, trim_start, trim_end, trim, strip_control, text_eq,
}

-- No white space at the front.
starts_bare : Text → Bool
starts_bare [] = true
starts_bare (c ∷ s) = not (is_space c)

trim_start-bare : (s : Text) → starts_bare (trim_start s) ≡ true
unfolding starts_bare trim_start
trim_start-bare [] = refl
trim_start-bare (c ∷ s) = ground (arith, trim_start-bare s)

trim_start-eq : (s : Text) → starts_bare s ≡ true → trim_start s ≡ s
unfolding starts_bare trim_start
trim_start-eq [] h = refl
trim_start-eq (c ∷ s) h = ground arith

trim_end-bare : (s : Text) → starts_bare s ≡ true → starts_bare (trim_end s) ≡ true
unfolding starts_bare trim_end
trim_end-bare [] h = refl
trim_end-bare (c ∷ s) h = ground arith

trim_end-trim_end : (s : Text) → trim_end (trim_end s) ≡ trim_end s
unfolding trim_end
trim_end-trim_end [] = refl
trim_end-trim_end (c ∷ s) = ground (arith, trim_end-trim_end s)

-- Trimming twice is trimming once.
pub trim-trim : (s : Text) → trim (trim s) ≡ trim s
unfolding trim
trim-trim s =
    let bare = trim_end-bare (trim_start s) (trim_start-bare s) in
    ground (arith, trim_start-eq (trim_end (trim_start s)) bare, trim_end-trim_end (trim_start s))

-- A test that every unit passes still passes after trimming.
module _ (p : ℕ → Bool) where
  all-trim_start : (s : Text) → all p s ≡ true → all p (trim_start s) ≡ true
  unfolding trim_start
  all-trim_start [] h = refl
  all-trim_start (c ∷ s) h = ground (arith, all-trim_start s)

  all-trim_end : (s : Text) → all p s ≡ true → all p (trim_end s) ≡ true
  unfolding trim_end
  all-trim_end [] h = refl
  all-trim_end (c ∷ s) h = ground (arith, all-trim_end s)

  pub all-trim : (s : Text) → all p s ≡ true → all p (trim s) ≡ true
  unfolding trim
  all-trim s h = all-trim_end (trim_start s) (all-trim_start s h)

abbrev pub has_no_control : Text → Bool
has_no_control = all (λ c. not (is_control c))

pub strip_control-clean : (s : Text) → has_no_control (strip_control s) ≡ true
unfolding strip_control
strip_control-clean s = all-keep (λ c. not (is_control c)) s

pub strip_control-eq : (s : Text) → has_no_control s ≡ true → strip_control s ≡ s
unfolding strip_control
strip_control-eq [] h = refl
strip_control-eq (c ∷ s) h = ground (arith, strip_control-eq s)

-- Stripped and trimmed text: a second pass changes nothing.
pub strip_control-trim :
    (s : Text) → strip_control (trim (strip_control s)) ≡ trim (strip_control s)
strip_control-trim s =
    strip_control-eq (trim (strip_control s)) (all-trim _ (strip_control s) (strip_control-clean s))

-- The comparison decides equality.
pub text_eq_iff : (s t : Text) → (text_eq s t ≡ true) ↔ (s ≡ t)
text_eq_iff [] [] = ground arith
text_eq_iff [] (y ∷ t) = ground arith
text_eq_iff (x ∷ s) [] = ground arith
text_eq_iff (x ∷ s) (y ∷ t) = ground (arith, text_eq_iff s t)
