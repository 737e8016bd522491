-- ===== src/Domain/Validate/Normalised.antt =====
-- What the normalisers of single fields return.
use high_throughput_transact.Base.{
  ℕ, ◌≤◌, ◌<◌, ◌≡◌, refl, subst, ◌↔◌, inl, inr, true, false, Option, none, some, [], ◌∷◌, map,
  arith, ltb, if◌then◌else◌, Bool-cases, length, null,
}
use high_throughput_transact.Js.{Json, str}
use high_throughput_transact.Js.Strings.{Text, trim, strip_control, to_upper}
use high_throughput_transact.Js.Strings.Laws.{
  trim-trim, all-trim, has_no_control, strip_control-clean, strip_control-eq,
}
use high_throughput_transact.Domain.Validate.{
  max_identifier_length, is_letter, matches_currency, clean_string, normalize_required_string,
}

-- Text without control characters and without white space at its ends, of 1 to `limit` units.
pub record IsClean (limit : ℕ) (s : Text) : Type 0 where
  pub nonempty : 0 < length s
  pub bounded : length s ≤ limit
  pub printable : has_no_control s ≡ true
  pub trimmed : trim s ≡ s

pub trim_strip-printable : (v : Text) → has_no_control (trim (strip_control v)) ≡ true
trim_strip-printable v = all-trim _ (strip_control v) (strip_control-clean v)

nonempty-of : (s : Text) → null s ≡ false → 0 < length s
nonempty-of [] h = cc
nonempty-of (c ∷ s) h = omega arith

null-of : (s : Text) → 0 < length s → null s ≡ false
null-of [] h = absurd (omega arith)
null-of (c ∷ s) h = refl

pub clean_string-IsClean :
    (v : Text) {s : Text} → clean_string v ≡ some s → IsClean max_identifier_length s
unfolding clean_string
clean_string-IsClean v {s} h = go (trim (strip_control v)) refl h
  where
    go :
        (t : Text)
        → trim (strip_control v) ≡ t
        → (if null t then none else if ltb max_identifier_length (length t) then none else some t)
          ≡ some s
        → IsClean max_identifier_length s
    go [] e h = cc
    go (c ∷ t) e h = elim (Bool-cases (ltb max_identifier_length (length (c ∷ t)))) [
      | inl long ↦ let h' : none ≡ some s = rw long at h in cc
      | inr short ↦
          let h' : some (c ∷ t) ≡ some s = rw short at h in
          let same : s ≡ c ∷ t = cc in
          rw same (record {
            nonempty = omega arith;
            bounded = ground arith;
            printable = subst (λ x. has_no_control x ≡ true) e (trim_strip-printable v);
            trimmed = subst (λ x. trim x ≡ x) e (trim-trim (strip_control v));
          })
    ]

-- A required string is accepted as it stands exactly when it is clean: what normalisation
-- returns is clean, and clean text is returned unchanged.
pub normalize_required_string_iff :
    {N : Type 0} (s : Text)
    → (IsClean max_identifier_length s
        ↔ (normalize_required_string {N = N} (some (str s)) ≡ some s))
      × ((value : Option (Json N)) (t : Text)
          → normalize_required_string value ≡ some t
          → IsClean max_identifier_length t)
unfolding normalize_required_string clean_string
normalize_required_string_iff {N} s = ((fixed, λ h. clean_string-IsClean s h), only)
  where
    fixed : IsClean max_identifier_length s → clean_string s ≡ some s
    fixed c =
        let e : trim (strip_control s) ≡ s = rw (strip_control-eq s c.printable) c.trimmed in
        rw (e, clean_string) (ground (arith, null-of s c.nonempty))

    only :
        (value : Option (Json N)) (t : Text)
        → normalize_required_string value ≡ some t
        → IsClean max_identifier_length t
    only none t h = cc
    only (some (str v)) t h = clean_string-IsClean v h
    only (some _) t h = cc

-- Three upper-case letters.
abbrev pub IsCurrency : Text → Type 0
IsCurrency (a ∷ b ∷ c ∷ []) = (65 ≤ a) × (a ≤ 90) × (65 ≤ b) × (b ≤ 90) × (65 ≤ c) × (c ≤ 90)
IsCurrency _ = ⊥

pub to_upper_letter : (c : ℕ) → is_letter c ≡ true → (65 ≤ to_upper c) × (to_upper c ≤ 90)
unfolding is_letter to_upper
to_upper_letter c h = ground arith

pub matches_currency-IsCurrency :
    (s : Text) → matches_currency s ≡ true → IsCurrency (map to_upper s)
unfolding matches_currency
matches_currency-IsCurrency (a ∷ b ∷ c ∷ []) h =
    ground (arith, to_upper_letter a, to_upper_letter b, to_upper_letter c)
matches_currency-IsCurrency _ h = cc
