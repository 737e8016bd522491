-- ===== src/Observability/LogSanitizer/Clean.antt =====
-- What a log line may hold: no control characters, and bounded values.
use high_throughput_transact.Base.{
  ℕ, zero, suc, ◌+◌, ◌/◌, ◌%◌, ◌≤◌, ◌≡◌, refl, ◌⊎◌, inl, inr, Bool, true, not, none, some, List, [],
  ◌∷◌, ◌++◌, arith, ltb, ◌==◌, Bool-cases, length, take, keep, all,
}
use high_throughput_transact.Js.Strings.{Text, units, is_control}
use high_throughput_transact.Observability.LogSanitizer.{
  max_logged_value_length, LogValue, undefined_value, null_value, text, scalar, other, digits,
  decimal, is_removed, replace_crlf, replace_unit, escape, truncation_note, shorten, stringify,
  sanitize_for_log,
}

module _ {A : Type 0} (p : A → Bool) where
  all-append : (xs ys : List A) → all p xs ≡ true → all p ys ≡ true → all p (xs ++ ys) ≡ true
  all-append [] ys h k = k
  all-append (x ∷ xs) ys h k = ground (arith, all-append xs ys)

  all-take : (n : ℕ) (xs : List A) → all p xs ≡ true → all p (take n xs) ≡ true
  all-take zero xs h = refl
  all-take (suc n) [] h = refl
  all-take (suc n) (x ∷ xs) h = ground (arith, all-take n xs)

-- A unit that does not occur.
abbrev Lacks : ℕ → Text → Type 0
Lacks u s = all (λ c. not (c == u)) s ≡ true

replace_unit-Lacks : (u : ℕ) (r s : Text) → Lacks u r → Lacks u (replace_unit u r s)
unfolding replace_unit
replace_unit-Lacks u r [] h = refl
replace_unit-Lacks u r (c ∷ s) h = elim (Bool-cases (c == u)) [
  | inl e ↦
      rw e (all-append (λ c. not (c == u)) r (replace_unit u r s) h (replace_unit-Lacks u r s h))
  | inr e ↦ rw (e, e) (replace_unit-Lacks u r s h)
]

replace_unit-keeps : (v u : ℕ) (r s : Text) → Lacks v r → Lacks v s → Lacks v (replace_unit u r s)
unfolding replace_unit
replace_unit-keeps v u r [] h k = refl
replace_unit-keeps v u r (c ∷ s) h k = elim (Bool-cases (c == u)) [
  | inl e ↦ rw e (
      all-append (λ c. not (c == v)) r (replace_unit u r s) h
        (replace_unit-keeps v u r s h (ground arith)))
  | inr e ↦ rw e (ground (arith, replace_unit-keeps v u r s h))
]

abbrev clean : ℕ → Bool
clean c = not (is_control c)

-- The last pass, over a text without tabs and line ends.
keep-clean :
    (s : Text)
    → Lacks 9 s
    → Lacks 10 s
    → Lacks 13 s
    → all clean (keep (λ c. not (is_removed c)) s) ≡ true
unfolding is_removed is_control
keep-clean [] t n r = refl
keep-clean (c ∷ s) t n r = ground (arith, keep-clean s)

escape-clean : (s : Text) → all clean (escape s) ≡ true
unfolding escape
escape-clean s =
    let a = replace_unit 10 (units "\\n") (replace_crlf s) in
    let b = replace_unit 13 (units "\\r") a in
    let no_lf : Lacks 10 a = replace_unit-Lacks 10 (units "\\n") (replace_crlf s) refl in
    let no_cr : Lacks 13 b = replace_unit-Lacks 13 (units "\\r") a refl in
    let still : Lacks 10 b = replace_unit-keeps 10 13 (units "\\r") a refl no_lf in
    keep-clean (replace_unit 9 (units "\\t") b) (replace_unit-Lacks 9 (units "\\t") b refl)
      (replace_unit-keeps 10 9 (units "\\t") b refl still)
      (replace_unit-keeps 13 9 (units "\\t") b refl no_cr)

digits-clean : (f n : ℕ) → all clean (digits f n) ≡ true
unfolding digits is_control
digits-clean zero n = refl
digits-clean (suc f) n = elim (Bool-cases (ltb n 10)) [
  | inl e ↦ rw e (ground arith)
  | inr e ↦ rw e (
      all-append clean (digits f (n / 10)) ((48 + n % 10) ∷ []) (digits-clean f (n / 10))
        (ground arith))
]

truncation_note-clean : (n : ℕ) → all clean (truncation_note n) ≡ true
unfolding decimal is_control
truncation_note-clean n =
    all-append clean (0x2026 ∷ units "[truncated ") (decimal n ++ units " chars]") refl
      (all-append clean (decimal n) (units " chars]") (digits-clean (suc n) n) refl)

-- What is logged in the place of a text.
abbrev pub Bounded : Text → Type 0
Bounded s =
    (length s ≤ max_logged_value_length)
    ⊎ ((t : Text) × (s ≡ take max_logged_value_length t ++ truncation_note (length t)))

shorten-clean :
    (s : Text) → all clean s ≡ true → (all clean (shorten s) ≡ true) × Bounded (shorten s)
unfolding shorten
shorten-clean s h = elim (Bool-cases (ltb max_logged_value_length (length s))) [
  | inl e ↦ rw e (
    all-append clean (take max_logged_value_length s) (truncation_note (length s))
        (all-take clean max_logged_value_length s h) (truncation_note-clean (length s)),
    inr (s, refl),
  )
  | inr e ↦ rw e (h, inl (ground arith))
]

undefined-clean : all clean (units "undefined") ≡ true
unfolding is_control
undefined-clean = refl

null-clean : all clean (units "null") ≡ true
unfolding is_control
null-clean = refl

-- Whatever value is logged, its text holds no control character, so that it cannot start a new log
-- line, and it is at most 200 units long or the first 200 units of a text with a note of its length.
pub sanitize_for_log-clean :
    (v : LogValue)
    → (all (λ c. not (is_control c)) (sanitize_for_log v) ≡ true) × Bounded (sanitize_for_log v)
unfolding sanitize_for_log stringify
sanitize_for_log-clean undefined_value = (undefined-clean, inl (omega arith))
sanitize_for_log-clean null_value = (null-clean, inl (omega arith))
sanitize_for_log-clean (text s) = shorten-clean (escape s) (escape-clean s)
sanitize_for_log-clean (scalar s) = shorten-clean (escape s) (escape-clean s)
sanitize_for_log-clean (other (some s)) = shorten-clean (escape s) (escape-clean s)
sanitize_for_log-clean (other none) =
    shorten-clean (escape (units "[unserializable]")) (escape-clean (units "[unserializable]"))
