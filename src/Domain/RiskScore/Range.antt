-- ===== src/Domain/RiskScore/Range.antt =====
-- The range of the score.
use high_throughput_transact.Base.{
  ℕ, ◌*◌, ◌≤◌, ◌<◌, ◌≡◌, subst, ◌⊎◌, inl, inr, true, false, arith, Bool-cases,
}
use high_throughput_transact.Js.{Js}
use high_throughput_transact.Js.Strings.{Text}
use high_throughput_transact.Domain.Transaction.{ValidatedTransaction}
use high_throughput_transact.Domain.RiskScore.{
  Digests, min_number, max_number, clamp01, weighted, score_of, compute_risk_score,
}

-- Numbers up to here are exact.
abbrev pub exact_below : ℕ
exact_below = 9007199254740992

-- What IEEE 754 says of the operations: the order is total on numbers, arithmetic on small integers
-- is exact, and multiplication and division by 100 and rounding keep the order.
pub record Doubles (js : Js) : Type 0 where
  pub total :
      (a b : js.Number)
      → js.is_nan a ≡ false
      → js.is_nan b ≡ false
      → (js.le a b ≡ true) ⊎ (js.le b a ≡ true)
  pub lit_not_nan : (n : ℕ) → js.is_nan (js.lit n) ≡ false
  pub le_lit : (a b : ℕ) → a ≤ b → b < exact_below → js.le (js.lit a) (js.lit b) ≡ true
  pub mul_lit : (a b : ℕ) → a * b < exact_below → js.mul (js.lit a) (js.lit b) ≡ js.lit (a * b)
  pub div_lit :
      (a b : ℕ) → 1 ≤ b → a * b < exact_below → js.div (js.lit (a * b)) (js.lit b) ≡ js.lit a
  pub round_lit : (a : ℕ) → a < exact_below → js.round (js.lit a) ≡ js.lit a
  pub mul_mono :
      (a b : js.Number)
      → js.le a b ≡ true
      → js.le (js.mul a (js.lit 100)) (js.mul b (js.lit 100)) ≡ true
  pub div_mono :
      (a b : js.Number)
      → js.le a b ≡ true
      → js.le (js.div a (js.lit 100)) (js.div b (js.lit 100)) ≡ true
  pub round_mono : (a b : js.Number) → js.le a b ≡ true → js.le (js.round a) (js.round b) ≡ true

module _ {js : Js} (d : Doubles js) where
  abbrev Within : ℕ → js.Number → Type 0
  Within top x = (js.le (js.lit 0) x ≡ true) × (js.le x (js.lit top) ≡ true)

  max_number-Within :
      (v : js.Number)
      → js.is_nan v ≡ false
      → (js.le (js.lit 0) (max_number js (js.lit 0) v) ≡ true)
        × (js.is_nan (max_number js (js.lit 0) v) ≡ false)
  unfolding max_number
  max_number-Within v h = rw (d.lit_not_nan 0) (elim (Bool-cases (js.le v (js.lit 0))) [
    | inl e ↦ rw e (d.le_lit 0 0 (omega arith) (omega arith), d.lit_not_nan 0)
    | inr e ↦
        rw e (elim (d.total (js.lit 0) v (d.lit_not_nan 0) h) [ inl low ↦ low | inr over ↦ cc ], h)
  ])

  min_number-Within :
      (v : js.Number)
      → js.is_nan v ≡ false
      → js.le (js.lit 0) v ≡ true
      → Within 1 (min_number js (js.lit 1) v)
  unfolding min_number
  min_number-Within v h low = rw (d.lit_not_nan 1) (elim (Bool-cases (js.le (js.lit 1) v)) [
    | inl e ↦
        rw e (d.le_lit 0 1 (omega arith) (omega arith), d.le_lit 1 1 (omega arith) (omega arith))
    | inr e ↦ rw e (
      low,
      elim (d.total v (js.lit 1) h (d.lit_not_nan 1)) [ inl below ↦ below | inr above ↦ cc ],
    )
  ])

  clamp01-Within : (v : js.Number) → Within 1 (clamp01 js v)
  unfolding clamp01
  clamp01-Within v = elim (Bool-cases (js.is_nan v)) [
    | inl e ↦
        rw e (d.le_lit 0 0 (omega arith) (omega arith), d.le_lit 0 1 (omega arith) (omega arith))
    | inr e ↦ rw e (
        let (low, h) = max_number-Within v e in
        min_number-Within (max_number js (js.lit 0) v) h low)
  ]

  times_hundred-Within :
      (top : ℕ) (x : js.Number)
      → top * 100 < exact_below
      → Within top x
      → Within (top * 100) (js.mul x (js.lit 100))
  times_hundred-Within top x h (low, high) = (
    subst (λ z. js.le z (js.mul x (js.lit 100)) ≡ true) (d.mul_lit 0 100 (omega arith))
        (d.mul_mono (js.lit 0) x low),
    subst (λ z. js.le (js.mul x (js.lit 100)) z ≡ true) (d.mul_lit top 100 h)
        (d.mul_mono x (js.lit top) high),
  )

  score_of-Within : (w : js.Number) → Within 100 (score_of js w)
  unfolding score_of
  score_of-Within w =
      let percent = times_hundred-Within 1 (clamp01 js w) (omega arith) (clamp01-Within w) in
      let (low, high) = times_hundred-Within 100 _ (omega arith) percent in
      let rounded = js.round (js.mul (js.mul (clamp01 js w) (js.lit 100)) (js.lit 100)) in
      let low' =
        subst (λ z. js.le z rounded ≡ true) (d.round_lit 0 (omega arith))
          (d.round_mono (js.lit 0) _ low) in
      let high' =
        subst (λ z. js.le rounded z ≡ true) (d.round_lit 10000 (omega arith))
          (d.round_mono _ (js.lit 10000) high) in
      (
        subst (λ z. js.le z (js.div rounded (js.lit 100)) ≡ true)
            (d.div_lit 0 100 (omega arith) (omega arith)) (d.div_mono (js.lit 0) rounded low'),
        subst (λ z. js.le (js.div rounded (js.lit 100)) z ≡ true)
            (d.div_lit 100 100 (omega arith) (omega arith))
            (d.div_mono rounded (js.lit 10000) high'),
      )

-- Whatever the transaction, NaN and infinite signals included, the score lies between 0 and 100.
-- What the double arithmetic is taken to do is said by `Doubles`.
pub compute_risk_score-range :
    {js : Js} (digests : Digests) (rounds : ℕ) (t : ValidatedTransaction js) (fingerprint : Text)
    → Doubles js
    → (js.le (js.lit 0) (compute_risk_score js digests rounds t fingerprint).score ≡ true)
      × (js.le (compute_risk_score js digests rounds t fingerprint).score (js.lit 100) ≡ true)
unfolding compute_risk_score
compute_risk_score-range {js} digests rounds t fingerprint d =
    score_of-Within d (weighted js digests rounds t fingerprint)
