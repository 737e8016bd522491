-- ===== src/Domain/RiskScore/Examples.antt =====
-- The score of a transaction over whole numbers.
use high_throughput_transact.Base.{
  ℕ, ◌*◌, ◌/◌, ◌≤◌, ◌≡◌, refl, ◌⊎◌, inl, inr, true, none, [], ◌∷◌, leb, arith, Bool-cases, leb→le,
}
use high_throughput_transact.Js.Sample.{sample_js}
use high_throughput_transact.Domain.Transaction.{ValidatedTransaction}
use high_throughput_transact.Domain.RiskScore.{Digests, compute_risk_score}
use high_throughput_transact.Domain.RiskScore.Range.{Doubles, compute_risk_score-range}

leb-total : (a b : ℕ) → (leb a b ≡ true) ⊎ (leb b a ≡ true)
leb-total a b = elim (Bool-cases (leb a b)) [ inl e ↦ inl e | inr e ↦ inr (ground arith) ]

le→leb : (a b : ℕ) → a ≤ b → leb a b ≡ true
le→leb a b h = ground arith

hundredths_mono : (a b : ℕ) → leb a b ≡ true → leb (a / 100) (b / 100) ≡ true
hundredths_mono a b h = let below = leb→le a b h in le→leb (a / 100) (b / 100) (omega arith)

whole_numbers : Doubles sample_js
whole_numbers = record {
  total = λ a b h k. leb-total a b;
  lit_not_nan = λ n. refl;
  le_lit = λ a b h k. ground arith;
  mul_lit = λ a b h. refl;
  div_lit = λ a b h k. grind arith;
  round_lit = λ a h. refl;
  mul_mono = λ a b l. let below = leb→le a b l in le→leb (a * 100) (b * 100) (omega arith);
  div_mono = λ a b l. hundredths_mono a b l;
  round_mono = λ a b h. h;
}

abbrev digests : Digests
digests = record { of_text = λ s. 1 ∷ 2 ∷ 3 ∷ 4 ∷ []; of_bytes = λ bytes. bytes }

abbrev a_transaction : ValidatedTransaction sample_js
a_transaction = record {
  provider = [];
  transaction_id = 116 ∷ [];
  account_id = [];
  merchant_id = 109 ∷ [];
  amount = 500;
  currency = [];
  timestamp = 7;
  description = none;
}

compute_risk_score-range_example :
    (leb 0 (compute_risk_score sample_js digests 2 a_transaction []).score ≡ true)
    × (leb (compute_risk_score sample_js digests 2 a_transaction []).score 100 ≡ true)
compute_risk_score-range_example = compute_risk_score-range digests 2 a_transaction [] whole_numbers
