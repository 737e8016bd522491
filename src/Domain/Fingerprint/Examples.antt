-- ===== src/Domain/Fingerprint/Examples.antt =====
-- Fingerprints of concrete transactions.
use high_throughput_transact.Base.{ℕ, ◌≡◌, ◌≢◌, ◌↔◌, none, [], ◌∷◌, arith}
use high_throughput_transact.Js.Strings.{Text}
use high_throughput_transact.Js.Sample.{sample_js}
use high_throughput_transact.Domain.Transaction.{ValidatedTransaction}
use high_throughput_transact.Domain.Fingerprint.{delimiter, canonical_string}
use high_throughput_transact.Domain.Fingerprint.Canonical.{
  FieldsPlain, SameFields, canonical_string_iff,
}

abbrev payment : Text → ValidatedTransaction sample_js
payment id = record {
  provider = 112 ∷ [];
  transaction_id = id;
  account_id = 97 ∷ [];
  merchant_id = 109 ∷ [];
  amount = 5;
  currency = 85 ∷ 83 ∷ 68 ∷ [];
  timestamp = 7;
  description = none;
}

payment-FieldsPlain : (c : ℕ) → c ≢ delimiter → FieldsPlain sample_js (payment (c ∷ []))
payment-FieldsPlain c h = record {
  provider = ground arith;
  transaction_id = ground arith;
  account_id = ground arith;
  merchant_id = ground arith;
  amount = ground arith;
  currency = ground arith;
  timestamp = ground arith;
}

canonical_string_iff_example :
    (canonical_string sample_js (payment (49 ∷ []))
      ≡ canonical_string sample_js (payment (50 ∷ [])))
    ↔ SameFields sample_js (payment (49 ∷ [])) (payment (50 ∷ []))
canonical_string_iff_example =
    canonical_string_iff sample_js (payment (49 ∷ [])) (payment (50 ∷ []))
      (payment-FieldsPlain 49 (λ e. cc)) (payment-FieldsPlain 50 (λ e. cc))
