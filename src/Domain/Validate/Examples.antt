-- ===== src/Domain/Validate/Examples.antt =====
-- A record that is accepted, and a string that is clean.
use high_throughput_transact.Base.{◌≡◌, refl, none, [], ◌∷◌}
use high_throughput_transact.Js.{obj, get}
use high_throughput_transact.Js.Strings.{
  trim, trim_start, trim_end, strip_control, is_space, is_control, to_upper,
}
use high_throughput_transact.Js.Sample.{sample_js, sample_fields}
use high_throughput_transact.Domain.Transaction.{ValidatedTransaction}
use high_throughput_transact.Domain.Validate.{
  validate_transaction, validate_record, is_letter, matches_currency, clean_string, present,
  or_else, year_in_range, round_amount, normalize_amount, normalize_timestamp, date_of, check_year,
  require, check, describe, accepted, normalize_required_string,
}
use high_throughput_transact.Domain.Validate.Accepted.{IsNormal, validate_transaction-IsNormal}

abbrev sample_transaction : ValidatedTransaction sample_js
sample_transaction = record {
  provider = 112 ∷ [];
  transaction_id = 116 ∷ [];
  account_id = 97 ∷ [];
  merchant_id = 109 ∷ [];
  amount = 500;
  currency = 85 ∷ 83 ∷ 68 ∷ [];
  timestamp = 7;
  description = none;
}

sample_accepted :
    validate_transaction sample_js (obj sample_fields) (112 ∷ []) ≡ accepted sample_transaction
unfolding validate_transaction validate_record normalize_required_string get trim trim_start
    trim_end strip_control is_space is_control to_upper is_letter matches_currency clean_string
    present or_else year_in_range round_amount normalize_amount normalize_timestamp date_of
    check_year require check describe
sample_accepted = refl

validate_transaction-IsNormal_example : IsNormal sample_js (112 ∷ []) sample_transaction
validate_transaction-IsNormal_example =
    validate_transaction-IsNormal sample_js (obj sample_fields) (112 ∷ []) sample_accepted
