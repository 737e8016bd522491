-- ===== src/Domain/Validate.antt =====
-- src/domain/transaction/validate-transaction.ts: a parsed record becomes a transaction, or the
-- first failure in the order of the checks. A parsed object has no property that is undefined
-- and present.
pub mod Normalised
pub mod Accepted
mod Examples
use high_throughput_transact.Base.{
  ℕ, zero, String, Bool, false, not, ◌&&◌, ◌||◌, Option, none, some, [], ◌∷◌, map, ltb, leb,
  if◌then◌else◌, length, null,
}
use high_throughput_transact.Js.{
  Js, Json, null as json_null, num, str, obj, Fields, get, ℤ, pos, negsuc,
}
use high_throughput_transact.Js.Strings.{Text, trim, strip_control, to_upper}
use high_throughput_transact.Domain.Transaction.{ValidatedTransaction}

abbrev pub max_description_length : ℕ
max_description_length = 500

abbrev pub max_identifier_length : ℕ
max_identifier_length = 128

pub data ValidationErrorCode : Type 0 where
  missing_field invalid_amount invalid_currency invalid_timestamp : ValidationErrorCode
  description_too_long invalid_type : ValidationErrorCode

pub data ValidationResult (js : Js) : Type 0 where
  accepted : ValidatedTransaction js → ValidationResult js
  fail :
      ValidationErrorCode → (message : String) → (field_name : Option String) → ValidationResult js

-- `CURRENCY_PATTERN`, /^[A-Za-z]{3}$/
unfoldable pub is_letter : ℕ → Bool
is_letter c = (leb 65 c && leb c 90) || (leb 97 c && leb c 122)

unfoldable pub matches_currency : Text → Bool
unfolding is_letter
matches_currency (a ∷ b ∷ c ∷ []) = is_letter a && is_letter b && is_letter c
matches_currency _ = false

unfoldable pub clean_string : Text → Option Text
clean_string value =
    let cleaned = trim (strip_control value) in
    if null cleaned
    then none
    else if ltb max_identifier_length (length cleaned)
    then none
    else some cleaned

unfoldable pub normalize_required_string : {N : Type 0} → Option (Json N) → Option Text
unfolding clean_string
normalize_required_string (some (str value)) = clean_string value
normalize_required_string _ = none

-- `value === undefined || value === null`
unfoldable pub present : {N : Type 0} → Option (Json N) → Option (Json N)
present none = none
present (some json_null) = none
present (some v) = some v

-- `value ?? fallback`
unfoldable pub or_else : Option Text → Text → Text
or_else none fallback = fallback
or_else (some value) fallback = value

-- `1970 <= year <= 2200`
unfoldable pub year_in_range : ℤ → Bool
year_in_range (pos y) = leb 1970 y && leb y 2200
year_in_range (negsuc y) = false

module _ (js : Js) where
  open js use {
    Number, lit, mul, div, le, is_finite, round, number_of_text, Time, date_of_text, date_of_number,
    utc_year,
  }

  -- `!Number.isFinite(parsed) || parsed <= 0`, then two decimals.
  unfoldable pub round_amount : Number → Option Number
  round_amount parsed =
      if not (is_finite parsed) || le parsed (lit 0)
      then none
      else some (div (round (mul parsed (lit 100))) (lit 100))

  amount_of_text : Text → Option Number
  unfolding round_amount
  amount_of_text trimmed = if null trimmed then none else round_amount (number_of_text trimmed)

  unfoldable pub normalize_amount : Json Number → Option Number
  unfolding round_amount amount_of_text
  normalize_amount (num parsed) = round_amount parsed
  normalize_amount (str value) = amount_of_text (trim value)
  normalize_amount _ = none

  unfoldable pub date_of : Json Number → Option Time
  date_of (str value) = date_of_text value
  date_of (num value) = date_of_number value
  date_of _ = none

  unfoldable pub check_year : Option Time → Option Time
  check_year none = none
  check_year (some date) = if year_in_range (utc_year date) then some date else none

  unfoldable pub normalize_timestamp : Json Number → Option Time
  unfolding date_of check_year year_in_range
  normalize_timestamp value = check_year (date_of value)

  -- The checks of one field: the value goes on, or the record fails.
  unfoldable pub require :
      {A : Type 0}
      → Option A
      → ValidationResult js
      → (A → ValidationResult js)
      → ValidationResult js
  require none failure next = failure
  require (some a) failure next = next a

  unfoldable pub check : Bool → ValidationResult js → ValidationResult js → ValidationResult js
  check passed failure next = if passed then next else failure

  check_description : Text → (Option Text → ValidationResult js) → ValidationResult js
  check_description trimmed next =
      if ltb max_description_length (length trimmed)
      then fail description_too_long "description exceeds 500 characters." (some "description")
      else next (if null trimmed then none else some trimmed)

  unfoldable pub describe :
      Option (Json Number) → (Option Text → ValidationResult js) → ValidationResult js
  unfolding check_description
  describe none next = next none
  describe (some json_null) next = next none
  describe (some (str d)) next = check_description (trim (strip_control d)) next
  describe (some _) next = fail invalid_type "description must be a string." (some "description")

  unfoldable pub validate_record : Fields Number → Text → ValidationResult js
  validate_record record_ fallback_provider =
      let provider =
        or_else (normalize_required_string (get "provider" record_)) fallback_provider in
      require (normalize_required_string (get "transactionId" record_))
        (fail missing_field "transactionId is required." (some "transactionId"))
        λ transaction_id.
          require (normalize_required_string (get "accountId" record_))
            (fail missing_field "accountId is required." (some "accountId"))
            λ account_id.
              require (normalize_required_string (get "merchantId" record_))
                (fail missing_field "merchantId is required." (some "merchantId"))
                λ merchant_id.
                  require (present (get "amount" record_))
                    (fail missing_field "amount is required." (some "amount"))
                    λ raw_amount.
                      require (normalize_amount raw_amount)
                        (fail invalid_amount "amount must be a finite number greater than zero."
                          (some "amount"))
                        λ amount.
                          require (normalize_required_string (get "currency" record_))
                            (fail missing_field "currency is required." (some "currency"))
                            λ raw_currency.
                              check (matches_currency raw_currency)
                                (fail invalid_currency
                                  "currency must be a 3-letter alphabetic code." (some "currency"))
                                (require (present (get "timestamp" record_))
                                  (fail missing_field "timestamp is required." (some "timestamp"))
                                  λ raw_timestamp.
                                    require (normalize_timestamp raw_timestamp)
                                      (fail invalid_timestamp
                                        "timestamp must be a valid ISO-8601 date-time."
                                        (some "timestamp"))
                                      λ timestamp.
                                        describe (get "description" record_) λ description.
                                          accepted (record {
                                            provider = provider;
                                            transaction_id = transaction_id;
                                            account_id = account_id;
                                            merchant_id = merchant_id;
                                            amount = amount;
                                            currency = map to_upper raw_currency;
                                            timestamp = timestamp;
                                            description = description;
                                          }))

  unfoldable pub validate_transaction : Json Number → Text → ValidationResult js
  unfolding validate_record
  validate_transaction (obj fields) fallback_provider = validate_record fields fallback_provider
  validate_transaction _ fallback_provider = fail invalid_type "Record must be a JSON object." none
