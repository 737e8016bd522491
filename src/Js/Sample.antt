-- ===== src/Js/Sample.antt =====
-- A small instance of the operations on numbers, dates and digests, for the examples.
use high_throughput_transact.Base.{
  ℕ, ◌+◌, ◌-◌, ◌*◌, ◌/◌, true, false, Option, none, some, [], ◌∷◌, leb, ◌==◌, if◌then◌else◌,
}
use high_throughput_transact.Js.{Js, Json, Fields, end, field, str, num, obj, pos}
use high_throughput_transact.Js.Strings.{Text}

-- `{"transactionId": "t", "accountId": "a", "merchantId": "m", "amount": 500, "currency": "usd",
-- "timestamp": 7}`
abbrev pub sample_fields : Fields ℕ
sample_fields = field "transactionId" (str (116 ∷ [])) (
    field "accountId" (str (97 ∷ [])) (
      field "merchantId" (str (109 ∷ [])) (
        field "amount" (num 500)
          (field "currency" (str (117 ∷ 115 ∷ 100 ∷ [])) (field "timestamp" (num 7) end)))))

-- A line that starts with a brace is the sample object, any other is not JSON.
abbrev parse : Text → Option (Json ℕ)
parse [] = none
parse (c ∷ s) = if c == 123 then some (obj sample_fields) else none

abbrev pub sample_js : Js
sample_js = record {
  Number = ℕ;
  lit = λ n. n;
  add = λ a b. a + b;
  sub = λ a b. a - b;
  mul = λ a b. a * b;
  div = λ a b. a / b;
  le = leb;
  is_finite = λ a. true;
  is_nan = λ a. false;
  round = λ a. a;
  log10 = λ a. 0;
  cos_hours = λ h. 1;
  number_of_text = λ s. 0;
  to_fixed2 = λ a. 53 ∷ [];
  Time = ℕ;
  date_of_text = λ s. none;
  date_of_number = some;
  utc_year = λ t. pos 2024;
  utc_hours = λ t. 12;
  to_iso_string = λ t. 55 ∷ [];
  json_parse = parse;
  json_error = λ s. "Unexpected token";
  json_stringify = λ j. 123 ∷ 125 ∷ [];
  sha256 = λ s. s;
}
