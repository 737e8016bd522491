-- ===== src/Domain/Validate/Accepted.antt =====
-- What an accepted record looks like, and that a record written back is accepted again.
use high_throughput_transact.Base.{
  String, ◌≡◌, refl, subst, ◌≢◌, ◌⊎◌, inl, inr, Bool, true, false, Option, none, some, [], ◌∷◌,
  arith, ltb, Bool-cases, Option-cases, length,
}
use high_throughput_transact.Js.{Js, Json, null as json_null, bool, num, str, arr, obj, get}
use high_throughput_transact.Js.Strings.{Text, trim, strip_control}
use high_throughput_transact.Js.Strings.Laws.{trim-trim, has_no_control}
use high_throughput_transact.Domain.Transaction.{ValidatedTransaction}
use high_throughput_transact.Domain.Validate.{
  max_description_length, max_identifier_length, ValidationErrorCode, ValidationResult, accepted,
  fail, normalize_required_string, or_else, year_in_range, round_amount, amount_of_text,
  normalize_amount, date_of, check_year, normalize_timestamp, require, check, check_description,
  describe, validate_record, validate_transaction,
}
use high_throughput_transact.Domain.Validate.Normalised.{
  IsClean, normalize_required_string_iff, IsCurrency, matches_currency-IsCurrency,
  trim_strip-printable,
}

-- An absent description, or printable trimmed text of 1 to 500 units.
abbrev pub IsDescription : Option Text → Type 0
IsDescription none = Unit {0}
IsDescription (some d) = IsClean max_description_length d

-- A finite number above zero, rounded to two decimals.
abbrev pub IsAmount : (js : Js) → js.Number → Type 0
IsAmount js amount =
    (x : js.Number) × (js.is_finite x ≡ true)
    × (js.le x (js.lit 0) ≡ false)
    × (amount ≡ js.div (js.round (js.mul x (js.lit 100))) (js.lit 100))

pub record IsNormal (js : Js) (fallback : Text) (t : ValidatedTransaction js) : Type 0 where
  pub provider : IsClean max_identifier_length t.provider ⊎ (t.provider ≡ fallback)
  pub transaction_id : IsClean max_identifier_length t.transaction_id
  pub account_id : IsClean max_identifier_length t.account_id
  pub merchant_id : IsClean max_identifier_length t.merchant_id
  pub amount : IsAmount js t.amount
  pub currency : IsCurrency t.currency
  pub timestamp : year_in_range (js.utc_year t.timestamp) ≡ true
  pub description : IsDescription t.description

module _ (js : Js) where
  -- A check that the accepted record went through.
  require-accepted :
      {A : Type 0} (o : Option A) (c : ValidationErrorCode) (m : String) (f : Option String)
      (next : A → ValidationResult js) {t : ValidatedTransaction js}
      → require js o (fail c m f) next ≡ accepted t
      → (a : A) × (o ≡ some a) × (next a ≡ accepted t)
  unfolding require
  require-accepted none c m f next h = cc
  require-accepted (some a) c m f next h = (a, refl, h)

  check-accepted :
      (b : Bool) (c : ValidationErrorCode) (m : String) (f : Option String)
      (next : ValidationResult js) {t : ValidatedTransaction js}
      → check js b (fail c m f) next ≡ accepted t
      → (b ≡ true) × (next ≡ accepted t)
  unfolding check
  check-accepted false c m f next h = cc
  check-accepted true c m f next h = (refl, h)

  too_long :
      {c : ValidationErrorCode} {m : String} {f : Option String} {t : ValidatedTransaction js}
      → fail c m f ≢ accepted t
  too_long e = cc

  check_description-accepted :
      (d : Text) (next : Option Text → ValidationResult js) {t : ValidatedTransaction js}
      → has_no_control d ≡ true
      → trim d ≡ d
      → check_description js d next ≡ accepted t
      → (o : Option Text) × IsDescription o × (next o ≡ accepted t)
  unfolding check_description
  check_description-accepted [] next p q h = (none, tt, h)
  check_description-accepted (c ∷ d) next p q h =
      elim (Bool-cases (ltb max_description_length (length (c ∷ d)))) [
        | inl long ↦ absurd (too_long (rw long at h))
        | inr short ↦ (
          some (c ∷ d),
          record { nonempty = omega arith; bounded = ground arith; printable = p; trimmed = q },
          rw short at h,
        )
      ]

  describe-accepted :
      (o : Option (Json js.Number)) (next : Option Text → ValidationResult js)
      {t : ValidatedTransaction js}
      → describe js o next ≡ accepted t
      → (d : Option Text) × IsDescription d × (next d ≡ accepted t)
  unfolding describe
  describe-accepted none next h = (none, tt, h)
  describe-accepted (some json_null) next h = (none, tt, h)
  describe-accepted (some (str d)) next h =
      check_description-accepted (trim (strip_control d)) next (trim_strip-printable d)
        (trim-trim (strip_control d)) h
  describe-accepted (some (bool b)) next h = cc
  describe-accepted (some (num b)) next h = cc
  describe-accepted (some (arr b)) next h = cc
  describe-accepted (some (obj b)) next h = cc

  round_amount-IsAmount :
      (x : js.Number) {a : js.Number} → round_amount js x ≡ some a → IsAmount js a
  unfolding round_amount
  round_amount-IsAmount x h = (x, ground arith, ground arith, ground arith)

  normalize_amount-IsAmount :
      (v : Json js.Number) {a : js.Number} → normalize_amount js v ≡ some a → IsAmount js a
  unfolding normalize_amount amount_of_text
  normalize_amount-IsAmount (num x) h = round_amount-IsAmount x h
  normalize_amount-IsAmount (str s) h = go (trim s) h
    where
      go : (u : Text) {a : js.Number} → amount_of_text js u ≡ some a → IsAmount js a
      go [] h = cc
      go (c ∷ u) h = round_amount-IsAmount (js.number_of_text (c ∷ u)) h
  normalize_amount-IsAmount _ h = cc

  normalize_timestamp-year :
      (v : Json js.Number) {d : js.Time}
      → normalize_timestamp js v ≡ some d
      → year_in_range (js.utc_year d) ≡ true
  unfolding normalize_timestamp check_year
  normalize_timestamp-year v h = go (date_of js v) h
    where
      go :
          (o : Option js.Time) {d : js.Time}
          → check_year js o ≡ some d
          → year_in_range (js.utc_year d) ≡ true
      go none h = cc
      go (some d) h = ground arith

  provider-or_else :
      (o : Option (Json js.Number)) (fallback : Text)
      → let p = or_else (normalize_required_string o) fallback in
        IsClean max_identifier_length p ⊎ (p ≡ fallback)
  unfolding or_else
  provider-or_else o fallback = elim (Option-cases (normalize_required_string o)) [
    | inl e ↦ rw e (inr refl)
    | inr (p, e) ↦ rw e (inl ((normalize_required_string_iff {N = js.Number} p).1 o p e))
  ]

-- Whatever record is accepted, the transaction is in normal form: its ids are printable, trimmed
-- and of 1 to 128 units, the provider too unless it is the fallback of the import, the amount is
-- a finite number above zero rounded to two decimals, the currency is three upper-case letters,
-- the year lies in 1970 to 2200, and the description is absent or of 1 to 500 units.
pub validate_transaction-IsNormal :
    (js : Js) (raw : Json js.Number) (fallback : Text) {t : ValidatedTransaction js}
    → validate_transaction js raw fallback ≡ accepted t
    → IsNormal js fallback t
unfolding validate_transaction validate_record
validate_transaction-IsNormal js (obj fs) fallback h =
    let (tid, e1, h1) = require-accepted js _ _ _ _ _ h in
    let (acc, e2, h2) = require-accepted js _ _ _ _ _ h1 in
    let (mer, e3, h3) = require-accepted js _ _ _ _ _ h2 in
    let (ra, e4, h4) = require-accepted js _ _ _ _ _ h3 in
    let (am, e5, h5) = require-accepted js _ _ _ _ _ h4 in
    let (rc, e6, h6) = require-accepted js _ _ _ _ _ h5 in
    let (e7, h7) = check-accepted js _ _ _ _ _ h6 in
    let (rt, e8, h8) = require-accepted js _ _ _ _ _ h7 in
    let (ts, e9, h9) = require-accepted js _ _ _ _ _ h8 in
    let (de, e10, h10) = describe-accepted js _ _ h9 in
    let clean = λ (o : Option (Json js.Number)) (s : Text).
      (normalize_required_string_iff {N = js.Number} s).1 o s in
    subst (IsNormal js fallback) (accepted-injective h10) (record {
      provider = provider-or_else js (get "provider" fs) fallback;
      transaction_id = clean _ _ e1;
      account_id = clean _ _ e2;
      merchant_id = clean _ _ e3;
      amount = normalize_amount-IsAmount js ra e5;
      currency = matches_currency-IsCurrency rc e7;
      timestamp = normalize_timestamp-year js rt e9;
      description = e10;
    })
  where
    accepted-injective : {a b : ValidatedTransaction js} → accepted a ≡ accepted b → a ≡ b
    accepted-injective e = cc
validate_transaction-IsNormal js _ fallback h = cc
