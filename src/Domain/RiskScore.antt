-- ===== src/Domain/RiskScore.antt =====
-- src/domain/risk/compute-risk-score.ts. The arithmetic is that of doubles; SHA-256 is a parameter.
pub mod Range
mod Examples
use high_throughput_transact.Base.{
  ℕ, zero, suc, ◌+◌, ◌*◌, ◌%◌, Option, none, some, List, [], ◌∷◌, leb, if◌then◌else◌, length,
}
use high_throughput_transact.Js.{Js}
use high_throughput_transact.Js.Strings.{Text}
use high_throughput_transact.Database.World.{RiskLevel}
use high_throughput_transact.Domain.Transaction.{ValidatedTransaction}

-- The digests of a text in UTF-8 and of bytes: 32 bytes each.
pub record Digests : Type 0 where
  pub of_text : Text → List ℕ
  pub of_bytes : List ℕ → List ℕ

-- `readUInt16BE(0)` and `readUInt32BE(0)`; a digest is never too short.
unfoldable pub read_big_endian : ℕ → ℕ → List ℕ → ℕ
read_big_endian zero n bytes = n
read_big_endian (suc k) n [] = n
read_big_endian (suc k) n (b ∷ bytes) = read_big_endian k (n * 256 + b) bytes

unfoldable pub hash_rounds : Digests → ℕ → List ℕ → List ℕ
hash_rounds d zero digest = digest
hash_rounds d (suc n) digest = hash_rounds d n (d.of_bytes digest)

abbrev pub merchant_buckets : ℕ
merchant_buckets = 16

module _ (js : Js) where
  open js use {Number, lit, add, sub, mul, div, le, is_nan, round, log10, cos_hours, utc_hours}

  -- `Math.min` and `Math.max`: NaN when an argument is.
  unfoldable pub min_number : Number → Number → Number
  min_number a b = if is_nan a then a else if le a b then a else b

  unfoldable pub max_number : Number → Number → Number
  max_number a b = if is_nan a then a else if le b a then a else b

  unfoldable pub clamp01 : Number → Number
  unfolding min_number max_number
  clamp01 value = if is_nan value then lit 0 else min_number (lit 1) (max_number (lit 0) value)

  -- `WEIGHTS`, in hundredths.
  abbrev pub weight : ℕ → Number
  weight hundredths = div (lit hundredths) (lit 100)

  unfoldable pub score_amount : Number → Number
  unfolding clamp01 min_number
  score_amount amount =
      let ratio = div (min_number amount (lit 10000)) (lit 10000) in
      clamp01 (log10 (add (lit 1) (mul (lit 9) ratio)))

  -- `cos_hours h` is the cosine of `h * (Math.PI / 12)`.
  unfoldable pub score_hour : js.Time → Number
  unfolding clamp01
  score_hour timestamp =
      clamp01 (div (add (cos_hours ((utc_hours timestamp + 22) % 24)) (lit 1)) (lit 2))

  unfoldable pub score_merchant : Digests → Text → Number
  unfolding read_big_endian
  score_merchant d merchant_id =
      div (lit (read_big_endian 2 0 (d.of_text merchant_id) % merchant_buckets)) (lit 15)

  unfoldable pub score_description : Option Text → Number
  unfolding clamp01
  score_description none = lit 1
  score_description (some s) =
      if leb 40 (length s) then lit 0 else clamp01 (sub (lit 1) (div (lit (length s)) (lit 40)))

  unfoldable pub score_entropy : Digests → ℕ → Text → Number
  unfolding hash_rounds read_big_endian
  score_entropy d rounds fingerprint =
      div (lit (read_big_endian 4 0 (hash_rounds d rounds (d.of_text fingerprint))))
        (lit 4294967295)

  unfoldable pub to_level : Number → RiskLevel
  to_level score =
      if le (lit 70) score
      then RiskLevel.high
      else if le (lit 40) score
      then RiskLevel.medium
      else RiskLevel.low

  -- The weighted sum, from left to right.
  unfoldable pub weighted : Digests → ℕ → ValidatedTransaction js → Text → Number
  unfolding score_amount score_hour score_merchant score_description score_entropy
  weighted d rounds t fingerprint =
      add
        (add
          (add
            (add (mul (score_amount t.amount) (weight 35))
              (mul (score_hour t.timestamp) (weight 20)))
            (mul (score_merchant d t.merchant_id) (weight 20)))
          (mul (score_description t.description) (weight 15)))
        (mul (score_entropy d rounds fingerprint) (weight 10))

  unfoldable pub score_of : Number → Number
  unfolding clamp01
  score_of w = div (round (mul (mul (clamp01 w) (lit 100)) (lit 100))) (lit 100)

  pub record RiskAssessment : Type 0 where
    pub score : Number
    pub level : RiskLevel

  unfoldable pub compute_risk_score : Digests → ℕ → ValidatedTransaction js → Text → RiskAssessment
  unfolding weighted score_of to_level
  compute_risk_score d rounds t fingerprint =
      let score = score_of (weighted d rounds t fingerprint) in
      record { score = score; level = to_level score }
