-- ===== src/Processing/Progress.antt =====
-- The local variables of `execute` in src/application/use-cases/process-import-file.use-case.ts, and
-- what a line of the file adds to them.
use high_throughput_transact.Base.{ℕ, ◌+◌, Bool, false, List, [], ◌∷◌, ◌++◌, length, take}
use high_throughput_transact.Js.{Js, Json}
use high_throughput_transact.Js.Strings.{Text}
use high_throughput_transact.Domain.ParseLine.{
  LineParseResult, blank, valid, rejected, parse_ndjson_line,
}
use high_throughput_transact.Domain.Validate.{
  ValidationResult, accepted, fail, validate_transaction,
}
use high_throughput_transact.Domain.Fingerprint.{compute_fingerprint}
use high_throughput_transact.Concurrency.Semaphore.{Semaphore}
use high_throughput_transact.Database.World.{RejectedRecordInput, line_error, record_error}
use high_throughput_transact.Processing.Ports.{ScoringInput}

pub record Progress (js : Js) : Type 0 where
  pub limiter : Semaphore
  pub line_number : ℕ
  pub inserted : ℕ
  pub duplicates : ℕ
  pub rejected : ℕ
  pub was_cancelled : Bool
  pub last_heartbeat : ℕ
  pub pending_scoring : List (ScoringInput js)
  pub pending_rejected : List RejectedRecordInput
  pub pending_line_count : ℕ

unfoldable pub begin : {js : Js} → Semaphore → ℕ → Progress js
begin limiter now = record {
  limiter = limiter;
  line_number = 0;
  inserted = 0;
  duplicates = 0;
  rejected = 0;
  was_cancelled = false;
  last_heartbeat = now;
  pending_scoring = [];
  pending_rejected = [];
  pending_line_count = 0;
}

-- `RAW_VALUE_CAP`
abbrev pub raw_value_cap : ℕ
raw_value_cap = 2000

-- What becomes of a line.
pub data Entry (js : Js) : Type 0 where
  skipped : Entry js
  to_reject : RejectedRecordInput → Entry js
  to_score : ScoringInput js → Entry js

module _ (js : Js) where
  open js use {Number, json_stringify}

  unfoldable pub classify_validated : ℕ → Json Number → ValidationResult js → Entry js
  classify_validated line_number data_ (accepted t) =
      to_score (record { transaction = t; fingerprint = compute_fingerprint js t })
  classify_validated line_number data_ (fail c m field_name) = to_reject (record {
    line_number = line_number;
    error_code = record_error c;
    message = m;
    raw_value_truncated = take raw_value_cap (json_stringify data_);
  })

  unfoldable pub classify_parsed : LineParseResult Number → Text → Entry js
  unfolding classify_validated
  classify_parsed blank fallback_provider = skipped
  classify_parsed (rejected n c m raw) fallback_provider = to_reject (record {
    line_number = n;
    error_code = line_error c;
    message = m;
    raw_value_truncated = take raw_value_cap raw;
  })
  classify_parsed (valid n data_) fallback_provider =
      classify_validated n data_ (validate_transaction js data_ fallback_provider)

  -- Parsing, validation and the fingerprint.
  unfoldable pub classify_line : Text → ℕ → Text → Entry js
  unfolding classify_parsed
  classify_line raw_line line_number fallback_provider =
      classify_parsed (parse_ndjson_line js raw_line line_number) fallback_provider

module _ {js : Js} where
  -- The pushes on the accumulators.
  unfoldable pub take_in : Entry js → Progress js → Progress js
  take_in skipped p = p
  take_in (to_reject r) p = record p {
    pending_line_count = p.pending_line_count + 1;
    pending_rejected = p.pending_rejected ++ r ∷ [];
  }
  take_in (to_score s) p = record p {
    pending_line_count = p.pending_line_count + 1;
    pending_scoring = p.pending_scoring ++ s ∷ [];
  }

  unfoldable pub pending_size : Progress js → ℕ
  pending_size p = length p.pending_scoring + length p.pending_rejected
