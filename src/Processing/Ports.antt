-- ===== src/Processing/Ports.antt =====
-- src/application/ports: what process-import-file.use-case.ts is given, over a state `S` that the
-- implementations share.
use high_throughput_transact.Base.{ℕ, String, Option, List}
use high_throughput_transact.Js.{Js}
use high_throughput_transact.Js.Strings.{Text}
use high_throughput_transact.Domain.Errors.{Thrown, Attempt}
use high_throughput_transact.Domain.Transaction.{ValidatedTransaction}
use high_throughput_transact.Database.World.{JobStatus, RiskLevel}
use high_throughput_transact.Database.TransactionRepository.{PersistBatchInput, BatchPersistResult}
use high_throughput_transact.Retry.{RetryConfig}

pub record FileLocation : Type 0 where
  pub storage_path : String
  pub provider : Option Text

pub record ScoringInput (js : Js) : Type 0 where
  pub transaction : ValidatedTransaction js
  pub fingerprint : Text

pub record ScoringOutput (js : Js) : Type 0 where
  pub score : js.Number
  pub level : RiskLevel
  pub fingerprint : Text

-- A call of the metrics recorder or of the logger. Durations are in milliseconds.
pub data Signal : Type 0 where
  counter : (name : String) → (label : Option String) → (value : ℕ) → Signal
  histogram : (name : String) → (duration_ms : ℕ) → Signal
  gauge : (name : String) → (value : ℕ) → Signal
  info warn error : (text : String) → Signal

-- `readLines` is the lines of the file, and what its stream throws after them, if it does.
pub record Ports (js : Js) (S : Type 0) : Type 0 where
  pub find_file : ℕ → Attempt S (Option FileLocation)
  pub count_lines : String → Attempt S ℕ
  pub lines : String → List Text
  pub line_failure : String → Option Thrown
  pub mark_processing : ℕ → ℕ → ℕ → Attempt S (Unit {0})
  pub mark_completed : ℕ → ℕ → Attempt S (Unit {0})
  pub mark_cancelled : ℕ → ℕ → Attempt S (Unit {0})
  pub mark_failed : ℕ → ℕ → String → Attempt S (Unit {0})
  pub renew_lease : ℕ → ℕ → ℕ → Attempt S (Unit {0})
  pub get_status : ℕ → Attempt S (Option JobStatus)
  pub score_batch : List (ScoringInput js) → Attempt S (List (ScoringOutput js))
  pub persist_batch : PersistBatchInput js → Attempt S BatchPersistResult
  pub retry : RetryConfig
  pub sleep : ℕ → S → S
  pub date_now : S → ℕ
  pub signal : Signal → S → S
  pub prisma_message : String → String

pub record Settings : Type 0 where
  pub batch_size : ℕ
  pub max_concurrent_persists : ℕ
