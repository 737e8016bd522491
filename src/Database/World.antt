-- ===== src/Database/World.antt =====
-- The rows of src/prisma/schema.prisma, and the database with its clock, its source of ids and the
-- answers of the connection. Ids and worker ids are only compared, so they are numbers.
pub mod Atomicity
pub mod Contracts
use high_throughput_transact.Base.{
  ℕ, ◌+◌, String, Option, none, List, [], ◌∷◌, Result, ok, err, throw, catch,
}
use high_throughput_transact.Js.{Js}
use high_throughput_transact.Js.Strings.{Text}
use high_throughput_transact.Domain.ImportStatus.{ImportStatus}
use high_throughput_transact.Domain.Errors.{Thrown, prisma_known, wrap_database_error, Attempt}
use high_throughput_transact.Domain.ParseLine.{LineErrorCode}
use high_throughput_transact.Domain.Transaction.{ValidatedTransaction}
use high_throughput_transact.Domain.Validate.{ValidationErrorCode}

pub data JobStatus : Type 0 where
  pending claimed processing cancelling completed failed cancelled : JobStatus

pub data RiskLevel : Type 0 where
  low medium high : RiskLevel

pub record ImportRow : Type 0 where
  pub id : ℕ
  pub provider : Option Text
  pub status : ImportStatus
  pub total_records : ℕ
  pub processed_count : ℕ
  pub accepted_count : ℕ
  pub rejected_count : ℕ
  pub duplicate_count : ℕ
  pub started_at : Option ℕ
  pub completed_at : Option ℕ
  pub failure_reason : Option String
  pub created_at : ℕ
  pub updated_at : ℕ

pub record KeyRow : Type 0 where
  pub key : String
  pub import_id : ℕ

pub record SavedFile : Type 0 where
  pub storage_path : String
  pub size : ℕ
  pub checksum : Text

pub record FileRow : Type 0 where
  pub import_id : ℕ
  pub file : SavedFile
  pub created_at : ℕ

pub record JobRow : Type 0 where
  pub id : ℕ
  pub import_id : ℕ
  pub status : JobStatus
  pub attempt_count : ℕ
  pub leased_by : Option ℕ
  pub leased_until : Option ℕ
  pub last_error : Option String
  pub created_at : ℕ
  pub updated_at : ℕ

-- `ScoredTransaction` of transaction-repository.port.ts.
pub record ScoredTransaction (js : Js) : Type 0 where
  pub transaction : ValidatedTransaction js
  pub fingerprint : Text
  pub risk_score : js.Number
  pub risk_level : RiskLevel

pub record TransactionRow (js : Js) : Type 0 where
  pub import_id : ℕ
  pub scored : ScoredTransaction js

pub data RejectionCode : Type 0 where
  line_error : LineErrorCode → RejectionCode
  record_error : ValidationErrorCode → RejectionCode

-- `RejectedRecordInput`.
pub record RejectedRecordInput : Type 0 where
  pub line_number : ℕ
  pub error_code : RejectionCode
  pub message : String
  pub raw_value_truncated : Text

pub record RejectedRow : Type 0 where
  pub id : ℕ
  pub import_id : ℕ
  pub content : RejectedRecordInput
  pub created_at : ℕ

pub record Tables (js : Js) : Type 0 where
  pub imports : List ImportRow
  pub keys : List KeyRow
  pub files : List FileRow
  pub jobs : List JobRow
  pub transactions : List (TransactionRow js)
  pub rejections : List RejectedRow

-- What the connection makes of a statement: it is carried out and answered, it is not carried
-- out, or it is carried out and the answer is lost.
pub data Reply : Type 0 where
  answered : Reply
  refused lost : Thrown → Reply

-- `replies` is for the statements to come; when it is used up all are answered. `uuid` gives the
-- ids that the database and the client library generate.
pub record World (js : Js) : Type 0 where
  pub tables : Tables js
  pub replies : List Reply
  pub now : ℕ
  pub uuid : ℕ → ℕ
  pub drawn : ℕ

abbrev pub Db : Js → Type 0 → Type 0
Db js A = Attempt (World js) A

abbrev pub Query : Js → Type 0 → Type 0
Query js A = Tables js → Result Thrown A × Tables js

module _ {js : Js} {A : Type 0} where
  unfoldable pub deliver : List Reply → Query js A → Db js A
  deliver [] q w = let (r, t) = q w.tables in (r, record w { tables = t; replies = [] })
  deliver (answered ∷ rs) q w =
      let (r, t) = q w.tables in (r, record w { tables = t; replies = rs })
  deliver (refused e ∷ rs) q w = (err e, record w { replies = rs })
  deliver (lost e ∷ rs) q w = (err e, record w { tables = (q w.tables).1; replies = rs })

  -- One statement. Outside a transaction it commits by itself.
  unfoldable pub statement : Query js A → Db js A
  unfolding deliver
  statement q w = deliver w.replies q w

  unfoldable pub commit : Tables js → A → List Reply → Db js A
  commit before a [] w = (ok a, w)
  commit before a (answered ∷ rs) w = (ok a, record w { replies = rs })
  commit before a (refused e ∷ rs) w = (err e, record w { tables = before; replies = rs })
  commit before a (lost e ∷ rs) w = (err e, record w { replies = rs })

  unfoldable pub conclude : Tables js → Result Thrown A → Db js A
  unfolding commit
  conclude before (ok a) w = commit before a w.replies w
  conclude before (err e) w = (err e, record w { tables = before })

  -- `prisma.$transaction(async (tx) => ...)`: a throw rolls back, and the commit is one more
  -- statement.
  unfoldable pub transaction : Db js A → Db js A
  unfolding conclude
  transaction m w = let (r, w') = m w in conclude w.tables r w'

  -- `try { m } catch (err) { throw wrapDatabaseError(err, operation) }`
  unfoldable pub wrapped : String → Db js A → Db js A
  unfolding wrap_database_error
  wrapped operation m = catch m (λ e. throw (wrap_database_error e operation))

-- An id from the source.
abbrev pub draw_uuid : {js : Js} → Db js ℕ
draw_uuid w = (ok (w.uuid w.drawn), record w { drawn = w.drawn + 1 })

-- The time of the database's and of the process's clock.
abbrev pub current_time : {js : Js} → Db js ℕ
current_time w = (ok w.now, w)

-- `update` of one row by its key: Prisma throws P2025 where no row matches.
abbrev pub record_not_found : Thrown
record_not_found = prisma_known "P2025" none none
