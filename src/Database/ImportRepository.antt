-- ===== src/Database/ImportRepository.antt =====
-- src/infrastructure/repository/import.repository.ts: imports are created once for each
-- idempotency key, read, and flagged for cancellation.
pub mod Creation
pub mod Idempotency
mod Examples
use high_throughput_transact.Base.{
  ℕ, String, str_eq, Bool, true, false, ◌&&◌, Option, none, some, List, [], ◌∷◌, ◌++◌, ◌==◌,
  if◌then◌else◌, any, Result, ok, err, pure, throw, catch, ◌>>=◌, ◌>>◌,
}
use high_throughput_transact.Js.{Js}
use high_throughput_transact.Domain.ImportStatus.{ImportStatus}
use high_throughput_transact.Domain.Errors.{
  Thrown, domain, prisma_known, import_not_found, raise, wrap_database_error,
}
use high_throughput_transact.Database.Table.{update_where, find_where, find}
use high_throughput_transact.Database.World.{
  JobStatus, SavedFile, ImportRow, KeyRow, FileRow, JobRow, Tables, Db, Query, statement,
  transaction, wrapped, current_time, draw_uuid, record_not_found,
}

pub record CreateImportInput : Type 0 where
  pub id : ℕ
  pub created_at : ℕ
  pub idempotency_key : String
  pub file : SavedFile

pub record CreateImportResult : Type 0 where
  pub import_record : ImportRow
  pub is_new : Bool

-- Prisma's P2002, with the fields of the unique index in the driver's constraint.
abbrev pub unique_violation : List String → Thrown
unique_violation fields = prisma_known "P2002" none (some fields)

-- `extractViolatedFields`
pub extract_violated_fields : Option (List String) → Option (List String) → List String
extract_violated_fields (some target) driver_fields = target
extract_violated_fields none (some fields) = fields
extract_violated_fields none none = []

is_only : String → List String → Bool
is_only f (g ∷ []) = str_eq g f
is_only f _ = false

pub is_idempotency_key_conflict : Thrown → Bool
unfolding extract_violated_fields is_only
is_idempotency_key_conflict (prisma_known c target driver_fields) =
    str_eq c "P2002" && is_only "key" (extract_violated_fields target driver_fields)
is_idempotency_key_conflict _ = false

abbrev pub find_key : String → List KeyRow → Option KeyRow
find_key k = find_where λ r. str_eq r.key k

abbrev pub find_import : ℕ → List ImportRow → Option ImportRow
find_import = find λ (r : ImportRow). r.id

-- The columns that `create` leaves to their defaults.
abbrev pub new_import : CreateImportInput → ℕ → ImportRow
new_import input now = record {
  id = input.id;
  provider = none;
  status = ImportStatus.pending;
  total_records = 0;
  processed_count = 0;
  accepted_count = 0;
  rejected_count = 0;
  duplicate_count = 0;
  started_at = none;
  completed_at = none;
  failure_reason = none;
  created_at = input.created_at;
  updated_at = now;
}

abbrev pub new_job : ℕ → ℕ → ℕ → JobRow
new_job id import_id now = record {
  id = id;
  import_id = import_id;
  status = JobStatus.pending;
  attempt_count = 0;
  leased_by = none;
  leased_until = none;
  last_error = none;
  created_at = now;
  updated_at = now;
}

-- `if (err instanceof ImportNotFoundError) throw err; throw wrapDatabaseError(...)`
unfoldable pub keep_not_found : Thrown → Thrown
keep_not_found (domain (import_not_found id) cause) = domain (import_not_found id) cause
keep_not_found e = wrap_database_error e "ImportRepository.requestCancellation"

module _ {js : Js} where
  -- An `INSERT` under a unique index: refused where a row clashes.
  abbrev insert_unless :
      Bool → List String → Tables js → Tables js → Result Thrown (Unit {0}) × Tables js
  insert_unless true fields t t' = (err (unique_violation fields), t)
  insert_unless false fields t t' = (ok tt, t')

  unfoldable pub insert_import : ImportRow → Query js (Unit {0})
  insert_import r t =
      insert_unless (any (λ (x : ImportRow). x.id == r.id) t.imports) ("id" ∷ []) t
        (record t { imports = t.imports ++ r ∷ [] })

  unfoldable pub insert_key : KeyRow → Query js (Unit {0})
  insert_key r t =
      if any (λ (x : KeyRow). str_eq x.key r.key) t.keys
      then (err (unique_violation ("key" ∷ [])), t)
      else insert_unless (any (λ (x : KeyRow). x.import_id == r.import_id) t.keys) ("importId" ∷ [])
          t (record t { keys = t.keys ++ r ∷ [] })

  unfoldable pub insert_file : FileRow → Query js (Unit {0})
  insert_file r t = (ok tt, record t { files = t.files ++ r ∷ [] })

  unfoldable pub insert_job : JobRow → Query js (Unit {0})
  insert_job r t =
      if any (λ (x : JobRow). x.id == r.id) t.jobs
      then (err (unique_violation ("id" ∷ [])), t)
      else insert_unless (any (λ (x : JobRow). x.import_id == r.import_id) t.jobs) ("importId" ∷ [])
          t (record t { jobs = t.jobs ++ r ∷ [] })

  -- The body of the transaction.
  unfoldable pub create_rows : CreateImportInput → Db js ImportRow
  create_rows input = do
    now ← current_time
    statement (insert_import (new_import input now))
    statement (insert_key (record { key = input.idempotency_key; import_id = input.id }))
    statement (insert_file (record { import_id = input.id; file = input.file; created_at = now }))
    job_id ← draw_uuid
    statement (insert_job (new_job job_id input.id now))
    pure (new_import input now)

  owner_of : Option KeyRow → Tables js → Option ImportRow
  owner_of none t = none
  owner_of (some k) t = find_import k.import_id t.imports

  -- `findUniqueOrThrow({ where: { key }, include: { import: true } })`
  pub find_owner : String → Query js ImportRow
  unfolding owner_of
  find_owner k t = elim (owner_of (find_key k t.keys) t) [
    | some r ↦ (ok r, t)
    | none ↦ (err record_not_found, t)
  ]

  -- The `catch` block.
  pub return_existing : CreateImportInput → Thrown → Db js CreateImportResult
  unfolding is_idempotency_key_conflict
  return_existing input e =
      if is_idempotency_key_conflict e
      then (statement (find_owner input.idempotency_key) >>= λ r.
          pure (record { import_record = r; is_new = false }))
      else throw (wrap_database_error e "ImportRepository.createOrReturnExisting")

  unfoldable pub create_or_return_existing : CreateImportInput → Db js CreateImportResult
  unfolding return_existing create_rows
  create_or_return_existing input =
      catch
        (transaction (create_rows input) >>= λ r.
          pure (record { import_record = r; is_new = true }))
        (return_existing input)

  unfoldable pub find_by_id : ℕ → Db js (Option ImportRow)
  find_by_id id =
      wrapped "ImportRepository.findById" (statement λ t. (ok (find_import id t.imports), t))

  -- The two updates of `requestCancellation`.
  unfoldable pub set_cancelling : ℕ → Db js ImportStatus
  set_cancelling import_id = do
    now ← current_time
    statement (λ t. (
      ok tt,
      record t {
        imports =
            update_where (λ (r : ImportRow). r.id == import_id)
              (λ r. record r { status = ImportStatus.cancelling; updated_at = now }) t.imports;
      },
    ))
    statement (λ t. (
      ok tt,
      record t {
        jobs =
            update_where (λ (j : JobRow). j.import_id == import_id)
              (λ j. record j { status = JobStatus.cancelling; updated_at = now }) t.jobs;
      },
    ))
    pure ImportStatus.cancelling

  -- What the transaction of `requestCancellation` does at the status that it has read.
  unfoldable pub flag_import : ℕ → ImportStatus → Db js ImportStatus
  unfolding set_cancelling
  flag_import import_id ImportStatus.completed = pure ImportStatus.completed
  flag_import import_id ImportStatus.failed = pure ImportStatus.failed
  flag_import import_id ImportStatus.cancelled = pure ImportStatus.cancelled
  flag_import import_id ImportStatus.cancelling = pure ImportStatus.cancelling
  flag_import import_id _ = set_cancelling import_id

  unfoldable pub flag_found : ℕ → Option ImportRow → Db js ImportStatus
  unfolding flag_import
  flag_found import_id none = raise (import_not_found import_id)
  flag_found import_id (some r) = flag_import import_id r.status

  unfoldable pub request_cancellation : ℕ → Db js ImportStatus
  unfolding flag_found keep_not_found
  request_cancellation import_id =
      catch
        (transaction (
          statement (λ t. (ok (find_import import_id t.imports), t)) >>= λ r.
          flag_found import_id r))
        (λ e. throw (keep_not_found e))
