-- ===== src/Domain/Errors.antt =====
-- src/domain/domain-errors.ts. A thrown value is what the code inspects of it: which class of
-- domain error it is, its code, its cause and its message.
pub mod Responses
use high_throughput_transact.Base.{ℕ, String, Bool, true, false, not, Option, List, err, Effect}
use high_throughput_transact.Js.Strings.{Text}
use high_throughput_transact.Domain.ImportStatus.{ImportStatus}

pub data ErrorCategory : Type 0 where
  request_validation record_validation business_rule infrastructure cancellation : ErrorCategory

-- The subclasses of `DomainError`, with the arguments of their constructors.
pub data DomainError : Type 0 where
  missing_idempotency_key : DomainError
  invalid_file_type : (received : Text) → DomainError
  invalid_request_body : (reason : String) → DomainError
  no_file_uploaded : DomainError
  shutdown_interrupted : (component : String) → DomainError
  too_many_concurrent_uploads : (limit : ℕ) → DomainError
  file_too_large : (limit_bytes : ℕ) → DomainError
  import_not_found : (id : ℕ) → DomainError
  import_already_finished : (id : ℕ) → (current_status : ImportStatus) → DomainError
  import_cancelled : (id : ℕ) → DomainError
  infrastructure_error :
      (code safe_message : String) → (retryable : Bool) → (operation : String) → DomainError

pub code : DomainError → String
code missing_idempotency_key = "MISSING_IDEMPOTENCY_KEY"
code (invalid_file_type received) = "INVALID_FILE_TYPE"
code (invalid_request_body reason) = "INVALID_REQUEST_BODY"
code no_file_uploaded = "NO_FILE_UPLOADED"
code (shutdown_interrupted component) = "SHUTDOWN_INTERRUPTED"
code (too_many_concurrent_uploads limit) = "TOO_MANY_CONCURRENT_UPLOADS"
code (file_too_large limit) = "IMPORT_FILE_TOO_LARGE"
code (import_not_found id) = "IMPORT_NOT_FOUND"
code (import_already_finished id status) = "IMPORT_ALREADY_FINISHED"
code (import_cancelled id) = "IMPORT_CANCELLED"
code (infrastructure_error c message r op) = c

unfoldable pub http_status : DomainError → ℕ
http_status missing_idempotency_key = 400
http_status (invalid_file_type received) = 400
http_status (invalid_request_body reason) = 400
http_status no_file_uploaded = 400
http_status (shutdown_interrupted component) = 503
http_status (too_many_concurrent_uploads limit) = 503
http_status (file_too_large limit) = 413
http_status (import_not_found id) = 404
http_status (import_already_finished id status) = 409
http_status (import_cancelled id) = 409
http_status (infrastructure_error c message r op) = 503

unfoldable pub category : DomainError → ErrorCategory
category missing_idempotency_key = request_validation
category (invalid_file_type received) = request_validation
category (invalid_request_body reason) = request_validation
category no_file_uploaded = request_validation
category (shutdown_interrupted component) = cancellation
category (too_many_concurrent_uploads limit) = business_rule
category (file_too_large limit) = request_validation
category (import_not_found id) = business_rule
category (import_already_finished id status) = business_rule
category (import_cancelled id) = cancellation
category (infrastructure_error c message r op) = infrastructure

unfoldable pub is_retryable_kind : DomainError → Bool
is_retryable_kind (infrastructure_error c message r op) = r
is_retryable_kind _ = false

pub message : DomainError → String
message missing_idempotency_key = "Idempotency-Key header is required."
message (invalid_file_type received) = "Unsupported file type. Allowed: .ndjson, .jsonl, .json"
message (invalid_request_body reason) = reason
message no_file_uploaded = "No file part found in multipart request."
message (shutdown_interrupted component) =
    "Operation interrupted because the process is shutting down."
message (too_many_concurrent_uploads limit) = "Too many uploads in progress. Please retry shortly."
message (file_too_large limit) = "The uploaded file exceeds the allowed size"
message (import_not_found id) = "The requested import does not exist."
message (import_already_finished id status) =
    "This import has already finished and cannot be modified."
message (import_cancelled id) = "This import was cancelled."
message (infrastructure_error c safe_message r op) = safe_message

-- A value that `throw` may carry. Of an object that is no domain error the code reads `code` and
-- `originalCode` (where they are strings), `cause`, the message if it is an `Error`, and the
-- violated fields of a Prisma error, which stand in `meta.target` or in the driver's constraint.
-- `plain` is a value that is no object, `undefined` and `null` among them.
pub data Thrown : Type 0 where
  plain : Thrown
  domain : DomainError → (cause : Thrown) → Thrown
  object :
      (code original_code : Option String)
      → (error_message : Option String) → (cause : Thrown) → Thrown
  prisma_known : (code : String) → (target driver_fields : Option (List String)) → Thrown

abbrev pub Attempt : Type 0 → Type 0 → Type 0
Attempt S A = Effect S Thrown A

unfoldable pub wrap_database_error : Thrown → String → Thrown
wrap_database_error cause operation =
    domain
      (infrastructure_error "DATABASE_UNAVAILABLE" "A database operation failed." true operation)
      cause

-- `throw new SomeError(...)`: a domain error with no cause.
abbrev pub raise : {S A : Type 0} → DomainError → Attempt S A
raise e s = (err (domain e plain), s)
