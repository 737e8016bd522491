-- ===== src/Http/ImportController.antt =====
-- src/http/import/import.controller.ts with the classes of src/http/import/dto that it answers with. What Fastify
-- makes of a request is its argument.
pub mod Guards
mod Examples
use high_throughput_transact.Base.{
  ℕ, String, str_eq, Bool, true, false, not, ◌||◌, Option, none, some, List, [], ◌∷◌, map,
  if◌then◌else◌, any, null, pure, ◌>>=◌, ◌>>◌,
}
use high_throughput_transact.Js.{Js}
use high_throughput_transact.Js.Strings.{Text, units, text_eq}
use high_throughput_transact.Domain.ImportStatus.{ImportStatus}
use high_throughput_transact.Domain.Errors.{
  Attempt, raise, missing_idempotency_key, invalid_request_body, no_file_uploaded,
}
use high_throughput_transact.Database.World.{ImportRow, Db}
use high_throughput_transact.Database.ImportQuery.{RejectedRecordPage}
use high_throughput_transact.Database.ImportSummary.{Aggregates, ImportSummary}
use high_throughput_transact.Imports.Creation.{UploadPorts, create_import, to_lower, has_text}
use high_throughput_transact.Imports.Cancellation.{cancel_import, get_import_status}
use high_throughput_transact.Imports.Reports.{get_import_summary, get_rejected}

-- A header that is absent, given once, or given several times.
pub data Header : Type 0 where
  absent : Header
  single : String → Header
  repeated : List String → Header

pub record FilePart : Type 0 where
  pub fieldname : Text
  pub filename : Text
  pub mimetype : Text

-- What `request.file()` comes to: it throws, an `Error` with a message or another value; there is
-- no part; or the first part.
pub data PartOutcome : Type 0 where
  malformed : Option String → PartOutcome
  no_part : PartOutcome
  part : FilePart → PartOutcome

pub record UploadRequest : Type 0 where
  pub idempotency_key : Header
  pub is_multipart : Bool
  pub content_encoding : Option Text
  pub file : PartOutcome

-- `CreateImportResponseDto` and `ImportStatusDto`; the times are written in ISO format by `Date`.
pub record CreateImportResponse : Type 0 where
  pub id : ℕ
  pub status : ImportStatus
  pub created_at : ℕ

unfoldable pub response_from : ImportRow → CreateImportResponse
response_from r = record { id = r.id; status = r.status; created_at = r.created_at }

pub record ImportStatusResponse : Type 0 where
  pub id : ℕ
  pub status : ImportStatus
  pub total_records : ℕ
  pub processed_count : ℕ
  pub accepted_count : ℕ
  pub rejected_count : ℕ
  pub duplicate_count : ℕ
  pub started_at : Option ℕ
  pub completed_at : Option ℕ
  pub failure_reason : Option String

unfoldable pub status_from : ImportRow → ImportStatusResponse
status_from r = record {
  id = r.id;
  status = r.status;
  total_records = r.total_records;
  processed_count = r.processed_count;
  accepted_count = r.accepted_count;
  rejected_count = r.rejected_count;
  duplicate_count = r.duplicate_count;
  started_at = r.started_at;
  completed_at = r.completed_at;
  failure_reason = r.failure_reason;
}

abbrev pub compressed_extensions : List Text
compressed_extensions =
    units ".gz"
    ∷ units ".zip"
    ∷ units ".bz2"
    ∷ units ".xz"
    ∷ units ".7z"
    ∷ units ".rar"
    ∷ units ".tar"
    ∷ units ".tgz"
    ∷ units ".zst"
    ∷ units ".lz4"
    ∷ units ".br"
    ∷ []

abbrev pub compressed_mimes : List Text
compressed_mimes =
    units "application/gzip"
    ∷ units "application/x-gzip"
    ∷ units "application/zip"
    ∷ units "application/x-zip-compressed"
    ∷ units "application/x-bzip2"
    ∷ units "application/x-xz"
    ∷ units "application/x-7z-compressed"
    ∷ units "application/x-tar"
    ∷ units "application/zstd"
    ∷ []

-- A text that ends with another.
unfoldable pub ends_with : Text → Text → Bool
ends_with suffix [] = text_eq suffix []
ends_with suffix (c ∷ s) = text_eq suffix (c ∷ s) || ends_with suffix s

unfoldable pub is_compressed : Text → Text → Bool
unfolding ends_with to_lower has_text
is_compressed filename mimetype =
    any (λ e. ends_with e (map to_lower filename)) compressed_extensions
    || has_text compressed_mimes mimetype

-- `contentEncoding && contentEncoding !== 'identity'`
unfoldable pub is_plain : Option Text → Bool
is_plain none = true
is_plain (some e) = null e || text_eq e (units "identity")

module _ {S : Type 0} where
  unfoldable pub require_key : Header → Attempt S String
  require_key absent = raise missing_idempotency_key
  require_key (single key) = if str_eq key "" then raise missing_idempotency_key else pure key
  require_key (repeated keys) = raise missing_idempotency_key

  unfoldable pub require : Bool → String → Attempt S (Unit {0})
  require true reason = pure tt
  require false reason = raise (invalid_request_body reason)

  -- `readFilePart`, and the test of its result.
  unfoldable pub read_file_part : PartOutcome → Attempt S FilePart
  read_file_part (malformed none) = raise (invalid_request_body "Malformed multipart request.")
  read_file_part (malformed (some reason)) = raise (invalid_request_body reason)
  read_file_part no_part = raise no_file_uploaded
  read_file_part (part p) = pure p

  unfoldable pub create : UploadPorts S → ℕ → UploadRequest → Attempt S CreateImportResponse
  unfolding require_key require read_file_part is_plain is_compressed response_from
  create ports max_upload_bytes request = do
    key ← require_key request.idempotency_key
    require request.is_multipart "Request must be multipart/form-data containing a file field."
    require (is_plain request.content_encoding)
        "Compressed uploads are not supported. Send the file uncompressed."
    p ← read_file_part request.file
    require (text_eq p.fieldname (units "file")) "Expected a file field named \"file\"."
    require (not (is_compressed p.filename p.mimetype))
        "Compressed or archive uploads are not supported. Send plain NDJSON."
    result ← create_import ports max_upload_bytes (record {
      idempotency_key = key;
      has_stream = true;
      original_filename = p.filename;
      mime_type = p.mimetype;
    })
    pure (response_from result.import_record)

module _ {js : Js} where
  unfoldable pub get_status : ℕ → Db js ImportStatusResponse
  unfolding status_from
  get_status id = get_import_status id >>= λ r. pure (status_from r)

  unfoldable pub cancel : ℕ → Db js (ℕ × ImportStatus)
  cancel id = cancel_import id >>= λ status. pure (id, status)

  unfoldable pub get_summary : Aggregates js → ℕ → Db js (ImportSummary js)
  get_summary db id = get_import_summary db id

  unfoldable pub get_rejections :
      (js.Number → ℕ) → ℕ → Option ℕ → Option Text → Db js RejectedRecordPage
  get_rejections floor id cursor limit =
      get_rejected floor id cursor
        (elim limit [ none ↦ none | some s ↦ some (js.number_of_text s) ])
