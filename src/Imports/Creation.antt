-- ===== src/Imports/Creation.antt =====
-- src/application/use-cases/create-import.use-case.ts, over its ports: the storage of files, the import
-- repository, the clock and the source of ids.
pub mod Server
pub mod Files
mod Examples
use high_throughput_transact.Base.{
  ℕ, ◌+◌, String, Bool, true, false, not, ◌&&◌, Option, none, some, List, [], ◌∷◌, ◌++◌, map, leb,
  ◌==◌, if◌then◌else◌, any, null, pure, modify, ◌>>=◌, ◌>>◌,
}
use high_throughput_transact.Js.Strings.{Text, units, text_eq}
use high_throughput_transact.Domain.Errors.{Attempt, raise, no_file_uploaded, invalid_file_type}
use high_throughput_transact.Database.World.{SavedFile}
use high_throughput_transact.Database.ImportRepository.{CreateImportInput, CreateImportResult}

pub record UploadPorts (S : Type 0) : Type 0 where
  pub save : Text → ℕ → Attempt S SavedFile
  pub delete : String → Attempt S (Unit {0})
  pub create_import : CreateImportInput → Attempt S CreateImportResult
  pub generate_id : S → ℕ × S
  pub now : S → ℕ
  pub info : String → S → S

-- A null file name reads as the empty one.
pub record CreateImportCommand : Type 0 where
  pub idempotency_key : String
  pub has_stream : Bool
  pub original_filename : Text
  pub mime_type : Text

abbrev pub allowed_extensions : List Text
allowed_extensions = units ".ndjson" ∷ units ".jsonl" ∷ units ".json" ∷ []

abbrev pub allowed_mime_types : List Text
allowed_mime_types =
    units "application/x-ndjson"
    ∷ units "application/json"
    ∷ units "text/plain"
    ∷ units "application/octet-stream"
    ∷ []

-- `/\.[^.]+$/`: the last dot and what follows it, if that is not empty.
unfoldable pub last_dot : Text → Option Text
last_dot [] = none
last_dot (c ∷ s) = elim (last_dot s) [
  | some t ↦ some t
  | none ↦ if c == 46 && not (null s) && not (any (λ d. d == 46) s) then some (c ∷ s) else none
]

-- `toLowerCase` on ASCII; no other character has a lower case among the allowed extensions' letters.
unfoldable pub to_lower : ℕ → ℕ
to_lower c = if leb 65 c && leb c 90 then c + 32 else c

unfoldable pub extract_extension : Text → Text
unfolding last_dot to_lower
extract_extension filename = elim (last_dot filename) [ some t ↦ map to_lower t | none ↦ [] ]

unfoldable pub has_text : List Text → Text → Bool
has_text set s = any (text_eq s) set

unfoldable pub is_allowed : Text → Text → Bool
unfolding has_text
is_allowed extension mime_type =
    has_text allowed_extensions extension && has_text allowed_mime_types mime_type

received : Text → Text → Text
received extension mime_type =
    mime_type
    ++ units " ("
    ++ (if null extension then units "no extension" else extension)
    ++ units ")"

module _ {S : Type 0} (ports : UploadPorts S) (max_upload_bytes : ℕ) where
  assert_allowed_file_type : Text → Text → Attempt S (Unit {0})
  unfolding is_allowed received
  assert_allowed_file_type extension mime_type =
      if is_allowed extension mime_type
      then pure tt
      else raise (invalid_file_type (received extension mime_type))

  register : CreateImportCommand → SavedFile → Attempt S CreateImportResult
  register command saved s =
      let (id, s') = ports.generate_id s in
      ports.create_import
        (record {
          id = id;
          created_at = ports.now s';
          idempotency_key = command.idempotency_key;
          file = saved;
        })
        s'

  -- A repeated request gives its upload back.
  keep_upload : Bool → SavedFile → CreateImportResult → Attempt S CreateImportResult
  keep_upload true saved result = pure result
  keep_upload false saved result = do
    modify (ports.info "Idempotent replay detected, discarding duplicate upload")
    ports.delete saved.storage_path
    pure result

  discard : SavedFile → CreateImportResult → Attempt S CreateImportResult
  unfolding keep_upload
  discard saved result = keep_upload result.is_new saved result

  store : CreateImportCommand → Text → Attempt S CreateImportResult
  unfolding register discard
  store command extension = do
    saved ← ports.save extension max_upload_bytes
    modify (ports.info "File streamed to storage")
    result ← register command saved
    discard saved result

  unfoldable pub create_import : CreateImportCommand → Attempt S CreateImportResult
  unfolding assert_allowed_file_type store
  create_import command =
      if not command.has_stream
      then raise no_file_uploaded
      else (let extension = extract_extension command.original_filename in
          assert_allowed_file_type extension command.mime_type >> store command extension)
