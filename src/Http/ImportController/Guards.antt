-- ===== src/Http/ImportController/Guards.antt =====
-- Which uploads reach the use case.
use high_throughput_transact.Base.{
  ℕ, ◌≡◌, refl, ◌⊎◌, inl, inr, String, str_eq, Bool, true, false, not, none, some, Bool-cases,
  Result, err, pure, ◌>>=◌, ◌>>◌,
}
use high_throughput_transact.Js.Strings.{units, text_eq}
use high_throughput_transact.Domain.Errors.{
  Attempt, Thrown, DomainError, domain, plain, http_status, missing_idempotency_key,
  invalid_request_body, no_file_uploaded,
}
use high_throughput_transact.Imports.Creation.{UploadPorts, CreateImportCommand, create_import}
use high_throughput_transact.Http.ImportController.{
  Header, absent, single, repeated, FilePart, PartOutcome, malformed, no_part, part, UploadRequest,
  CreateImportResponse, response_from, is_plain, is_compressed, require_key, require,
  read_file_part, create,
}

-- A request with one key that is not empty, and with one file that is not compressed.
pub record IsUpload (request : UploadRequest) (key : String) (p : FilePart) : Type 0 where
  pub has_key : request.idempotency_key ≡ single key
  pub key_filled : str_eq key "" ≡ false
  pub multipart : request.is_multipart ≡ true
  pub plain_transfer : is_plain request.content_encoding ≡ true
  pub has_part : request.file ≡ part p
  pub file_field : text_eq p.fieldname (units "file") ≡ true
  pub uncompressed : is_compressed p.filename p.mimetype ≡ false

abbrev pub command_of : String → FilePart → CreateImportCommand
command_of key p = record {
  idempotency_key = key;
  has_stream = true;
  original_filename = p.filename;
  mime_type = p.mimetype;
}

module _ {S A : Type 0} where
  -- Nothing has changed, and the client is told why with status 400.
  abbrev pub Refused : S → Result Thrown A × S → Type 0
  Refused s r = (d : DomainError) × (r ≡ (err (domain d plain), s)) × (http_status d ≡ 400)

  require-cases :
      (Out : Result Thrown A × S → Type 0) (b : Bool) (reason : String) (k : Attempt S A) (s : S)
      → ((r : Result Thrown A × S) → Refused s r → Out r)
      → (b ≡ true → Out (k s))
      → Out ((require b reason >> k) s)
  unfolding require ◌>>=◌ http_status
  require-cases Out true reason k s bad good = good refl
  require-cases Out false reason k s bad good = bad _ (invalid_request_body reason, refl, refl)

  require_key-cases :
      (Out : Result Thrown A × S → Type 0) (h : Header) (f : String → Attempt S A) (s : S)
      → ((r : Result Thrown A × S) → Refused s r → Out r)
      → ((key : String) → h ≡ single key → str_eq key "" ≡ false → Out (f key s))
      → Out ((require_key h >>= f) s)
  unfolding require_key ◌>>=◌ http_status
  require_key-cases Out absent f s bad good = bad _ (missing_idempotency_key, refl, refl)
  require_key-cases Out (repeated ks) f s bad good = bad _ (missing_idempotency_key, refl, refl)
  require_key-cases Out (single key) f s bad good = elim (Bool-cases (str_eq key "")) [
    | inl e ↦ rw e (bad _ (missing_idempotency_key, refl, refl))
    | inr e ↦ rw e (good key refl e)
  ]

  read_file_part-cases :
      (Out : Result Thrown A × S → Type 0) (o : PartOutcome) (f : FilePart → Attempt S A) (s : S)
      → ((r : Result Thrown A × S) → Refused s r → Out r)
      → ((p : FilePart) → o ≡ part p → Out (f p s))
      → Out ((read_file_part o >>= f) s)
  unfolding read_file_part ◌>>=◌ http_status
  read_file_part-cases Out (malformed none) f s bad good =
      bad _ (invalid_request_body "Malformed multipart request.", refl, refl)
  read_file_part-cases Out (malformed (some reason)) f s bad good =
      bad _ (invalid_request_body reason, refl, refl)
  read_file_part-cases Out no_part f s bad good = bad _ (no_file_uploaded, refl, refl)
  read_file_part-cases Out (part p) f s bad good = good p refl

module _ {S : Type 0} (ports : UploadPorts S) (max_upload_bytes : ℕ) where
  abbrev pub answer : String → FilePart → Attempt S CreateImportResponse
  answer key p = create_import ports max_upload_bytes (command_of key p) >>= λ result.
      pure (response_from result.import_record)

  -- A request either is an upload, and is answered as the use case answers it, or it is refused with
  -- status 400 and nothing has changed.
  pub create_guards :
      (request : UploadRequest) (s : S)
      → ((key : String) × (p : FilePart) × IsUpload request key p
          × (create ports max_upload_bytes request s ≡ answer key p s))
        ⊎ Refused s (create ports max_upload_bytes request s)
  unfolding create
  create_guards request s = require_key-cases Out request.idempotency_key _ s bad λ key k f.
      require-cases Out request.is_multipart _ _ s bad λ m.
        require-cases Out (is_plain request.content_encoding) _ _ s bad λ t.
          read_file_part-cases Out request.file _ s bad λ p h.
            require-cases Out (text_eq p.fieldname (units "file")) _ _ s bad λ e.
              require-cases Out (not (is_compressed p.filename p.mimetype)) _ _ s bad λ c. inl (
                key,
                p,
                record {
                  has_key = k;
                  key_filled = f;
                  multipart = m;
                  plain_transfer = t;
                  has_part = h;
                  file_field = e;
                  uncompressed = not-true (is_compressed p.filename p.mimetype) c;
                },
                refl,
              )
    where
      Out : Result Thrown CreateImportResponse × S → Type 0
      Out r =
          ((key : String) × (p : FilePart) × IsUpload request key p × (r ≡ answer key p s))
          ⊎ Refused s r

      bad : (r : Result Thrown CreateImportResponse × S) → Refused s r → Out r
      bad r h = inr h

      not-true : (b : Bool) → not b ≡ true → b ≡ false
      not-true false h = refl
      not-true true h = cc
