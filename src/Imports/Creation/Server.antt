-- ===== src/Imports/Creation/Server.antt =====
-- The ports of src/application/use-cases/create-import.use-case.ts as the API process fills them: the disk
-- storage and the import repository.
use high_throughput_transact.Base.{ℕ, String, ◌≤◌, ◌≡◌, ◌≢◌, ◌⊎◌, true, false, some, length}
use high_throughput_transact.Js.{Js}
use high_throughput_transact.Domain.Errors.{Attempt}
use high_throughput_transact.Database.World.{SavedFile, World}
use high_throughput_transact.Database.ImportRepository.{
  CreateImportInput, CreateImportResult, create_or_return_existing,
}
use high_throughput_transact.Database.ImportRepository.Creation.{Created}
use high_throughput_transact.Storage.Disk.{Disk, Files, Source, sanitize_extension, save, delete}
use high_throughput_transact.Storage.Disk.Saved.{concat, written_file}
use high_throughput_transact.Imports.Creation.{UploadPorts, CreateImportCommand, extract_extension}

-- The disk of the API process and the database.
pub record Server (js : Js) : Type 0 where
  pub disk : Disk
  pub world : World js

module _ {js : Js} where
  unfoldable pub on_disk : {A : Type 0} → Attempt Disk A → Attempt (Server js) A
  on_disk m s = let (r, disk) = m s.disk in (r, record s { disk = disk })

  unfoldable pub in_database : {A : Type 0} → Attempt (World js) A → Attempt (Server js) A
  in_database m s = let (r, world) = m s.world in (r, record s { world = world })

abbrev pub path_of : Files → ℕ → CreateImportCommand → String
path_of files uuid command =
    files.storage_path uuid (sanitize_extension (extract_extension command.original_filename))

-- The upload as it is saved.
abbrev pub saved_file : Files → Source → ℕ → CreateImportCommand → SavedFile
saved_file files source uuid command = record {
  storage_path = path_of files uuid command;
  size = length (concat source.chunks);
  checksum = files.sha256_hex (concat source.chunks);
}

-- An upload, with the UUIDs that are drawn for its file and its import.
module _ {js : Js} (files : Files) (source : Source) (uuid id max_upload_bytes : ℕ) where
  -- `DiskFileStorage` and `ImportRepository` as the ports of the use case.
  abbrev pub server_ports : UploadPorts (Server js)
  server_ports = record {
    save =
        λ extension max_bytes s. on_disk (save files s.world.now uuid source extension max_bytes) s;
    delete = λ path. on_disk (delete files path);
    create_import = λ input. in_database (create_or_return_existing input);
    generate_id = λ s. (id, s);
    now = λ s. s.world.now;
    info = λ text s. s;
  }

  -- The import that is asked for.
  abbrev pub input_of : CreateImportCommand → Server js → CreateImportInput
  input_of command s = record {
    id = id;
    created_at = s.world.now;
    idempotency_key = command.idempotency_key;
    file = saved_file files source uuid command;
  }

  -- The upload is on the disk, and nothing else has changed there.
  abbrev pub IsUploaded : CreateImportCommand → Server js → Disk → Type 0
  IsUploaded command s disk =
      (length (concat source.chunks) ≤ max_upload_bytes)
      × (disk (path_of files uuid command) ≡ some (written_file s.world.now (concat source.chunks)))
      × ((q : String) → q ≢ path_of files uuid command → disk q ≡ s.disk q)

  -- What a creation that returns has come to: a new import, with its rows and its bytes, or a disk
  -- as before.
  abbrev pub Outcome : CreateImportCommand → Server js → CreateImportResult → Server js → Type 0
  Outcome command s r t =
      ((r.is_new ≡ true)
        × Created (input_of command s) s.world.tables r.import_record t.world.tables
        × IsUploaded command s t.disk)
      ⊎ ((r.is_new ≡ false) × ((q : String) → t.disk q ≡ s.disk q))
