-- ===== src/Imports/Creation/Examples.antt =====
-- An upload of a new file under a new key.
use high_throughput_transact.Base.{◌≡◌, refl, true, false, none, [], ◌∷◌, ok, ◌>>=◌}
use high_throughput_transact.Js.Sample.{sample_js}
use high_throughput_transact.Js.Strings.{units}
use high_throughput_transact.Database.World.{
  deliver, statement, transaction, conclude, commit, SavedFile,
}
use high_throughput_transact.Database.Sample.{busy}
use high_throughput_transact.Database.ImportRepository.{
  CreateImportResult, new_import, create_or_return_existing, create_rows, insert_import, insert_key,
  insert_file, insert_job,
}
use high_throughput_transact.Storage.Disk.{
  Files, Source, sanitize_extension, append_chunk, pump, finish, save_at, save, rm,
  assert_within_storage_root,
}
use high_throughput_transact.Imports.Creation.{
  CreateImportCommand, last_dot, to_lower, extract_extension, has_text, is_allowed,
  assert_allowed_file_type, register, keep_upload, discard, store, create_import,
}
use high_throughput_transact.Imports.Creation.Server.{
  Server, on_disk, in_database, server_ports, Outcome,
}
use high_throughput_transact.Imports.Creation.Files.{create_import-files}

abbrev files : Files
files = record {
  storage_path = λ uuid extension. "root/file";
  escapes = λ path. false;
  resolve = λ path. path;
  sha256_hex = λ bytes. bytes;
}

abbrev two_chunks : Source
two_chunks = record {
  chunks = (1 ∷ 2 ∷ []) ∷ (3 ∷ []) ∷ [];
  interruption = none;
  truncated = false;
}

abbrev command : CreateImportCommand
command = record {
  idempotency_key = "new";
  has_stream = true;
  original_filename = units "a.JSON";
  mime_type = units "text/plain";
}

abbrev upload : SavedFile
upload = record { storage_path = "root/file"; size = 3; checksum = 1 ∷ 2 ∷ 3 ∷ [] }

abbrev server : Server sample_js
server = record { disk = λ path. none; world = busy }

abbrev answer : CreateImportResult
answer = record {
  import_record =
      new_import (record { id = 7; created_at = 100; idempotency_key = "new"; file = upload }) 100;
  is_new = true;
}

answered : (create_import (server_ports files two_chunks 5 7 10) 10 command server).0 ≡ ok answer
unfolding create_import assert_allowed_file_type is_allowed has_text extract_extension last_dot
    to_lower store register keep_upload discard on_disk in_database save save_at pump finish
    append_chunk sanitize_extension assert_within_storage_root rm create_or_return_existing
    create_rows insert_import insert_key insert_file insert_job deliver statement transaction
    conclude commit ◌>>=◌
answered = refl

create_import-files_example :
    (command.has_stream ≡ true)
    × (is_allowed (extract_extension command.original_filename) command.mime_type ≡ true)
    × Outcome files two_chunks 5 7 10 command server answer
        (create_import (server_ports files two_chunks 5 7 10) 10 command server).1
create_import-files_example =
    create_import-files files two_chunks 5 7 10 command server answer refl answered
