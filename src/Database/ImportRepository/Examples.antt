-- ===== src/Database/ImportRepository/Examples.antt =====
-- A new import, and a repeated request.
use high_throughput_transact.Base.{String, ◌≡◌, refl, ◌⊎◌, true, false, some, [], ◌∷◌, ok, ◌>>=◌}
use high_throughput_transact.Js.Sample.{sample_js}
use high_throughput_transact.Database.World.{ImportRow, KeyRow, World, answered, lost}
use high_throughput_transact.Domain.Errors.{plain}
use high_throughput_transact.Database.ImportRepository.{
  CreateImportInput, CreateImportResult, create_or_return_existing, find_owner, owner_of,
  is_idempotency_key_conflict, extract_violated_fields, is_only, find_key, find_import,
}
use high_throughput_transact.Database.ImportRepository.Creation.{Created}
use high_throughput_transact.Database.ImportRepository.Idempotency.{
  create_or_return_existing-atomic, create_or_return_existing-owned,
  create_or_return_existing-replay, create_or_return_existing-quiet,
}
use high_throughput_transact.Database.Sample.{an_import, a_key, busy}
use high_throughput_transact.Database.Table.{find_where}
use high_throughput_transact.Database.World.{deliver, statement, transaction, conclude, commit}
use high_throughput_transact.Database.ImportRepository.{
  new_import, create_rows, insert_import, insert_key, insert_file, insert_job, return_existing,
}

abbrev request : String → CreateImportInput
request key = record {
  id = 7;
  created_at = 90;
  idempotency_key = key;
  file = record { storage_path = "uploads/7"; size = 12; checksum = [] };
}

abbrev created : CreateImportResult
created = record { import_record = new_import (request "new") 100; is_new = true }

busy-create : (create_or_return_existing (request "new") busy).0 ≡ ok created
unfolding create_or_return_existing create_rows insert_import insert_key insert_file insert_job
    return_existing deliver statement transaction conclude commit ◌>>=◌
busy-create = refl

create_or_return_existing-owned_example :
    let after = (create_or_return_existing (request "new") busy).1.tables in
    (k : KeyRow) × (find_key "new" after.keys ≡ some k)
    × (find_import k.import_id after.imports ≡ some created.import_record)
create_or_return_existing-owned_example =
    create_or_return_existing-owned (request "new") busy created busy-create

abbrev shaky : World sample_js
shaky = record busy { replies = answered ∷ lost plain ∷ [] }

create_or_return_existing-atomic_example :
    let after = (create_or_return_existing (request "new") shaky).1.tables in
    (after ≡ shaky.tables) ⊎ ((r : ImportRow) × Created (request "new") shaky.tables r after)
create_or_return_existing-atomic_example = create_or_return_existing-atomic (request "new") shaky

owned_key : find_key "k" busy.tables.keys ≡ some a_key
unfolding find_where
owned_key = refl

create_or_return_existing-quiet_example :
    (create_or_return_existing (request "k") busy).1.tables ≡ busy.tables
create_or_return_existing-quiet_example =
    create_or_return_existing-quiet (request "k") busy a_key owned_key

abbrev existing : CreateImportResult
existing = record { import_record = an_import; is_new = false }

busy-repeat : (create_or_return_existing (request "k") busy).0 ≡ ok existing
unfolding create_or_return_existing create_rows insert_import insert_key insert_file insert_job
    return_existing find_owner owner_of is_idempotency_key_conflict extract_violated_fields is_only
    find_where deliver statement transaction conclude commit ◌>>=◌
busy-repeat = refl

create_or_return_existing-replay_example :
    (existing.is_new ≡ false) × (find_import 1 busy.tables.imports ≡ some existing.import_record)
create_or_return_existing-replay_example =
    create_or_return_existing-replay (request "k") busy a_key existing owned_key busy-repeat
