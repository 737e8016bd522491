-- ===== src/Database/ImportFileRepository.antt =====
-- src/infrastructure/repository/import-file.repository.ts.
use high_throughput_transact.Base.{
  ℕ, Option, none, some, List, [], ◌∷◌, ok, ltb, ◌==◌, if◌then◌else◌, keep,
}
use high_throughput_transact.Js.{Js}
use high_throughput_transact.Js.Strings.{Text}
use high_throughput_transact.Database.World.{
  ImportRow, FileRow, Tables, Db, Query, statement, wrapped,
}
use high_throughput_transact.Database.ImportRepository.{find_import}
use high_throughput_transact.Processing.Ports.{FileLocation}

-- `orderBy: { createdAt: 'asc' }`, and of the first ones the first in the table.
unfoldable pub first_file : List FileRow → Option FileRow
first_file [] = none
first_file (f ∷ fs) = elim (first_file fs) [
  | none ↦ some f
  | some g ↦ some (if ltb g.created_at f.created_at then g else f)
]

-- `file.import.provider`; the foreign key makes the import present.
unfoldable pub provider_of_import : Option ImportRow → Option Text
provider_of_import none = none
provider_of_import (some r) = r.provider

module _ {js : Js} where
  unfoldable pub located : Tables js → Option FileRow → Option FileLocation
  unfolding provider_of_import
  located t none = none
  located t (some f) = some (record {
    storage_path = f.file.storage_path;
    provider = provider_of_import (find_import f.import_id t.imports);
  })

  unfoldable pub location_query : ℕ → Query js (Option FileLocation)
  unfolding first_file located
  location_query import_id t =
      (ok (located t (first_file (keep (λ (f : FileRow). f.import_id == import_id) t.files))), t)

  unfoldable pub find_by_import_id : ℕ → Db js (Option FileLocation)
  unfolding location_query
  find_by_import_id import_id =
      wrapped "ImportFileRepository.findByImportId" (statement (location_query import_id))
