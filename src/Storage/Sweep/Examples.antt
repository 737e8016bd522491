-- ===== src/Storage/Sweep/Examples.antt =====
-- A sweep over two old files, one of which a file row names.
use high_throughput_transact.Base.{
  ◌≡◌, ◌⊎◌, String, str_eq, some, none, true, List, [], ◌∷◌, err, if◌then◌else◌,
}
use high_throughput_transact.Js.Sample.{sample_js}
use high_throughput_transact.Domain.Errors.{Thrown}
use high_throughput_transact.Database.Sample.{busy}
use high_throughput_transact.Database.World.{World}
use high_throughput_transact.Database.HealthCheck.{referenced, list_referenced_storage_paths}
use high_throughput_transact.Storage.Disk.{DiskFile, Disk}
use high_throughput_transact.Storage.Sweep.{sweep}
use high_throughput_transact.Storage.Sweep.Removed.{Swept, sweep-Swept}

abbrev old_file : DiskFile
old_file = record { content = 1 ∷ []; modified_at = 10; is_file = true }

abbrev two_files : Disk
two_files path =
    if str_eq path "a" then some old_file else if str_eq path "b" then some old_file else none

abbrev with_file : World sample_js
with_file = record busy {
  tables = record (busy.tables) {
    files =
        record {
          import_id = 1;
          file = record { storage_path = "a"; size = 1; checksum = [] };
          created_at = 10;
        }
        ∷ [];
  };
}

abbrev listing : List String
listing = "a" ∷ "b" ∷ []

sweep-Swept_example :
    let after = sweep 1000 100 (some listing) (str_eq "c") with_file two_files in
    (after.0.tables ≡ with_file.tables)
    × (Swept 1000 100 (referenced with_file.tables.files) (str_eq "c") listing two_files after.1
        ⊎ (((e : Thrown) × ((list_referenced_storage_paths with_file).0 ≡ err e))
            × (after.1 ≡ two_files)))
sweep-Swept_example = sweep-Swept 1000 100 listing (str_eq "c") with_file two_files
