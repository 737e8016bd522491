-- ===== src/Storage/Disk/Examples.antt =====
-- An upload of two chunks to an empty disk, and one that exceeds its bound.
use high_throughput_transact.Base.{refl, false, none, [], ◌∷◌}
use high_throughput_transact.Js.Strings.{units}
use high_throughput_transact.Storage.Disk.{Disk, Files, Source, save}
use high_throughput_transact.Storage.Disk.Saved.{SaveOutcome, save-reads_back}

abbrev files : Files
files = record {
  storage_path = λ uuid extension. "root/file";
  escapes = λ path. false;
  resolve = λ path. path;
  sha256_hex = λ bytes. bytes;
}

abbrev two_chunks : Source
two_chunks = record {
  chunks = (1 ∷ 2 ∷ []) ∷ (3 ∷ []) ∷ [];
  interruption = none;
  truncated = false;
}

abbrev empty_disk : Disk
empty_disk path = none

save-reads_back_example :
    SaveOutcome files 50 10 two_chunks "root/file" empty_disk
      (save files 50 7 two_chunks (units ".JSON") 10 empty_disk)
save-reads_back_example = save-reads_back files 50 7 two_chunks (units ".JSON") 10 empty_disk refl
