-- ===== src/Storage/Sweep.antt =====
-- `cleanupOrphans` of src/infrastructure/storage/disk-file-storage.ts, and `sweep` of
-- src/worker/orphan-file-sweeper.service.ts. The listing of the storage root is read before the files, so an
-- entry may have vanished.
pub mod Removed
mod Examples
use high_throughput_transact.Base.{
  ℕ, ◌+◌, String, str_eq, Bool, false, not, ◌&&◌, Option, none, some, List, [], ◌∷◌, ltb,
  if◌then◌else◌, any, ok, err, Result,
}
use high_throughput_transact.Js.{Js}
use high_throughput_transact.Domain.Errors.{Thrown}
use high_throughput_transact.Database.World.{World}
use high_throughput_transact.Database.HealthCheck.{list_referenced_storage_paths}
use high_throughput_transact.Storage.Disk.{DiskFile, Disk, put}

abbrev pub has : List String → String → Bool
has paths q = any (λ p. str_eq p q) paths

-- The tests before the `rm` of an entry; `stat` throws where the file has vanished. The cutoff is
-- `now - age`, which may be negative.
unfoldable pub is_orphan : ℕ → ℕ → List String → String → Option DiskFile → Bool
is_orphan now age kept path none = false
is_orphan now age kept path (some f) =
    f.is_file && not (ltb now (f.modified_at + age)) && not (has kept path)

-- One turn of the loop. `throws` are the entries whose `stat` or `rm` throws, which is caught.
sweep_entry : ℕ → ℕ → List String → (String → Bool) → String → Disk × ℕ → Disk × ℕ
unfolding is_orphan
sweep_entry now age kept throws path (disk, removed) =
    if is_orphan now age kept path (disk path)
    then (if throws path then (disk, removed) else (put path none disk, removed + 1))
    else (disk, removed)

-- The loop over the entries: the disk, and `removed`.
sweep_entries : ℕ → ℕ → List String → (String → Bool) → List String → Disk × ℕ → Disk × ℕ
unfolding sweep_entry
sweep_entries now age kept throws [] s = s
sweep_entries now age kept throws (path ∷ paths) s =
    sweep_entries now age kept throws paths (sweep_entry now age kept throws path s)

-- `none` is a storage root that cannot be read.
unfoldable pub cleanup_orphans :
    ℕ → ℕ → Option (List String) → (String → Bool) → List String → Disk → Disk × ℕ
unfolding sweep_entries
cleanup_orphans now age none throws kept disk = (disk, 0)
cleanup_orphans now age (some paths) throws kept disk =
    sweep_entries now age kept throws paths (disk, 0)

module _ {js : Js} where
  sweep_found :
      ℕ
      → ℕ
      → Option (List String)
      → (String → Bool)
      → Disk
      → Result Thrown (List String) × World js
      → World js × Disk
  unfolding cleanup_orphans
  sweep_found now age listing throws disk (ok kept, w) =
      (w, (cleanup_orphans now age listing throws kept disk).0)
  sweep_found now age listing throws disk (err e, w) = (w, disk)

  -- `sweep`: what it catches it only logs.
  unfoldable pub sweep :
      ℕ → ℕ → Option (List String) → (String → Bool) → World js → Disk → World js × Disk
  unfolding sweep_found
  sweep now age listing throws w disk =
      sweep_found now age listing throws disk (list_referenced_storage_paths w)
