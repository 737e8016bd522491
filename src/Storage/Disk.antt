-- ===== src/Storage/Disk.antt =====
-- src/infrastructure/storage/disk-file-storage.ts: `save` and `delete`. The disk is a function from paths to
-- files; `node:path`, `randomUUID` and the digest are parameters.
pub mod Saved
mod Examples
use high_throughput_transact.Base.{
  ℕ, ◌+◌, String, str_eq, Bool, true, false, ◌&&◌, ◌||◌, Option, none, some, List, [], ◌∷◌, ◌++◌,
  map, ltb, leb, ◌==◌, if◌then◌else◌, length, all, pure, throw, catch, modify, ◌>>=◌, ◌>>◌,
}
use high_throughput_transact.Js.Strings.{Text, units}
use high_throughput_transact.Domain.Errors.{Attempt, Thrown, raise, file_too_large, object, plain}
use high_throughput_transact.Database.World.{SavedFile}

pub record DiskFile : Type 0 where
  pub content : List ℕ
  pub modified_at : ℕ
  pub is_file : Bool

abbrev pub Disk : Type 0
Disk = String → Option DiskFile

abbrev pub put : String → Option DiskFile → Disk → Disk
put path file disk q = if str_eq path q then file else disk q

-- What the code takes from `node:path` and `node:crypto`. `storage_path` joins the storage root, a
-- UUID and an extension; `escapes` is the test of `assertWithinStorageRoot`, made of `relative` and
-- `isAbsolute`.
pub record Files : Type 0 where
  pub storage_path : ℕ → Text → String
  pub escapes : String → Bool
  pub resolve : String → String
  pub sha256_hex : List ℕ → Text

-- The stream of an upload: its chunks, what it or the disk throws after them, if anything does, and
-- the flag that the multipart parser sets when it cuts a file off.
pub record Source : Type 0 where
  pub chunks : List (List ℕ)
  pub interruption : Option Thrown
  pub truncated : Bool

abbrev is_alphanumeric : ℕ → Bool
is_alphanumeric c = (leb 48 c && leb c 57) || (leb 65 c && leb c 90) || (leb 97 c && leb c 122)

abbrev lower : ℕ → ℕ
lower c = if leb 65 c && leb c 90 then c + 32 else c

-- `/^\.[a-z0-9]{1,10}$/i`
unfoldable pub sanitize_extension : Text → Text
sanitize_extension [] = units ".dat"
sanitize_extension (c ∷ s) =
    if c == 46 && leb 1 (length s) && leb (length s) 10 && all is_alphanumeric s
    then map lower (c ∷ s)
    else units ".dat"

abbrev pub outside_root : Thrown
outside_root =
    object none none (some "Refusing to operate on a path outside the storage root.") plain

module _ (files : Files) where
  unfoldable pub assert_within_storage_root : String → Attempt Disk (Unit {0})
  assert_within_storage_root path = if files.escapes path then throw outside_root else pure tt

  -- `rm(path, { force: true })`: a missing file is no error.
  unfoldable pub rm : String → Attempt Disk (Unit {0})
  rm path = modify (put path none)

  unfoldable pub append_chunk : String → ℕ → List ℕ → Disk → Disk
  append_chunk path now chunk disk =
      put path
        (some (record {
          content = (elim (disk path) [ none ↦ [] | some f ↦ f.content ]) ++ chunk;
          modified_at = now;
          is_file = true;
        }))
        disk

  -- `pipeline(source, guard, createWriteStream(path))`, from what has been written and hashed.
  unfoldable pub pump :
      ℕ → ℕ → String → Option Thrown → List (List ℕ) → ℕ → List ℕ → Attempt Disk (ℕ × List ℕ)
  unfolding append_chunk
  pump now max_bytes path none [] written hashed = pure (written, hashed)
  pump now max_bytes path (some e) [] written hashed = throw e
  pump now max_bytes path failure (c ∷ cs) written hashed =
      let rest = pump now max_bytes path failure cs (written + length c) (hashed ++ c) in
      if ltb max_bytes (written + length c)
      then raise (file_too_large max_bytes)
      else modify (append_chunk path now c) >> rest

  unfoldable pub finish : ℕ → String → Bool → ℕ × List ℕ → Attempt Disk SavedFile
  unfolding rm
  finish max_bytes path true (written, hashed) = rm path >> raise (file_too_large max_bytes)
  finish max_bytes path false (written, hashed) =
      pure (record { storage_path = path; size = written; checksum = files.sha256_hex hashed })

  unfoldable pub save_at : ℕ → ℕ → String → Source → Attempt Disk SavedFile
  unfolding rm pump finish
  save_at now max_bytes path source = do
    modify (put path (some (record { content = []; modified_at = now; is_file = true })))
    written ←
        catch (pump now max_bytes path source.interruption source.chunks 0 [])
          (λ e. rm path >> throw e)
    finish max_bytes path source.truncated written

  unfoldable pub save : ℕ → ℕ → Source → Text → ℕ → Attempt Disk SavedFile
  unfolding assert_within_storage_root save_at
  save now uuid source extension max_bytes =
      let path = files.storage_path uuid (sanitize_extension extension) in
      assert_within_storage_root path >> save_at now max_bytes path source

  unfoldable pub delete : String → Attempt Disk (Unit {0})
  unfolding assert_within_storage_root rm
  delete path = assert_within_storage_root (files.resolve path) >> rm path
