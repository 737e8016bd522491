-- ===== src/Storage/Disk/Saved.antt =====
-- What `save` leaves on the disk.
use high_throughput_transact.Base.{
  ℕ, ◌+◌, ◌≤◌, ◌≡◌, refl, sym, ap, ◌∙◌, subst, ◌≢◌, ◌⊎◌, inl, inr, String, str_eq, Bool, true,
  false, Option, none, some, List, [], ◌∷◌, ◌++◌, arith, ltb, length, length-append, Bool-cases,
  Result, ok, err, throw, catch, ◌>>=◌, ◌>>◌, bind_at, bind_err, catch_at, catch_err,
}
use text.Mathlib.TextEquality.{eq_iff}
use mathlib.Core.List.{append-nil, append_assoc}
use high_throughput_transact.Js.Strings.{Text}
use high_throughput_transact.Domain.Errors.{Attempt, Thrown, domain, file_too_large, plain}
use high_throughput_transact.Database.World.{SavedFile}
use high_throughput_transact.Storage.Disk.{
  DiskFile, Disk, put, Files, Source, sanitize_extension, append_chunk, pump, finish, save_at, rm,
  save, assert_within_storage_root, outside_root,
}

-- The bytes of the chunks.
unfoldable pub concat : List (List ℕ) → List ℕ
concat [] = []
concat (c ∷ cs) = c ++ concat cs

eq_refl : (s : String) → str_eq s s ≡ true
eq_refl s = (eq_iff s s).1 refl

abbrev pub written_file : ℕ → List ℕ → DiskFile
written_file now bytes = record { content = bytes; modified_at = now; is_file = true }

-- All files but one are as before.
abbrev Elsewhere : String → Disk → Disk → Type 0
Elsewhere path disk disk' = (q : String) → q ≢ path → disk' q ≡ disk q

put_ne :
    (path q : String) (f : Option DiskFile) (disk : Disk) → q ≢ path → put path f disk q ≡ disk q
put_ne path q f disk ne = ground (arith, eq_iff path q)

put_self : (path : String) (f : Option DiskFile) (disk : Disk) → put path f disk path ≡ f
put_self path f disk = rw (eq_refl path)

-- How the pipeline ends: all chunks are written, within the bound, or it throws.
data Piped (now max_bytes : ℕ) (path : String) (before : List ℕ) (failure : Option Thrown)
    (chunks : List (List ℕ)) (disk : Disk) (r : Result Thrown (ℕ × List ℕ) × Disk) : Type 0 where
  all_written :
      failure ≡ none
      → length (before ++ concat chunks) ≤ max_bytes
      → r.0 ≡ ok (length (before ++ concat chunks), before ++ concat chunks)
      → r.1 path ≡ some (written_file now (before ++ concat chunks))
      → Elsewhere path disk r.1
      → Piped now max_bytes path before failure chunks disk r
  thrown :
      (e : Thrown)
      → r.0 ≡ err e
      → Elsewhere path disk r.1
      → Piped now max_bytes path before failure chunks disk r

pair_of : {A B : Type 0} (r : A × B) {a : A} → r.0 ≡ a → r ≡ (a, r.1)
pair_of r e = ap (λ x. (x, r.1)) e

module _ (files : Files) where
  append_chunk-at :
      (path : String) (now : ℕ) (before chunk : List ℕ) (disk : Disk)
      → disk path ≡ some (written_file now before)
      → append_chunk files path now chunk disk path ≡ some (written_file now (before ++ chunk))
  unfolding append_chunk
  append_chunk-at path now before chunk disk h = rw (eq_refl path, h)

  append_chunk-Elsewhere :
      (path : String) (now : ℕ) (chunk : List ℕ) (disk : Disk)
      → Elsewhere path disk (append_chunk files path now chunk disk)
  unfolding append_chunk
  append_chunk-Elsewhere path now chunk disk q ne = put_ne path q _ disk ne

  -- The rest of the chunks after the first.
  after_chunk :
      (now max_bytes : ℕ) (path : String) (failure : Option Thrown) (c : List ℕ)
      (cs : List (List ℕ)) (before : List ℕ) (disk : Disk) {r : Result Thrown (ℕ × List ℕ) × Disk}
      → Piped now max_bytes path (before ++ c) failure cs (append_chunk files path now c disk) r
      → Piped now max_bytes path before failure (c ∷ cs) disk r
  unfolding concat
  after_chunk now max_bytes path failure c cs before disk (all_written n l e p k) =
      let a : (before ++ c) ++ concat cs ≡ before ++ (c ++ concat cs) =
        append_assoc before c (concat cs) in
      all_written n (rw (← a) l) (rw (← a) e) (rw (← a) p)
        (λ q ne. k q ne ∙ append_chunk-Elsewhere path now c disk q ne)
  after_chunk now max_bytes path failure c cs before disk (thrown x e k) =
      thrown x e (λ q ne. k q ne ∙ append_chunk-Elsewhere path now c disk q ne)

  pump-Piped :
      (now max_bytes : ℕ) (path : String) (failure : Option Thrown) (chunks : List (List ℕ))
      (before : List ℕ) (disk : Disk)
      → length before ≤ max_bytes
      → disk path ≡ some (written_file now before)
      → Piped now max_bytes path before failure chunks disk
          (pump files now max_bytes path failure chunks (length before) before disk)
  unfolding pump concat ◌>>=◌
  pump-Piped now max_bytes path none [] before disk b h =
      let e : before ++ [] ≡ before = append-nil before in
      all_written refl (rw e b) (rw e) (rw e h) (λ q ne. refl)
  pump-Piped now max_bytes path (some x) [] before disk b h = thrown x refl (λ q ne. refl)
  pump-Piped now max_bytes path failure (c ∷ cs) before disk b h =
      elim (Bool-cases (ltb max_bytes (length before + length c))) [
        | inl e ↦ rw e (thrown (domain (file_too_large max_bytes) plain) refl (λ q ne. refl))
        | inr e ↦
            let l : length before + length c ≡ length (before ++ c) =
              sym (length-append before c) in
            let ih =
              pump-Piped now max_bytes path failure cs (before ++ c)
                (append_chunk files path now c disk) (ground (arith, l))
                (append_chunk-at path now before c disk h) in
            rw (e, l) (after_chunk now max_bytes path failure c cs before disk ih)
      ]

  -- What `save` may come to.
  abbrev pub SaveOutcome : ℕ → ℕ → Source → String → Disk → Result Thrown SavedFile × Disk → Type 0
  SaveOutcome now max_bytes source path disk r =
      let bytes = concat source.chunks in
      ((q : String) → q ≢ path → r.1 q ≡ disk q)
      × (((source.interruption ≡ none)
            × (source.truncated ≡ false)
            × (length bytes ≤ max_bytes)
            × (r.0
                ≡ ok (record {
                  storage_path = path;
                  size = length bytes;
                  checksum = files.sha256_hex bytes;
                }))
            × (r.1 path ≡ some (written_file now bytes)))
          ⊎ ((e : Thrown) × (r.0 ≡ err e) × (r.1 path ≡ none)))

  finish-outcome :
      (now max_bytes : ℕ) (source : Source) (path : String) (disk disk' : Disk) (t : Bool)
      → source.truncated ≡ t
      → source.interruption ≡ none
      → length (concat source.chunks) ≤ max_bytes
      → disk' path ≡ some (written_file now (concat source.chunks))
      → Elsewhere path disk disk'
      → SaveOutcome now max_bytes source path disk (
          finish files max_bytes path t (length (concat source.chunks), concat source.chunks) disk')
  unfolding finish ◌>>=◌
  finish-outcome now max_bytes source path disk disk' true t n l h k =
      (λ q ne. put_ne path q none disk' ne ∙ k q ne, inr (_, refl, put_self path none disk'))
  finish-outcome now max_bytes source path disk disk' false t n l h k = (k, inl (n, t, l, refl, h))

  save_at-outcome :
      (now max_bytes : ℕ) (source : Source) (path : String) (disk : Disk)
      → SaveOutcome now max_bytes source path disk (save_at files now max_bytes path source disk)
  unfolding save_at ◌>>=◌ rm
  save_at-outcome now max_bytes source path disk = go (
      pump-Piped now max_bytes path source.interruption source.chunks [] opened (omega arith)
        (put_self path (some (written_file now [])) disk))
    where
      opened : Disk
      opened = put path (some (written_file now [])) disk

      run : Attempt Disk (ℕ × List ℕ)
      run = pump files now max_bytes path source.interruption source.chunks 0 []

      clean_up : Thrown → Attempt Disk (ℕ × List ℕ)
      clean_up e = rm files path >> throw e

      go :
          Piped now max_bytes path [] source.interruption source.chunks opened (run opened)
          → SaveOutcome now max_bytes source path disk
              (save_at files now max_bytes path source disk)
      go (all_written n l e p k) =
          let q =
            bind_at (catch run clean_up) (finish files max_bytes path source.truncated) opened
              (catch_at run clean_up opened (pair_of (run opened) e)) in
          subst (SaveOutcome now max_bytes source path disk) (sym q) (
            finish-outcome now max_bytes source path disk (run opened).1 source.truncated refl n l p
              (λ q ne. k q ne ∙ put_ne path q (some (written_file now [])) disk ne))
      go (thrown x e k) =
          let q =
            bind_err (catch run clean_up) (finish files max_bytes path source.truncated) opened
              (catch_err run clean_up opened (pair_of (run opened) e)) in
          subst (SaveOutcome now max_bytes source path disk) (sym q) (
            (λ q ne.
                put_ne path q none (run opened).1 ne
                ∙ k q ne
                ∙ put_ne path q (some (written_file now [])) disk ne),
            inr (x, refl, put_self path none (run opened).1),
          )

  -- An upload that is saved is on the disk byte for byte, within the bound, with its size and its
  -- digest; one that fails, in whatever way, leaves no file at its new path. All other files are as
  -- before.
  pub save-reads_back :
      (now uuid : ℕ) (source : Source) (extension : Text) (max_bytes : ℕ) (disk : Disk)
      → disk (files.storage_path uuid (sanitize_extension extension)) ≡ none
      → SaveOutcome now max_bytes source
          (files.storage_path uuid (sanitize_extension extension))
          disk
          (save files now uuid source extension max_bytes disk)
  unfolding save assert_within_storage_root ◌>>=◌
  save-reads_back now uuid source extension max_bytes disk h =
      let path = files.storage_path uuid (sanitize_extension extension) in
      elim (Bool-cases (files.escapes path)) [
        | inl e ↦ rw e ((λ q ne. refl), inr (outside_root, refl, h))
        | inr e ↦ rw e (save_at-outcome now max_bytes source path disk)
      ]
