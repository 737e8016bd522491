-- ===== src/Storage/Sweep/Removed.antt =====
-- Which files a sweep of src/worker/orphan-file-sweeper.service.ts removes.
use high_throughput_transact.Base.{
  ℕ, ◌+◌, ◌≤◌, ◌≡◌, refl, sym, subst, ◌∙◌, ◌⊎◌, inl, inr, String, str_eq, Bool, true, false, not,
  ◌&&◌, Option, none, some, List, [], ◌∷◌, arith, if◌then◌else◌, err, Bool-cases,
}
use text.Mathlib.TextEquality.{eq_iff}
use high_throughput_transact.Js.{Js}
use high_throughput_transact.Domain.Errors.{Thrown}
use high_throughput_transact.Database.World.{World, statement, Reply, answered, refused, lost}
use high_throughput_transact.Database.HealthCheck.{referenced, list_referenced_storage_paths}
use high_throughput_transact.Storage.Disk.{DiskFile, Disk, put}
use high_throughput_transact.Storage.Sweep.{
  has, is_orphan, sweep_entry, sweep_entries, cleanup_orphans, sweep,
}

-- A text is in a list.
abbrev pub IsIn : String → List String → Type 0
IsIn q [] = ⊥
IsIn q (p ∷ ps) = (p ≡ q) ⊎ IsIn q ps

-- A regular file that has not changed for `age`.
abbrev pub IsOld : ℕ → ℕ → Option DiskFile → Type 0
IsOld now age file =
    (f : DiskFile) × (file ≡ some f) × (f.is_file ≡ true) × (f.modified_at + age ≤ now)

-- The file at a path may go: it is listed and old, no file row names it, and nothing throws.
abbrev pub IsDoomed :
    ℕ → ℕ → List String → (String → Bool) → List String → String → Option DiskFile → Type 0
IsDoomed now age kept throws paths q file =
    IsIn q paths × IsOld now age file × (IsIn q kept → ⊥) × (throws q ≡ false)

-- Doomed files are gone and all others are as before.
abbrev pub Swept : ℕ → ℕ → List String → (String → Bool) → List String → Disk → Disk → Type 0
Swept now age kept throws paths before after =
    (q : String)
    → (IsDoomed now age kept throws paths q (before q) × (after q ≡ none))
      ⊎ ((IsDoomed now age kept throws paths q (before q) → ⊥) × (after q ≡ before q))

has-IsIn : (paths : List String) (q : String) → has paths q ≡ true → IsIn q paths
has-IsIn [] q h = cc
has-IsIn (p ∷ ps) q h = elim (Bool-cases (str_eq p q)) [
  | inl e ↦ inl ((eq_iff p q).0 e)
  | inr e ↦ inr (has-IsIn ps q (rw e at h))
]

IsIn-has : (paths : List String) (q : String) → IsIn q paths → has paths q ≡ true
IsIn-has [] q i = absurd i
IsIn-has (p ∷ ps) q (inl e) = rw ((eq_iff p q).1 e) refl
IsIn-has (p ∷ ps) q (inr i) = ground (arith, IsIn-has ps q i)

-- The tests of the loop at a path.
doomed : ℕ → ℕ → List String → (String → Bool) → List String → String → Option DiskFile → Bool
doomed now age kept throws paths q file =
    has paths q && (is_orphan now age kept q file && not (throws q))

is_orphan-IsOld :
    (now age : ℕ) (kept : List String) (q : String) (file : Option DiskFile)
    → is_orphan now age kept q file ≡ true
    → IsOld now age file × (has kept q ≡ false)
unfolding is_orphan
is_orphan-IsOld now age kept q none h = cc
is_orphan-IsOld now age kept q (some f) h = ((f, refl, ground arith, ground arith), ground arith)

IsOld-is_orphan :
    (now age : ℕ) (kept : List String) (q : String) (file : Option DiskFile)
    → IsOld now age file
    → has kept q ≡ false
    → is_orphan now age kept q file ≡ true
unfolding is_orphan
IsOld-is_orphan now age kept q file (f, e, regular, old) h = rw e (rw regular (ground arith))

doomed-IsDoomed :
    (now age : ℕ) (kept : List String) (throws : String → Bool) (paths : List String) (q : String)
    (file : Option DiskFile)
    → doomed now age kept throws paths q file ≡ true
    → IsDoomed now age kept throws paths q file
unfolding doomed
doomed-IsDoomed now age kept throws paths q file h =
    let listed : has paths q ≡ true = ground arith in
    let orphan : is_orphan now age kept q file ≡ true = ground arith in
    let (old, free) = is_orphan-IsOld now age kept q file orphan in
    (has-IsIn paths q listed, old, (λ i. let x = IsIn-has kept q i in cc), ground arith)

IsDoomed-doomed :
    (now age : ℕ) (kept : List String) (throws : String → Bool) (paths : List String) (q : String)
    (file : Option DiskFile)
    → IsDoomed now age kept throws paths q file
    → doomed now age kept throws paths q file ≡ true
unfolding doomed
IsDoomed-doomed now age kept throws paths q file (listed, old, free, works) =
    let l = IsIn-has paths q listed in
    let k : has kept q ≡ false = elim (Bool-cases (has kept q)) [
      | inl e ↦ absurd (free (has-IsIn kept q e))
      | inr e ↦ e
    ] in
    let o = IsOld-is_orphan now age kept q file old k in ground arith

is_orphan-none :
    (now age : ℕ) (kept : List String) (q : String) → is_orphan now age kept q none ≡ false
unfolding is_orphan
is_orphan-none now age kept q = refl

-- What becomes of the file at a path.
remains : Bool → Option DiskFile → Option DiskFile
remains gone file = if gone then none else file

-- Where an entry is not doomed a turn of the loop leaves the disk; otherwise the file goes.
sweep_entry-disk :
    (now age : ℕ) (kept : List String) (throws : String → Bool) (path : String) (disk : Disk)
    (removed : ℕ)
    → (sweep_entry now age kept throws path (disk, removed)).0 ≡ (
        if is_orphan now age kept path (disk path) && not (throws path)
        then put path none disk
        else disk)
unfolding sweep_entry
sweep_entry-disk now age kept throws path disk removed =
    elim (Bool-cases (is_orphan now age kept path (disk path))) [
      | inl o ↦ elim (Bool-cases (throws path)) [
        | inl t ↦ rw o (rw t refl)
        | inr t ↦ rw o (rw t refl)
      ]
      | inr n ↦ rw n refl
    ]

turn :
    (now age : ℕ) (kept : List String) (throws : String → Bool) (paths : List String)
    (path q : String) (disk : Disk) (gone : Bool)
    → gone ≡ (is_orphan now age kept path (disk path) && not (throws path))
    → let after = (if gone then put path none disk else disk) q in
      remains (doomed now age kept throws paths q after) after
      ≡ remains (doomed now age kept throws (path ∷ paths) q (disk q)) (disk q)
unfolding doomed remains
turn now age kept throws paths path q disk true e = elim (Bool-cases (str_eq path q)) [
  | inl same ↦
      let p : path ≡ q = (eq_iff path q).0 same in
      let n = is_orphan-none now age kept q in
      let here : (is_orphan now age kept q (disk q) && not (throws q)) ≡ true =
        subst (λ x. (is_orphan now age kept x (disk x) && not (throws x)) ≡ true) p (sym e) in
      rw same (rw here (ground arith))
  | inr other ↦ rw other refl
]
turn now age kept throws paths path q disk false e = elim (Bool-cases (str_eq path q)) [
  | inl same ↦
      let p : path ≡ q = (eq_iff path q).0 same in
      let here : (is_orphan now age kept q (disk q) && not (throws q)) ≡ false =
        subst (λ x. (is_orphan now age kept x (disk x) && not (throws x)) ≡ false) p (sym e) in
      rw same (rw here (ground arith))
  | inr other ↦ rw other refl
]

sweep_entries-remains :
    (now age : ℕ) (kept : List String) (throws : String → Bool) (paths : List String) (disk : Disk)
    (removed : ℕ) (q : String)
    → (sweep_entries now age kept throws paths (disk, removed)).0 q
      ≡ remains (doomed now age kept throws paths q (disk q)) (disk q)
unfolding sweep_entries doomed remains
sweep_entries-remains now age kept throws [] disk removed q = refl
sweep_entries-remains now age kept throws (path ∷ paths) disk removed q =
    let next = sweep_entry now age kept throws path (disk, removed) in
    let gone = is_orphan now age kept path (disk path) && not (throws path) in
    sweep_entries-remains now age kept throws paths next.0 next.1 q
    ∙ subst
        (λ (d : Disk).
          remains (doomed now age kept throws paths q (d q)) (d q)
          ≡ remains (doomed now age kept throws (path ∷ paths) q (disk q)) (disk q))
        (sym (sweep_entry-disk now age kept throws path disk removed))
        (turn now age kept throws paths path q disk gone refl)

sweep_entries-Swept :
    (now age : ℕ) (kept : List String) (throws : String → Bool) (paths : List String) (disk : Disk)
    → Swept now age kept throws paths disk (sweep_entries now age kept throws paths (disk, 0)).0
unfolding remains
sweep_entries-Swept now age kept throws paths disk q =
    let e = sweep_entries-remains now age kept throws paths disk 0 q in
    elim (Bool-cases (doomed now age kept throws paths q (disk q))) [
      | inl gone ↦ inl (doomed-IsDoomed now age kept throws paths q (disk q) gone, e ∙ rw gone refl)
      | inr stays ↦ inr (
        (λ d. let x = IsDoomed-doomed now age kept throws paths q (disk q) d in cc),
        e ∙ rw stays refl,
      )
    ]

-- A sweep changes nothing in the database. Where the query of the referenced paths is answered and
-- the storage root is read, the files that are gone afterwards are the listed regular files that
-- have not changed for `age`, that no file row names, and whose `stat` and `rm` do not throw; all
-- others are as before. Where the query is not answered, the disk is as before.
pub sweep-Swept :
    {js : Js} (now age : ℕ) (paths : List String) (throws : String → Bool) (w : World js)
    (disk : Disk)
    → let after = sweep now age (some paths) throws w disk in
      (after.0.tables ≡ w.tables)
      × (Swept now age (referenced w.tables.files) throws paths disk after.1
          ⊎ (((e : Thrown) × ((list_referenced_storage_paths w).0 ≡ err e)) × (after.1 ≡ disk)))
unfolding sweep cleanup_orphans list_referenced_storage_paths statement
sweep-Swept {js} now age paths throws w disk = go w.replies
  where
    kept : List String
    kept = referenced w.tables.files

    gone :
        Swept now age kept throws paths disk (sweep_entries now age kept throws paths (disk, 0)).0
    gone = sweep_entries-Swept now age kept throws paths disk

    go :
        (replies : List Reply)
        → let v = record w { replies = replies } in
          let after = sweep now age (some paths) throws v disk in
          (after.0.tables ≡ w.tables)
          × (Swept now age (referenced w.tables.files) throws paths disk after.1
              ⊎ (((e : Thrown) × ((list_referenced_storage_paths v).0 ≡ err e)) × (after.1 ≡ disk)))
    go [] = (refl, inl gone)
    go (answered ∷ rs) = (refl, inl gone)
    go (refused e ∷ rs) = (refl, inr ((e, refl), refl))
    go (lost e ∷ rs) = (refl, inr ((e, refl), refl))
