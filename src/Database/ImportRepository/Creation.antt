-- ===== src/Database/ImportRepository/Creation.antt =====
-- The transaction of `createOrReturnExisting` of src/infrastructure/repository/import.repository.ts:
-- what it leaves when its body returns.
use high_throughput_transact.Base.{
  ℕ, str_eq, ◌≡◌, sym, ap, ◌∙◌, inl, inr, false, some, [], ◌∷◌, ◌++◌, arith, ◌==◌, Bool-cases, any,
  Result, ok,
}
use text.Mathlib.TextPositions.{eq_refl}
use high_throughput_transact.Js.{Js}
use high_throughput_transact.Domain.Errors.{Thrown}
use high_throughput_transact.Database.Table.{find_where-snoc}
use high_throughput_transact.Database.World.{
  ImportRow, KeyRow, FileRow, JobRow, Tables, World, statement, current_time, draw_uuid,
}
use high_throughput_transact.Database.World.Atomicity.{statement-ok, bind-ok}
use high_throughput_transact.Database.ImportRepository.{
  CreateImportInput, find_key, find_import, new_import, new_job, insert_import, insert_key,
  insert_file, insert_job, create_rows,
}

module _ {js : Js} where
  -- The five statements of a creation, carried out on the tables `t`.
  pub record Created (input : CreateImportInput) (t : Tables js) (r : ImportRow) (after : Tables js)
      : Type 0 where
    pub now : ℕ
    pub job_id : ℕ
    pub returned : r ≡ new_import input now
    pub fresh_id : any (λ (x : ImportRow). x.id == input.id) t.imports ≡ false
    pub fresh_key : any (λ (x : KeyRow). str_eq x.key input.idempotency_key) t.keys ≡ false
    pub imports : after.imports ≡ t.imports ++ new_import input now ∷ []
    pub keys :
        after.keys ≡ t.keys ++ record { key = input.idempotency_key; import_id = input.id } ∷ []
    pub files :
        after.files
        ≡ t.files ++ record { import_id = input.id; file = input.file; created_at = now } ∷ []
    pub jobs : after.jobs ≡ t.jobs ++ new_job job_id input.id now ∷ []
    pub transactions : after.transactions ≡ t.transactions
    pub rejections : after.rejections ≡ t.rejections

  insert_import-ok :
      (r : ImportRow) (t t' : Tables js) {u : Unit {0}}
      → insert_import r t ≡ (ok u, t')
      → (any (λ (x : ImportRow). x.id == r.id) t.imports ≡ false)
        × (t' ≡ record t { imports = t.imports ++ r ∷ [] })
  unfolding insert_import
  insert_import-ok r t t' h = elim (Bool-cases (any (λ (x : ImportRow). x.id == r.id) t.imports)) [
    | inl e ↦ let x = rw (e, insert_import) at h in cc
    | inr e ↦ let x = rw (e, insert_import) at h in (e, cc)
  ]

  insert_key-ok :
      (r : KeyRow) (t t' : Tables js) {u : Unit {0}}
      → insert_key r t ≡ (ok u, t')
      → (any (λ (x : KeyRow). str_eq x.key r.key) t.keys ≡ false)
        × (t' ≡ record t { keys = t.keys ++ r ∷ [] })
  unfolding insert_key
  insert_key-ok r t t' h = elim (Bool-cases (any (λ (x : KeyRow). str_eq x.key r.key) t.keys)) [
    | inl e ↦ let x = rw (e, insert_key) at h in cc
    | inr e ↦ elim (Bool-cases (any (λ (x : KeyRow). x.import_id == r.import_id) t.keys)) [
      | inl f ↦ let x = rw (e, f, insert_key) at h in cc
      | inr f ↦ let x = rw (e, f, insert_key) at h in (e, cc)
    ]
  ]

  insert_job-ok :
      (r : JobRow) (t t' : Tables js) {u : Unit {0}}
      → insert_job r t ≡ (ok u, t')
      → t' ≡ record t { jobs = t.jobs ++ r ∷ [] }
  unfolding insert_job
  insert_job-ok r t t' h = elim (Bool-cases (any (λ (x : JobRow). x.id == r.id) t.jobs)) [
    | inl e ↦ let x = rw (e, insert_job) at h in cc
    | inr e ↦ elim (Bool-cases (any (λ (x : JobRow). x.import_id == r.import_id) t.jobs)) [
      | inl f ↦ let x = rw (e, f, insert_job) at h in cc
      | inr f ↦ let x = rw (e, f, insert_job) at h in cc
    ]
  ]

  pub create_rows-Created :
      (input : CreateImportInput) (w : World js) {r : ImportRow}
      → (create_rows input w).0 ≡ ok r
      → Created input w.tables r (create_rows input w).1.tables
  unfolding create_rows insert_file
  create_rows-Created input w {r} h =
      let (now, h0, k0, e0) = bind-ok current_time _ w h in
      let import_row = new_import input now in
      let key_row : KeyRow = record { key = input.idempotency_key; import_id = input.id } in
      let (u1, h1, k1, e1) = bind-ok (statement (insert_import import_row)) _ w k0 in
      let w1 = (statement (insert_import import_row) w).1 in
      let (u2, h2, k2, e2) = bind-ok (statement (insert_key key_row)) _ w1 k1 in
      let w2 = (statement (insert_key key_row) w1).1 in
      let file_row : FileRow = record {
        import_id = input.id;
        file = input.file;
        created_at = now;
      } in
      let (u3, h3, k3, e3) = bind-ok (statement (insert_file file_row)) _ w2 k2 in
      let w3 = (statement (insert_file file_row) w2).1 in
      let (job_id, h4, k4, e4) = bind-ok draw_uuid _ w3 k3 in
      let w4 = (draw_uuid w3).1 in
      let (u5, h5, k5, e5) =
        bind-ok (statement (insert_job (new_job job_id input.id now))) _ w4 k4 in
      let w5 = (statement (insert_job (new_job job_id input.id now)) w4).1 in
      let (f1, t1) =
        insert_import-ok import_row w.tables w1.tables
          (statement-ok (insert_import import_row) w h1) in
      let (f2, t2) =
        insert_key-ok key_row w1.tables w2.tables (statement-ok (insert_key key_row) w1 h2) in
      let t3 =
        ap (λ (z : Result Thrown (Unit {0}) × Tables js). z.1)
          (statement-ok (insert_file file_row) w2 h3) in
      let t5 =
        insert_job-ok (new_job job_id input.id now) w4.tables w5.tables
          (statement-ok (insert_job (new_job job_id input.id now)) w4 h5) in
      let t =
        ap (λ (z : Result Thrown ImportRow × World js). z.1.tables) (e0 ∙ e1 ∙ e2 ∙ e3 ∙ e4 ∙ e5) in
      let same : import_row ≡ r = cc in
      record {
        now = now;
        job_id = job_id;
        returned = sym same;
        fresh_id = f1;
        fresh_key = cc;
        imports = cc;
        keys = cc;
        files = cc;
        jobs = cc;
        transactions = cc;
        rejections = cc;
      }

  -- The rows of a creation are found under its key and its id.
  pub Created-found :
      (input : CreateImportInput) (t : Tables js) (r : ImportRow) (after : Tables js)
      → Created input t r after
      → (k : KeyRow) × (find_key input.idempotency_key after.keys ≡ some k)
        × (find_import k.import_id after.imports ≡ some r)
  Created-found input t r after c =
      let k : KeyRow = record { key = input.idempotency_key; import_id = input.id } in
      (
        k,
        ap (find_key input.idempotency_key) c.keys
            ∙ find_where-snoc _ t.keys k c.fresh_key (eq_refl input.idempotency_key),
        ap (find_import input.id) c.imports
            ∙ find_where-snoc _ t.imports (new_import input c.now) c.fresh_id (ground arith)
            ∙ ap some (sym c.returned),
      )
