-- ===== src/Database/ImportRepository/Idempotency.antt =====
-- `createOrReturnExisting` of src/infrastructure/repository/import.repository.ts: what it leaves
-- and returns, whatever the connection does.
use high_throughput_transact.Base.{
  String, str_eq, ◌≡◌, sym, ap, ◌∙◌, subst, ◌⊎◌, inl, inr, true, false, some, Bool-cases,
  Option-cases, Result, ok, err, pure, catch, ◌>>=◌, Result-cases,
}
use high_throughput_transact.Base.{Result-cases, pure, catch, ◌>>=◌}
use high_throughput_transact.Database.ImportRepository.Creation.{
  Created, create_rows-Created, Created-found,
}
use high_throughput_transact.Js.{Js}
use high_throughput_transact.Domain.Errors.{Thrown}
use high_throughput_transact.Database.Table.{find_where-any}
use high_throughput_transact.Database.World.{
  ImportRow, KeyRow, Tables, World, Db, statement, transaction,
}
use high_throughput_transact.Database.World.Atomicity.{
  statement-ok, statement-tables, transaction-ok, transaction-tables, bind-ok,
}
use high_throughput_transact.Database.ImportRepository.{
  CreateImportInput, CreateImportResult, find_key, find_import, create_rows, find_owner,
  return_existing, create_or_return_existing, owner_of, is_idempotency_key_conflict,
}

module _ {js : Js} where
  find_owner-tables : (k : String) (t : Tables js) → (find_owner k t).1 ≡ t
  unfolding find_owner
  find_owner-tables k t = elim (Option-cases (owner_of (find_key k t.keys) t)) [
    | inl e ↦ rw (e, find_owner)
    | inr (r, e) ↦ rw (e, find_owner)
  ]

  find_owner-ok :
      (key : String) (t after : Tables js) {r : ImportRow}
      → find_owner key t ≡ (ok r, after)
      → (k : KeyRow) × (find_key key t.keys ≡ some k) × (find_import k.import_id t.imports ≡ some r)
  unfolding find_owner owner_of
  find_owner-ok key t after h = elim (Option-cases (find_key key t.keys)) [
    | inl e ↦ let x = rw (e, find_owner) at h in cc
    | inr (k, e) ↦ elim (Option-cases (find_import k.import_id t.imports)) [
      | inl f ↦ let x = rw (e, f, find_owner) at h in cc
      | inr (r, f) ↦ let x = rw (e, f, find_owner) at h in (k, e, f ∙ cc)
    ]
  ]

  then_pure-tables :
      {A B : Type 0} (m : Db js A) (f : A → B) (w : World js)
      → ((m >>= λ a. pure (f a)) w).1 ≡ (m w).1
  unfolding ◌>>=◌
  then_pure-tables m f w = elim (Result-cases (m w).0) [
    | inl (a, e) ↦ rw (e, ◌>>=◌)
    | inr (x, e) ↦ rw (e, ◌>>=◌)
  ]

  catch-pure-cases :
      {A B : Type 0} (m : Db js A) (f : A → B) (handler : Thrown → Db js B) (w : World js)
      → ((a : A) × ((m w).0 ≡ ok a)
          × (catch (m >>= λ a. pure (f a)) handler w ≡ (ok (f a), (m w).1)))
        ⊎ ((x : Thrown) × ((m w).0 ≡ err x)
            × (catch (m >>= λ a. pure (f a)) handler w ≡ handler x (m w).1))
  unfolding ◌>>=◌
  catch-pure-cases {A} {B} m f handler w = elim (Result-cases (m w).0) [
    | inl (a, e) ↦
        let p : (m >>= λ a. pure (f a)) w ≡ (ok (f a), (m w).1) = rw (e, ◌>>=◌) in
        inl (a, e, ap handled p)
    | inr (x, e) ↦
        let p : (m >>= λ a. pure (f a)) w ≡ (err x, (m w).1) = rw (e, ◌>>=◌) in
        inr (x, e, ap handled p)
  ]
    where
      handled : Result Thrown B × World js → Result Thrown B × World js
      handled p = elim p.0 [ ok b ↦ (ok b, p.1) | err x ↦ handler x p.1 ]

  looked_up : (key : String) (w : World js) → (statement (find_owner key) w).1.tables ≡ w.tables
  looked_up key w = elim (statement-tables (find_owner key) w) [
    | inl e ↦ e
    | inr e ↦ e ∙ find_owner-tables key w.tables
  ]

  return_existing-tables :
      (input : CreateImportInput) (x : Thrown) (w : World js)
      → (return_existing input x w).1.tables ≡ w.tables
  unfolding return_existing
  return_existing-tables input x w = elim (Bool-cases (is_idempotency_key_conflict x)) [
    | inl e ↦
        rw (e, return_existing)
          (ap (λ (z : World js). z.tables)
              (then_pure-tables (statement (find_owner input.idempotency_key)) _ w)
            ∙ looked_up input.idempotency_key w)
    | inr e ↦ rw (e, return_existing)
  ]

  return_existing-ok :
      (input : CreateImportInput) (x : Thrown) (w : World js) {s : CreateImportResult}
      → (return_existing input x w).0 ≡ ok s
      → (s.is_new ≡ false)
        × ((k : KeyRow) × (find_key input.idempotency_key w.tables.keys ≡ some k)
            × (find_import k.import_id w.tables.imports ≡ some s.import_record))
  unfolding return_existing
  return_existing-ok input x w {s} h = elim (Bool-cases (is_idempotency_key_conflict x)) [
    | inl e ↦
        let q = rw (e, return_existing) at h in
        let (r, h1, k1, e1) = bind-ok (statement (find_owner input.idempotency_key)) _ w q in
        let (k, f, g) =
          find_owner-ok input.idempotency_key w.tables _
            (statement-ok (find_owner input.idempotency_key) w h1) in
        (cc, (k, f, g ∙ cc))
    | inr e ↦ let q = rw (e, return_existing) at h in cc
  ]

  abbrev creation : CreateImportInput → Db js ImportRow
  creation input = transaction (create_rows input)

  -- The two ways through the call.
  create_cases :
      (input : CreateImportInput) (w : World js)
      → ((r : ImportRow) × ((creation input w).0 ≡ ok r)
          × (create_or_return_existing input w
              ≡ (ok (record { import_record = r; is_new = true }), (creation input w).1)))
        ⊎ ((x : Thrown) × ((creation input w).0 ≡ err x)
            × (create_or_return_existing input w ≡ return_existing input x (creation input w).1))
  unfolding create_or_return_existing
  create_cases input w =
      catch-pure-cases (creation input) (λ r. record { import_record = r; is_new = true })
        (return_existing input) w

  creation-atomic :
      (input : CreateImportInput) (w : World js)
      → ((creation input w).1.tables ≡ w.tables)
        ⊎ ((r : ImportRow) × Created input w.tables r (creation input w).1.tables)
  creation-atomic input w = elim (transaction-tables (create_rows input) w) [
    | inl same ↦ inl same
    | inr (r, k, t) ↦
        inr (r, subst (Created input w.tables r) (sym t) (create_rows-Created input w k))
  ]

  creation-ok :
      (input : CreateImportInput) (w : World js) {r : ImportRow}
      → (creation input w).0 ≡ ok r
      → Created input w.tables r (creation input w).1.tables
  creation-ok input w {r} h =
      let (k, t) = transaction-ok (create_rows input) w h in
      subst (Created input w.tables r) (sym t) (create_rows-Created input w k)

  -- A result that is new has been created.
  pub create_or_return_existing-new :
      (input : CreateImportInput) (w : World js) (s : CreateImportResult)
      → (create_or_return_existing input w).0 ≡ ok s
      → s.is_new ≡ true
      → Created input w.tables s.import_record (create_or_return_existing input w).1.tables
  create_or_return_existing-new input w s h new = elim (create_cases input w) [
    | inl (r, k, e) ↦
        let same : r ≡ s.import_record = cc in
        subst (λ r. Created input w.tables r (create_or_return_existing input w).1.tables) same
          (subst
            (λ (z : Result Thrown CreateImportResult × World js).
              Created input w.tables r z.1.tables)
            (sym e) (creation-ok input w k))
    | inr (x, k, e) ↦
        let back = sym (ap (λ (z : Result Thrown CreateImportResult × World js). z.0) e) ∙ h in
        let old = (return_existing-ok input x (creation input w).1 back).0 in cc
  ]

  create-tables :
      (input : CreateImportInput) (w : World js)
      → (create_or_return_existing input w).1.tables ≡ (creation input w).1.tables
  create-tables input w = elim (create_cases input w) [
    | inl (r, h, e) ↦ ap (λ (z : Result Thrown CreateImportResult × World js). z.1.tables) e
    | inr (x, h, e) ↦
        ap (λ (z : Result Thrown CreateImportResult × World js). z.1.tables) e
        ∙ return_existing-tables input x (creation input w).1
  ]

  -- Whatever the connection does, an import is created with its key, its file and its job, all of
  -- them pending and from the input, or nothing in the database changes.
  pub create_or_return_existing-atomic :
      (input : CreateImportInput) (w : World js)
      → let after = (create_or_return_existing input w).1.tables in
        (after ≡ w.tables) ⊎ ((r : ImportRow) × Created input w.tables r after)
  create_or_return_existing-atomic input w = elim (creation-atomic input w) [
    | inl same ↦ inl (create-tables input w ∙ same)
    | inr (r, c) ↦ inr (r, subst (Created input w.tables r) (sym (create-tables input w)) c)
  ]

  -- The import that is returned, new or not, is stored, and is the one that owns the key.
  pub create_or_return_existing-owned :
      (input : CreateImportInput) (w : World js) (s : CreateImportResult)
      → (create_or_return_existing input w).0 ≡ ok s
      → let after = (create_or_return_existing input w).1.tables in
        (k : KeyRow) × (find_key input.idempotency_key after.keys ≡ some k)
        × (find_import k.import_id after.imports ≡ some s.import_record)
  create_or_return_existing-owned input w s h =
      let t = create-tables input w in
      subst
        (λ (after : Tables js).
          (k : KeyRow) × (find_key input.idempotency_key after.keys ≡ some k)
          × (find_import k.import_id after.imports ≡ some s.import_record))
        (sym t)
        (elim (create_cases input w) [
          | inl (r, k, e) ↦
              let same : r ≡ s.import_record = cc in
              subst
                (λ r.
                  (k : KeyRow) × (find_key input.idempotency_key (creation input w).1.tables.keys
                    ≡ some k)
                  × (find_import k.import_id (creation input w).1.tables.imports ≡ some r))
                same
                (Created-found input w.tables r (creation input w).1.tables (creation-ok input w k))
          | inr (x, k, e) ↦
              (return_existing-ok input x (creation input w).1
                (sym (ap (λ (z : Result Thrown CreateImportResult × World js). z.0) e) ∙ h)).1
        ])

  not-Created :
      (input : CreateImportInput) (t after : Tables js) (r : ImportRow) {k : KeyRow}
      → find_key input.idempotency_key t.keys ≡ some k
      → ¬ Created input t r after
  not-Created input t after r h c =
      let e =
        find_where-any (λ (x : KeyRow). str_eq x.key input.idempotency_key) t.keys c.fresh_key in
      cc

  unmoved :
      (input : CreateImportInput) (w : World js) {k : KeyRow}
      → find_key input.idempotency_key w.tables.keys ≡ some k
      → (creation input w).1.tables ≡ w.tables
  unmoved input w h = elim (creation-atomic input w) [
    | inl same ↦ same
    | inr (r, c) ↦ absurd (not-Created input w.tables _ r h c)
  ]

  -- A request under a key that is in use changes nothing in the database, whether it returns or
  -- throws, and whatever the connection does.
  pub create_or_return_existing-quiet :
      (input : CreateImportInput) (w : World js) (k : KeyRow)
      → find_key input.idempotency_key w.tables.keys ≡ some k
      → (create_or_return_existing input w).1.tables ≡ w.tables
  create_or_return_existing-quiet input w k h = create-tables input w ∙ unmoved input w h

  -- A request under a key that is in use, where it returns, returns the import that owns the key, as
  -- one that is not new.
  pub create_or_return_existing-replay :
      (input : CreateImportInput) (w : World js) (k : KeyRow) (s : CreateImportResult)
      → find_key input.idempotency_key w.tables.keys ≡ some k
      → (create_or_return_existing input w).0 ≡ ok s
      → (s.is_new ≡ false) × (find_import k.import_id w.tables.imports ≡ some s.import_record)
  create_or_return_existing-replay input w k s h e = elim (create_cases input w) [
    | inl (r, g, p) ↦ absurd (not-Created input w.tables _ r h (creation-ok input w g))
    | inr (x, g, p) ↦
        let (old, (l, f, i)) =
          return_existing-ok input x (creation input w).1
            (sym (ap (λ (z : Result Thrown CreateImportResult × World js). z.0) p) ∙ e) in
        let key_same =
          ap (λ (t : Tables js). find_key input.idempotency_key t.keys) (unmoved input w h) in
        let same : l ≡ k = cc in
        (
          old,
          ap (λ (t : Tables js). find_import k.import_id t.imports) (sym (unmoved input w h))
              ∙ ap (λ (k : KeyRow). find_import k.import_id (creation input w).1.tables.imports)
                  (sym same)
              ∙ i,
        )
  ]
