-- ===== src/Imports/Creation/Files.antt =====
-- What a creation leaves on the disk and in the database, with the disk storage and the import
-- repository behind the ports.
use high_throughput_transact.Base.{
  ℕ, String, ◌≡◌, refl, sym, ap, ◌∙◌, subst, ◌≢◌, inl, inr, Bool, true, false, none, Bool-cases,
  str_eq, ok, ◌>>=◌, ◌>>◌, if◌then◌else◌,
}
use text.Mathlib.TextEquality.{eq_iff}
use high_throughput_transact.Js.{Js}
use high_throughput_transact.Js.Strings.{Text}
use high_throughput_transact.Domain.Errors.{invalid_file_type, domain, plain}
use high_throughput_transact.Database.World.{SavedFile, World}
use high_throughput_transact.Database.ImportRepository.{
  CreateImportInput, CreateImportResult, create_or_return_existing,
}
use high_throughput_transact.Database.ImportRepository.Creation.{Created}
use high_throughput_transact.Database.ImportRepository.Idempotency.{create_or_return_existing-new}
use high_throughput_transact.Processing.Returns.{
  Returns, Returns-bind, Returns-at, Returns-err, Returns-weaken,
}
use high_throughput_transact.Storage.Disk.{
  Disk, Files, Source, delete, assert_within_storage_root, rm,
}
use high_throughput_transact.Storage.Disk.Saved.{save-reads_back}
use high_throughput_transact.Imports.Creation.{
  UploadPorts, CreateImportCommand, extract_extension, is_allowed, received,
  assert_allowed_file_type, register, keep_upload, discard, store, create_import,
}
use high_throughput_transact.Imports.Creation.Server.{
  Server, on_disk, in_database, path_of, saved_file, server_ports, input_of, IsUploaded, Outcome,
}

delete-removed :
    (files : Files) (path q : String) (disk : Disk) {u : Unit {0}}
    → (delete files path disk).0 ≡ ok u
    → (delete files path disk).1 q ≡ (if str_eq path q then none else disk q)
unfolding delete assert_within_storage_root rm ◌>>=◌
delete-removed files path q disk h = elim (Bool-cases (files.escapes (files.resolve path))) [
  | inl e ↦ let x = rw e at h in cc
  | inr e ↦ rw e refl
]

module _ {js : Js} (files : Files) (source : Source) (uuid id max_upload_bytes : ℕ) where
  abbrev ports : UploadPorts (Server js)
  ports = server_ports files source uuid id max_upload_bytes

  abbrev Uploaded : CreateImportCommand → Server js → Disk → Type 0
  Uploaded = IsUploaded files source uuid id max_upload_bytes

  abbrev input : CreateImportCommand → Server js → CreateImportInput
  input = input_of files source uuid id max_upload_bytes

  abbrev Came : CreateImportCommand → Server js → CreateImportResult → Server js → Type 0
  Came = Outcome files source uuid id max_upload_bytes

  save-IsUploaded :
      (command : CreateImportCommand) (s : Server js)
      → s.disk (path_of files uuid command) ≡ none
      → Returns
          (ports.save (extract_extension command.original_filename) max_upload_bytes)
          s
          (λ f t.
            (f ≡ saved_file files source uuid command)
            × (t.world ≡ s.world)
            × Uploaded command s t.disk)
  unfolding on_disk
  save-IsUploaded command s fresh = record {
    holds = λ f h.
        let extension = extract_extension command.original_filename in
        let (others, out) =
          save-reads_back files s.world.now uuid source extension max_upload_bytes s.disk fresh in
        elim out [
          | inl (whole, uncut, bound, result, bytes) ↦ (cc, refl, (bound, bytes, others))
          | inr (e, failed, gone) ↦ cc
        ];
  }

  register-Created :
      (command : CreateImportCommand) (s t : Server js) (f : SavedFile)
      → f ≡ saved_file files source uuid command
      → t.world ≡ s.world
      → Returns (register ports max_upload_bytes command f) t (λ r u.
        (u.disk ≡ t.disk)
        × (r.is_new ≡ true
            → Created (input command s) s.world.tables r.import_record u.world.tables))
  unfolding register in_database
  register-Created command s t f same world = record {
    holds = λ r h. (
      refl,
      λ new.
          let asked : SavedFile → World js → CreateImportInput = λ g w. record {
            id = id;
            created_at = w.now;
            idempotency_key = command.idempotency_key;
            file = g;
          } in
          let after = (create_or_return_existing (asked f t.world) t.world).1.tables in
          let made = create_or_return_existing-new (asked f t.world) t.world r h new in
          subst
            (λ w.
              Created (asked (saved_file files source uuid command) w) w.tables r.import_record
                after)
            world
            (subst (λ g. Created (asked g t.world) t.world.tables r.import_record after) same made),
    );
  }

  keep_upload-Outcome :
      (command : CreateImportCommand) (s t : Server js) (b : Bool) (f : SavedFile)
      (r : CreateImportResult)
      → s.disk (path_of files uuid command) ≡ none
      → f ≡ saved_file files source uuid command
      → r.is_new ≡ b
      → Uploaded command s t.disk
      → (r.is_new ≡ true → Created (input command s) s.world.tables r.import_record t.world.tables)
      → Returns (keep_upload ports max_upload_bytes b f r) t (Came command s)
  unfolding keep_upload on_disk
  keep_upload-Outcome command s t true f r fresh same new up made =
      Returns-at r t refl (inl (new, made new, up))
  keep_upload-Outcome command s t false f r fresh same old (bound, bytes, others) made =
      Returns-bind (λ u v. v ≡ t) (Returns-at tt t refl refl)
        λ u v here.
          Returns-bind (λ u v. (q : String) → v.disk q ≡ s.disk q)
            (record {
              holds = λ u h q.
                  delete-removed files f.storage_path q v.disk h
                  ∙ elim (Bool-cases (str_eq f.storage_path q)) [
                    | inl e ↦
                        let p : f.storage_path ≡ q = (eq_iff f.storage_path q).0 e in
                        let at : path_of files uuid command ≡ q =
                          sym (ap (λ (g : SavedFile). g.storage_path) same) ∙ p in
                        rw e (sym fresh ∙ ap s.disk at)
                    | inr e ↦
                        let ne : q ≢ path_of files uuid command = λ p.
                          let back : str_eq f.storage_path q ≡ true =
                            (eq_iff f.storage_path q).1
                              (ap (λ (g : SavedFile). g.storage_path) same ∙ sym p) in
                          cc in
                        rw e (ap (λ (w : Server js). w.disk q) here ∙ others q ne)
                  ];
            })
            λ u v k. Returns-at r v refl (inr (old, k))

  store-Outcome :
      (command : CreateImportCommand) (s : Server js)
      → s.disk (path_of files uuid command) ≡ none
      → Returns
          (store ports max_upload_bytes command (extract_extension command.original_filename))
          s
          (Came command s)
  unfolding store discard
  store-Outcome command s fresh =
      Returns-bind
        (λ (f : SavedFile) (t : Server js).
          (f ≡ saved_file files source uuid command)
          × (t.world ≡ s.world)
          × Uploaded command s t.disk)
        (save-IsUploaded command s fresh)
        λ f t (same, world, up).
          Returns-bind (λ u v. v ≡ t) (Returns-at tt t refl refl)
            λ u v here.
              Returns-bind
                (λ (r : CreateImportResult) (u : Server js).
                  Uploaded command s u.disk
                  × (r.is_new ≡ true
                      → Created (input command s) s.world.tables r.import_record u.world.tables))
                (Returns-weaken
                  (λ r u (disk, made). (
                    subst (Uploaded command s) (sym (disk ∙ ap (λ (w : Server js). w.disk) here))
                        up,
                    made,
                  ))
                  (register-Created command s v f same
                    (ap (λ (w : Server js). w.world) here ∙ world)))
                λ r u (there, made).
                  keep_upload-Outcome command s u r.is_new f r fresh same refl there made

  checked :
      (extension mime_type : Text) (s : Server js)
      → Returns
          (assert_allowed_file_type ports max_upload_bytes extension mime_type)
          s
          (λ u t. (is_allowed extension mime_type ≡ true) × (t ≡ s))
  unfolding assert_allowed_file_type
  checked extension mime_type s = elim (Bool-cases (is_allowed extension mime_type)) [
    | inl allowed ↦ Returns-at tt s (rw (allowed, assert_allowed_file_type)) (allowed, refl)
    | inr refused ↦
        Returns-err (domain (invalid_file_type (received extension mime_type)) plain) s
          (rw (refused, assert_allowed_file_type))
  ]

  -- A creation over the disk storage and the import repository, whose upload gets a path that is
  -- not in use: where it returns, the upload had a file of an allowed extension and media type.
  -- Either the import is new, and has been created with its key, its job and a file row of the
  -- path, the size and the digest of the upload, which is within the bound and on the disk under
  -- that path byte for byte; or it is not new and every path of the disk is as before.
  pub create_import-files :
      (command : CreateImportCommand) (s : Server js) (r : CreateImportResult)
      → s.disk (path_of files uuid command) ≡ none
      → (create_import
          (server_ports files source uuid id max_upload_bytes)
          max_upload_bytes
          command
          s).0
        ≡ ok r
      → (command.has_stream ≡ true)
        × (is_allowed (extract_extension command.original_filename) command.mime_type ≡ true)
        × Outcome files source uuid id max_upload_bytes command s r
            (create_import
              (server_ports files source uuid id max_upload_bytes)
              max_upload_bytes
              command
              s).1
  unfolding create_import
  create_import-files command s r fresh h = elim (Bool-cases command.has_stream) [
    | inr refused ↦ let q = rw (refused, create_import) at h in cc
    | inl allowed ↦
        let (a, out) = (sent.holds r (rw (allowed, create_import) at h)) in
        rw (allowed, create_import) (refl, a, out)
  ]
    where
      extension : Text
      extension = extract_extension command.original_filename

      sent :
          Returns
            (assert_allowed_file_type ports max_upload_bytes extension command.mime_type
              >> store ports max_upload_bytes command extension)
            s
            (λ r t. (is_allowed extension command.mime_type ≡ true) × Came command s r t)
      sent =
          Returns-bind (λ u t. (is_allowed extension command.mime_type ≡ true) × (t ≡ s))
            (checked extension command.mime_type s)
            λ u t (a, same). record {
              holds = λ r h. (
                a,
                subst
                    (λ (z : Server js).
                      (store ports max_upload_bytes command extension z).0 ≡ ok r
                      → Came command s r (store ports max_upload_bytes command extension z).1)
                    (sym same) (λ h. (store-Outcome command s fresh).holds r h) h,
              );
            }
