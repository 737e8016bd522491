-- ===== src/Http/ImportController/Examples.antt =====
-- An upload under a key.
use high_throughput_transact.Base.{ℕ, ◌+◌, ◌≡◌, ◌⊎◌, true, none, String, [], ok}
use high_throughput_transact.Js.Strings.{units}
use high_throughput_transact.Database.Sample.{an_import}
use high_throughput_transact.Imports.Creation.{UploadPorts}
use high_throughput_transact.Http.ImportController.{single, FilePart, part, UploadRequest, create}
use high_throughput_transact.Http.ImportController.Guards.{IsUpload, Refused, answer, create_guards}

abbrev ports : UploadPorts ℕ
ports = record {
  save = λ extension limit s. (ok (record { storage_path = "f"; size = 1; checksum = [] }), s + 1);
  delete = λ path s. (ok tt, s);
  create_import = λ input s. (ok (record { import_record = an_import; is_new = true }), s + 1);
  generate_id = λ s. (s, s);
  now = λ s. 0;
  info = λ text s. s;
}

abbrev upload : UploadRequest
upload = record {
  idempotency_key = single "k";
  is_multipart = true;
  content_encoding = none;
  file = part (record {
    fieldname = units "file";
    filename = units "a.ndjson";
    mimetype = units "application/x-ndjson";
  });
}

create_guards_example :
    ((key : String) × (p : FilePart) × IsUpload upload key p
      × (create ports 100 upload 5 ≡ answer ports 100 key p 5))
    ⊎ Refused 5 (create ports 100 upload 5)
create_guards_example = create_guards ports 100 upload 5
