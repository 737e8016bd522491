-- ===== src/Imports/Reports/Examples.antt =====
-- A client asks for 900 records of an import that has one.
use high_throughput_transact.Base.{ℕ, ◌+◌, ◌≤◌, ◌≡◌, refl, none, some, [], ◌∷◌, arith, length, ok}
use high_throughput_transact.Js.Sample.{sample_js}
use high_throughput_transact.Domain.ParseLine.{invalid_json}
use high_throughput_transact.Database.Table.{find_where}
use high_throughput_transact.Database.World.{World, line_error}
use high_throughput_transact.Database.Sample.{busy}
use high_throughput_transact.Database.ImportQuery.{RejectedRecordPage, find_page}
use high_throughput_transact.Imports.Reports.{max_page_size, get_rejected}
use high_throughput_transact.Imports.Reports.Pages.{answering, get_rejected-page}

abbrev one_rejection : World sample_js
one_rejection = record busy {
  tables = record (busy.tables) {
    rejections =
        record {
          id = 4;
          import_id = 1;
          content = record {
            line_number = 3;
            error_code = line_error invalid_json;
            message = "Unexpected token";
            raw_value_truncated = [];
          };
          created_at = 0;
        }
        ∷ [];
  };
}

get_rejected-page_example :
    (limit : ℕ) × (p : RejectedRecordPage) × (get_rejected
        (λ n. n + 1)
        1
        none
        (some 900)
        (answering one_rejection)
      ≡ (ok p, answering one_rejection))
    × (find_page 1 none limit one_rejection.tables.rejections ≡ some p)
    × (1 ≤ limit)
    × (limit ≤ max_page_size)
    × (length p.items ≤ limit)
unfolding find_where
get_rejected-page_example =
    get_rejected-page (λ n. n + 1) 1 none (some 900) one_rejection (λ x h. omega arith) refl
