-- ===== src/Database/ImportQuery/Examples.antt =====
-- Three rejected records, two of them of the import, in pages of one.
use high_throughput_transact.Base.{ℕ, ◌≡◌, ◌↔◌, none, List, [], ◌∷◌, arith, keep}
use high_throughput_transact.Domain.ParseLine.{invalid_json}
use high_throughput_transact.Database.World.{RejectedRow, line_error}
use high_throughput_transact.Database.ImportQuery.{matches}
use high_throughput_transact.Database.ImportQuery.Order.{rows_of, Rising, Unrepeated}
use high_throughput_transact.Database.ImportQuery.Members.{Among}
use high_throughput_transact.Database.ImportQuery.Paging.{read_pages, read_pages-all}

abbrev rejection : ℕ → ℕ → RejectedRow
rejection id import_id = record {
  id = id;
  import_id = import_id;
  content = record {
    line_number = 3;
    error_code = line_error invalid_json;
    message = "Unexpected token";
    raw_value_truncated = [];
  };
  created_at = 0;
}

abbrev rejections : List RejectedRow
rejections = rejection 9 1 ∷ rejection 5 2 ∷ rejection 4 1 ∷ []

rejections-Unrepeated : Unrepeated (keep (matches 1 none) rejections)
rejections-Unrepeated = ((λ e. absurd (omega arith), tt), (tt, tt))

read_pages-all_example :
    let result = read_pages 3 1 1 none rejections in
    (result ≡ rows_of 1 rejections)
    × Rising result
    × ((r : RejectedRow) → Among r result ↔ (Among r rejections × (r.import_id ≡ 1)))
read_pages-all_example =
    read_pages-all 3 1 1 rejections (omega arith) rejections-Unrepeated (omega arith)
