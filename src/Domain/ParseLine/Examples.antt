-- ===== src/Domain/ParseLine/Examples.antt =====
-- A line at a concrete text.
use high_throughput_transact.Base.{[], ◌∷◌}
use high_throughput_transact.Js.Strings.{trim}
use high_throughput_transact.Js.Sample.{sample_js}
use high_throughput_transact.Domain.ParseLine.{parse_ndjson_line}
use high_throughput_transact.Domain.ParseLine.Outcomes.{Explains, parse_ndjson_line-Explains}

parse_ndjson_line-Explains_example :
    Explains sample_js
      (trim (32 ∷ 123 ∷ 125 ∷ 32 ∷ []))
      4
      (parse_ndjson_line sample_js (32 ∷ 123 ∷ 125 ∷ 32 ∷ []) 4)
parse_ndjson_line-Explains_example =
    parse_ndjson_line-Explains sample_js (32 ∷ 123 ∷ 125 ∷ 32 ∷ []) 4
