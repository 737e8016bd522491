-- ===== src/Observability/LogSanitizer/Examples.antt =====
-- A value with a line feed in it.
use high_throughput_transact.Base.{◌≡◌, true, not, [], ◌∷◌, all}
use high_throughput_transact.Js.Strings.{is_control}
use high_throughput_transact.Observability.LogSanitizer.{LogValue, text, sanitize_for_log}
use high_throughput_transact.Observability.LogSanitizer.Clean.{Bounded, sanitize_for_log-clean}

abbrev forged : LogValue
forged = text (111 ∷ 107 ∷ 13 ∷ 10 ∷ 27 ∷ 120 ∷ [])

sanitize_for_log-clean_example :
    (all (λ c. not (is_control c)) (sanitize_for_log forged) ≡ true)
    × Bounded (sanitize_for_log forged)
sanitize_for_log-clean_example = sanitize_for_log-clean forged
