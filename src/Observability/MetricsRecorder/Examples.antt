-- ===== src/Observability/MetricsRecorder/Examples.antt =====
-- A sample of a rejected record, and a label that names an import.
use high_throughput_transact.Base.{◌≡◌, true, ◌⊎◌, [], ◌∷◌, err}
use high_throughput_transact.Js.Strings.{units}
use high_throughput_transact.Domain.Errors.{Thrown}
use high_throughput_transact.Observability.MetricsRecorder.{
  Recorder, Labels, on_module_init, increment_counter, increments, here, next,
}
use high_throughput_transact.Observability.MetricsRecorder.Labels.{Sound, bounded, samples_bounded}

abbrev rejected_one : Recorder
rejected_one =
    (increment_counter "records_rejected_total" (("error_code", units "INVALID_JSON") ∷ []) 1
      on_module_init).1

abbrev import_label : Labels
import_label = ("import_id", units "7") ∷ []

samples_bounded_example :
    Sound rejected_one
    × ((bounded import_label ≡ true)
        ⊎ ((e : Thrown) × (increment_counter "records_processed_total" import_label 1 rejected_one
              ≡ (err e, rejected_one))))
samples_bounded_example =
    samples_bounded "records_processed_total" import_label 1 (
      next here (increments "records_rejected_total" (("error_code", units "INVALID_JSON") ∷ []) 1))
