-- ===== src/Observability/MetricsRecorder.antt =====
-- src/infrastructure/observability/prometheus-metrics-recorder.ts. `prom-client` is not modelled: the recorder keeps
-- the metrics that it has registered, and the calls that it makes of them.
pub mod Labels
mod Examples
use high_throughput_transact.Base.{
  ℕ, zero, suc, String, str_eq, Bool, true, false, ◌&&◌, ◌||◌, none, some, List, [], ◌∷◌, leb, ◌==◌,
  if◌then◌else◌, any, ok, pure, throw, ◌>>◌,
}
use high_throughput_transact.Js.Strings.{Text}
use high_throughput_transact.Domain.Errors.{Attempt, Thrown, object, plain}

abbrev pub forbidden_label_names : List String
forbidden_label_names =
    "import_id" ∷ "importId" ∷ "transaction_id" ∷ "transactionId" ∷ "request_id" ∷ "requestId"
    ∷ "merchant_id" ∷ "merchantId" ∷ "account_id" ∷ "accountId" ∷ "id" ∷ "fingerprint"
    ∷ "idempotency_key" ∷ "user_id" ∷ "file_path" ∷ "storage_path" ∷ []

abbrev pub is_hex : ℕ → Bool
is_hex c = (leb 48 c && leb c 57) || (leb 65 c && leb c 70) || (leb 97 c && leb c 102)

-- `UUID_PATTERN`, by the lengths of its groups of hexadecimal digits.
unfoldable pub matches_groups : ℕ → List ℕ → Text → Bool
matches_groups zero [] [] = true
matches_groups zero [] (c ∷ s) = false
matches_groups zero (g ∷ gs) [] = false
matches_groups zero (g ∷ gs) (c ∷ s) = c == 45 && matches_groups g gs s
matches_groups (suc n) gs [] = false
matches_groups (suc n) gs (c ∷ s) = is_hex c && matches_groups n gs s

unfoldable pub is_uuid : Text → Bool
unfolding matches_groups
is_uuid = matches_groups 8 (4 ∷ 4 ∷ 4 ∷ 12 ∷ [])

abbrev pub Labels : Type 0
Labels = List (String × Text)

pub data MetricKind : Type 0 where
  counter_kind histogram_kind gauge_kind : MetricKind

-- A metric as it is registered, and a call of `inc`, `observe` or `set`. Values are in the unit of
-- the caller.
pub record Metric : Type 0 where
  pub kind : MetricKind
  pub name : String
  pub label_names : List String

pub record Sample : Type 0 where
  pub kind : MetricKind
  pub name : String
  pub labels : Labels
  pub value : ℕ

pub record Recorder : Type 0 where
  pub metrics : List Metric
  pub samples : List Sample

abbrev metric : MetricKind → String → List String → Metric
metric kind name label_names = record { kind = kind; name = name; label_names = label_names }

-- `registerAll`
abbrev pub all_metrics : List Metric
all_metrics =
    metric counter_kind "imports_created_total" ("outcome" ∷ [])
    ∷ metric counter_kind "imports_completed_total" ("status" ∷ [])
    ∷ metric counter_kind "records_processed_total" []
    ∷ metric counter_kind "records_rejected_total" ("error_code" ∷ [])
    ∷ metric counter_kind "records_duplicate_total" []
    ∷ metric counter_kind "retry_attempts_total" ("operation" ∷ [])
    ∷ metric histogram_kind "batch_persist_duration_seconds" []
    ∷ metric histogram_kind "scoring_batch_duration_seconds" []
    ∷ metric gauge_kind "active_imports" []
    ∷ metric gauge_kind "job_queue_depth" ("status" ∷ [])
    ∷ metric gauge_kind "event_loop_delay_p99_ms" []
    ∷ metric gauge_kind "event_loop_delay_mean_ms" []
    ∷ metric gauge_kind "event_loop_delay_max_ms" []
    ∷ metric gauge_kind "process_memory_bytes" ("type" ∷ [])
    ∷ metric gauge_kind "process_cpu_micros" ("mode" ∷ [])
    ∷ metric gauge_kind "persist_queue_depth" []
    ∷ metric counter_kind "backpressure_waits_total" []
    ∷ metric gauge_kind "event_loop_utilization" []
    ∷ []

unfoldable pub on_module_init : Recorder
on_module_init = record { metrics = all_metrics; samples = [] }

abbrev pub is_forbidden : String → Bool
is_forbidden name = any (str_eq name) forbidden_label_names

abbrev pub refusal : String → Thrown
refusal message = object none none (some message) plain

-- `assertBoundedLabels`; the texts of the errors are cut to their beginnings.
unfoldable pub assert_bounded_labels : Labels → Attempt Recorder (Unit {0})
unfolding is_uuid
assert_bounded_labels [] = pure tt
assert_bounded_labels ((key, value) ∷ labels) =
    let rest = assert_bounded_labels labels in
    if is_forbidden key
    then throw (refusal "Metric used forbidden high-cardinality label")
    else if is_uuid value
    then throw (refusal "Metric label received a UUID-shaped value.")
    else rest

abbrev pub same_kind : MetricKind → MetricKind → Bool
same_kind counter_kind k = elim k [ counter_kind ↦ true | _ ↦ false ]
same_kind histogram_kind k = elim k [ histogram_kind ↦ true | _ ↦ false ]
same_kind gauge_kind k = elim k [ gauge_kind ↦ true | _ ↦ false ]

-- `this.counters.get(name)?.inc(labels, value)`, and so for the other two maps.
unfoldable pub hand_on : MetricKind → String → Labels → ℕ → Recorder → Recorder
hand_on kind name labels value r =
    if any (λ (m : Metric). same_kind m.kind kind && str_eq m.name name) r.metrics
    then record r {
      samples = record { kind = kind; name = name; labels = labels; value = value } ∷ r.samples;
    }
    else r

unfoldable pub record_sample : MetricKind → String → Labels → ℕ → Attempt Recorder (Unit {0})
unfolding assert_bounded_labels hand_on
record_sample kind name labels value =
    assert_bounded_labels labels >> λ r. (ok tt, hand_on kind name labels value r)

unfoldable pub increment_counter : String → Labels → ℕ → Attempt Recorder (Unit {0})
unfolding record_sample
increment_counter name labels value = record_sample counter_kind name labels value

unfoldable pub observe_histogram : String → ℕ → Labels → Attempt Recorder (Unit {0})
unfolding record_sample
observe_histogram name value labels = record_sample histogram_kind name labels value

unfoldable pub set_gauge : String → ℕ → Labels → Attempt Recorder (Unit {0})
unfolding record_sample
set_gauge name value labels = record_sample gauge_kind name labels value

-- The calls of the program.
pub data Step (r : Recorder) : Recorder → Type 0 where
  increments :
      (name : String) (labels : Labels) (value : ℕ)
      → Step r (increment_counter name labels value r).1
  observes :
      (name : String) (value : ℕ) (labels : Labels)
      → Step r (observe_histogram name value labels r).1
  sets : (name : String) (value : ℕ) (labels : Labels) → Step r (set_gauge name value labels r).1

pub data Steps (r : Recorder) : Recorder → Type 0 where
  here : Steps r r
  next : {s t : Recorder} → Steps r s → Step s t → Steps r t
