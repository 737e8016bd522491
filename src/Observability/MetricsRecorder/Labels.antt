-- ===== src/Observability/MetricsRecorder/Labels.antt =====
-- Which labels reach the metrics.
use high_throughput_transact.Base.{
  ℕ, ◌≡◌, refl, sym, subst, ◌⊎◌, inl, inr, String, str_eq, Bool, true, false, not, ◌&&◌, List, [],
  ◌∷◌, Bool-cases, if_true, if_false, any, all, All, ok, err, bind_at, bind_err,
}
use high_throughput_transact.Js.Strings.{Text}
use high_throughput_transact.Domain.Errors.{Thrown}
use high_throughput_transact.Observability.MetricsRecorder.{
  MetricKind, counter_kind, histogram_kind, gauge_kind, Metric, Sample, Recorder, Labels,
  on_module_init, all_metrics, is_forbidden, is_uuid, assert_bounded_labels, same_kind, hand_on,
  record_sample, increment_counter, observe_histogram, set_gauge, increments, observes, sets, Steps,
  here, next,
}

-- No forbidden name, and no value in the shape of a UUID.
abbrev pub bounded : Labels → Bool
bounded = all (λ (l : String × Text). not (is_forbidden l.0) && not (is_uuid l.1))

abbrev pub is_registered : List Metric → MetricKind → String → Bool
is_registered metrics kind name =
    any (λ (m : Metric). same_kind m.kind kind && str_eq m.name name) metrics

assert_bounded_labels-cases :
    (labels : Labels) (r : Recorder)
    → ((bounded labels ≡ true) × (assert_bounded_labels labels r ≡ (ok tt, r)))
      ⊎ ((bounded labels ≡ false) × ((e : Thrown) × (assert_bounded_labels labels r ≡ (err e, r))))
unfolding assert_bounded_labels
assert_bounded_labels-cases [] r = inl (refl, refl)
assert_bounded_labels-cases ((key, value) ∷ labels) r = elim (Bool-cases (is_forbidden key)) [
  | inl f ↦ rw f (inr (refl, (_, refl)))
  | inr f ↦ elim (Bool-cases (is_uuid value)) [
    | inl u ↦ rw (f, u) (inr (refl, (_, refl)))
    | inr u ↦ rw (f, u) (assert_bounded_labels-cases labels r)
  ]
]

-- A call hands its sample on, or it throws and changes nothing.
record_sample-cases :
    (kind : MetricKind) (name : String) (labels : Labels) (value : ℕ) (r : Recorder)
    → ((bounded labels ≡ true)
        × (record_sample kind name labels value r ≡ (ok tt, hand_on kind name labels value r)))
      ⊎ ((bounded labels ≡ false)
          × ((e : Thrown) × (record_sample kind name labels value r ≡ (err e, r))))
unfolding record_sample
record_sample-cases kind name labels value r = elim (assert_bounded_labels-cases labels r) [
  | inl (b, e) ↦ inl (
    b,
    bind_at (assert_bounded_labels labels) (λ _ r. (ok tt, hand_on kind name labels value r)) r e,
  )
  | inr (b, (x, e)) ↦ inr (
    b,
    (
      x,
      bind_err (assert_bounded_labels labels) (λ _ r. (ok tt, hand_on kind name labels value r)) r
          e,
    ),
  )
]

-- Of all that was handed on: the labels are bounded and the metric is registered.
abbrev pub Sound : Recorder → Type 0
Sound r =
    All
      (λ (s : Sample). (bounded s.labels ≡ true) × (is_registered all_metrics s.kind s.name ≡ true))
      r.samples

record Inv (r : Recorder) : Type 0 where
  registered : r.metrics ≡ all_metrics
  sound : Sound r

hand_on-Inv :
    (kind : MetricKind) (name : String) (labels : Labels) (value : ℕ) (r : Recorder)
    → bounded labels ≡ true
    → Inv r
    → Inv (hand_on kind name labels value r)
unfolding hand_on
hand_on-Inv kind name labels value r b v = elim (Bool-cases (is_registered r.metrics kind name)) [
  | inl e ↦ subst Inv (sym (if_true (is_registered r.metrics kind name) r e)) (record {
    registered = v.registered;
    sound = ((b, subst (λ ms. is_registered ms kind name ≡ true) v.registered e), v.sound);
  })
  | inr e ↦ subst Inv (sym (if_false (is_registered r.metrics kind name) _ e)) v
]

record_sample-Inv :
    (kind : MetricKind) (name : String) (labels : Labels) (value : ℕ) (r : Recorder)
    → Inv r
    → Inv (record_sample kind name labels value r).1
record_sample-Inv kind name labels value r v = elim (record_sample-cases kind name labels value r) [
  | inl (b, e) ↦ rw e (hand_on-Inv kind name labels value r b v)
  | inr (b, (x, e)) ↦ rw e v
]

Steps-Inv : {r : Recorder} → Steps on_module_init r → Inv r
unfolding on_module_init increment_counter observe_histogram set_gauge
Steps-Inv here = record { registered = refl; sound = tt }
Steps-Inv (next {s} st (increments name labels value)) =
    record_sample-Inv counter_kind name labels value s (Steps-Inv st)
Steps-Inv (next {s} st (observes name value labels)) =
    record_sample-Inv histogram_kind name labels value s (Steps-Inv st)
Steps-Inv (next {s} st (sets name value labels)) =
    record_sample-Inv gauge_kind name labels value s (Steps-Inv st)

-- However the recorder is used, every sample that it hands on is of a registered metric, and no
-- label of it has a forbidden name or a value in the shape of a UUID; and a call of a counter
-- with other labels throws and changes nothing.
pub samples_bounded :
    {r : Recorder} (name : String) (labels : Labels) (value : ℕ)
    → Steps on_module_init r
    → Sound r
      × ((bounded labels ≡ true)
          ⊎ ((e : Thrown) × (increment_counter name labels value r ≡ (err e, r))))
unfolding increment_counter
samples_bounded {r} name labels value st = (
  (Steps-Inv st).sound,
  elim (record_sample-cases counter_kind name labels value r) [
    | inl (b, e) ↦ inl b
    | inr (b, refused) ↦ inr refused
  ],
)
