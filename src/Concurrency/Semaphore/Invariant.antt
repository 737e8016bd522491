-- ===== src/Concurrency/Semaphore/Invariant.antt =====
-- How many callers run at once, who runs next, and that no permit is lost.
use high_throughput_transact.Base.{ltb, ltb→lt, Bool-cases, ◌⊎◌, inl, inr, ap}
use high_throughput_transact.Base.{
  ℕ, ◌+◌, ◌≤◌, ◌<◌, ◌≡◌, refl, true, some, List, [], ◌∷◌, ◌++◌, arith, length, length-append, elem,
}
use mathlib.Core.List.{append-nil, append_assoc}
use high_throughput_transact.Concurrency.Semaphore.{
  Semaphore, create, hand_on, in_flight, queue_depth, System, start, begin_run, end_run, remove,
  begins, ends, Steps, here, next,
}

pub record Inv (limit : ℕ) (y : System) : Type 0 where
  pub fixed : y.semaphore.limit ≡ limit
  pub counted : length y.running + y.semaphore.available ≡ y.semaphore.limit
  pub no_idle_permit : 0 < y.semaphore.available → y.semaphore.waiters ≡ []
  pub in_order : y.let_in ++ y.semaphore.waiters ≡ y.arrived

length-remove : (a : ℕ) (xs : List ℕ) → elem a xs ≡ true → length (remove a xs) + 1 ≡ length xs
unfolding remove
length-remove a [] h = cc
length-remove a (x ∷ xs) h = ground (arith, length-remove a xs)

begin_run-Inv : {limit : ℕ} (caller : ℕ) (y : System) → Inv limit y → Inv limit (begin_run caller y)
unfolding begin_run
begin_run-Inv caller y v =
    let last = caller ∷ [] in
    ground (
      arith,
      length-append y.running last,
      append-nil y.let_in,
      append-nil (y.let_in ++ last),
      append_assoc y.let_in y.semaphore.waiters last,
    )

end_run-Inv :
    {limit : ℕ} (caller : ℕ) (y : System)
    → elem caller y.running ≡ true
    → Inv limit y
    → Inv limit (end_run caller y)
unfolding end_run hand_on
end_run-Inv {limit} caller y h v = go y.semaphore.waiters refl
  where
    go : (ws : List ℕ) → y.semaphore.waiters ≡ ws → Inv limit (end_run caller y)
    go [] e = ground (arith, length-remove caller y.running h)
    go (w ∷ ws) e = ground (
      arith,
      length-remove caller y.running h,
      length-append (remove caller y.running) (w ∷ []),
      append_assoc y.let_in (w ∷ []) ws,
    )

Steps-Inv : {limit : ℕ} {y z : System} → Steps y z → Inv limit y → Inv limit z
Steps-Inv here v = v
Steps-Inv (next {z = z} r (begins caller)) v = begin_run-Inv caller z (Steps-Inv r v)
Steps-Inv (next {z = z} r (ends caller h)) v = end_run-Inv caller z h (Steps-Inv r v)

full :
    {limit : ℕ} (y : System)
    → Inv limit y
    → (queue_depth y.semaphore ≡ 0) ⊎ (in_flight y.semaphore ≡ limit)
unfolding queue_depth in_flight
full y v = elim (Bool-cases (ltb 0 y.semaphore.available)) [
  | inl free ↦ inl (ap length (v.no_idle_permit (ltb→lt 0 y.semaphore.available free)))
  | inr taken ↦ inr (ground (arith, v.fixed))
]

-- In every state that a new semaphore reaches, the number of callers that run is `in_flight` and
-- at most the limit, nobody waits while a permit is free, and the callers are let in in the order
-- in which they came: those let in and then those who wait are all who came.
pub semaphore_bounded :
    (limit : ℕ) {s : Semaphore} {y : System}
    → create limit ≡ some s
    → Steps (start s) y
    → (in_flight y.semaphore ≡ length y.running)
      × (length y.running ≤ limit)
      × ((queue_depth y.semaphore ≡ 0) ⊎ (in_flight y.semaphore ≡ limit))
      × (y.let_in ++ y.semaphore.waiters ≡ y.arrived)
unfolding create in_flight queue_depth
semaphore_bounded limit {s} {y} e r =
    let v : Inv limit y = Steps-Inv r (ground arith) in
    (ground arith, ground arith, full y v, v.in_order)
