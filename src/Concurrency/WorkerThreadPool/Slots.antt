-- ===== src/Concurrency/WorkerThreadPool/Slots.antt =====
-- The slots and the queue of the pool: how often a call stands in them, and what the loop of
-- `dispatch` and a change of one slot make of that.
use high_throughput_transact.Base.{
  ℕ, suc, ◌+◌, ◌≡◌, refl, sym, ap, ◌∙◌, ◌⊎◌, inl, inr, Bool, true, false, Option, none, some, List,
  [], ◌∷◌, ◌++◌, arith, ◌==◌, if◌then◌else◌, Bool-cases, length, All, all,
}
use high_throughput_transact.Database.Table.{find_where}
use high_throughput_transact.Concurrency.WorkerThreadPool.{
  PendingTask, Current, WorkerSlot, free_slot, dispatch_slots, change_slot, slot_of,
}

abbrev pub one_if : Bool → ℕ
one_if b = if b then 1 else 0

-- How often a call occurs among the calls made, in the queue, on the slots, among the answers.
unfoldable pub count : ℕ → List ℕ → ℕ
count c [] = 0
count c (x ∷ xs) = one_if (c == x) + count c xs

module _ {I : Type 0} where
  unfoldable pub queued : ℕ → List (PendingTask I) → ℕ
  queued c [] = 0
  queued c (t ∷ ts) = one_if (c == t.caller) + queued c ts

  abbrev pub held : ℕ → Option (Current I) → ℕ
  held c none = 0
  held c (some k) = one_if (c == k.task.caller)

  unfoldable pub running : ℕ → List (WorkerSlot I) → ℕ
  running c [] = 0
  running c (s ∷ ss) = held c s.current + running c ss

  abbrev pub occupied : Option (Current I) → Bool
  occupied none = false
  occupied (some k) = true

  abbrev pub Coherent : List (WorkerSlot I) → Type 0
  Coherent = All (λ (s : WorkerSlot I). s.busy ≡ occupied s.current)

  abbrev pub all_busy : List (WorkerSlot I) → Bool
  all_busy = all (λ (s : WorkerSlot I). s.busy)

  pub queued-snoc :
      (c : ℕ) (ts : List (PendingTask I)) (t : PendingTask I)
      → queued c (ts ++ t ∷ []) ≡ queued c ts + one_if (c == t.caller)
  unfolding queued
  queued-snoc c [] t = omega arith
  queued-snoc c (x ∷ ts) t = omega (arith, queued-snoc c ts t)

  held_idle :
      (c : ℕ) (s : WorkerSlot I)
      → s.busy ≡ occupied s.current
      → s.busy ≡ false
      → held c s.current ≡ 0
  held_idle c s h e = idle s.current (h' s.current refl)
    where
      h' : (o : Option (Current I)) → s.current ≡ o → occupied o ≡ false
      h' none q = refl
      h' (some k) q = cc

      idle : (o : Option (Current I)) → occupied o ≡ false → held c o ≡ 0
      idle none q = refl
      idle (some k) q = cc

  pub dispatch_slots-counts :
      (c : ℕ) (ss : List (WorkerSlot I)) (ts : List (PendingTask I)) (n : ℕ)
      → Coherent ss
      → queued c (dispatch_slots ss ts n).1 + running c (dispatch_slots ss ts n).0
        ≡ queued c ts + running c ss
  unfolding dispatch_slots queued running
  dispatch_slots-counts c [] ts n h = refl
  dispatch_slots-counts c (s ∷ ss) [] n h = refl
  dispatch_slots-counts c (s ∷ ss) (t ∷ ts) n h = elim (Bool-cases s.busy) [
    | inl b ↦ rw b (omega (arith, dispatch_slots-counts c ss (t ∷ ts) n h.1))
    | inr b ↦ rw b (omega (arith, dispatch_slots-counts c ss ts (n + 1) h.1, held_idle c s h.0 b))
  ]

  pub dispatch_slots-Coherent :
      (ss : List (WorkerSlot I)) (ts : List (PendingTask I)) (n : ℕ)
      → Coherent ss
      → Coherent (dispatch_slots ss ts n).0
  unfolding dispatch_slots
  dispatch_slots-Coherent [] ts n h = tt
  dispatch_slots-Coherent (s ∷ ss) [] n h = h
  dispatch_slots-Coherent (s ∷ ss) (t ∷ ts) n h = elim (Bool-cases s.busy) [
    | inl b ↦ simp b (sym b ∙ h.0, dispatch_slots-Coherent ss (t ∷ ts) n h.1)
    | inr b ↦ rw b (refl, dispatch_slots-Coherent ss ts (n + 1) h.1)
  ]

  pub length-dispatch_slots :
      (ss : List (WorkerSlot I)) (ts : List (PendingTask I)) (n : ℕ)
      → length (dispatch_slots ss ts n).0 ≡ length ss
  unfolding dispatch_slots
  length-dispatch_slots [] ts n = refl
  length-dispatch_slots (s ∷ ss) [] n = refl
  length-dispatch_slots (s ∷ ss) (t ∷ ts) n = elim (Bool-cases s.busy) [
    | inl b ↦ rw b (ap suc (length-dispatch_slots ss (t ∷ ts) n))
    | inr b ↦ rw b (ap suc (length-dispatch_slots ss ts (n + 1)))
  ]

  -- After the loop the queue is empty or no slot is idle.
  pub dispatch_slots-saturates :
      (ss : List (WorkerSlot I)) (ts : List (PendingTask I)) (n : ℕ)
      → ((dispatch_slots ss ts n).1 ≡ []) ⊎ (all_busy (dispatch_slots ss ts n).0 ≡ true)
  unfolding dispatch_slots
  dispatch_slots-saturates [] ts n = inr refl
  dispatch_slots-saturates (s ∷ ss) [] n = inl refl
  dispatch_slots-saturates (s ∷ ss) (t ∷ ts) n = elim (Bool-cases s.busy) [
    | inl b ↦ simp b (dispatch_slots-saturates ss (t ∷ ts) n)
    | inr b ↦ rw b (dispatch_slots-saturates ss ts (n + 1))
  ]

  pub change_slot-counts :
      (c worker : ℕ) (f : WorkerSlot I → WorkerSlot I) (ss : List (WorkerSlot I)) {s : WorkerSlot I}
      → slot_of worker ss ≡ some s
      → running c (change_slot worker f ss) + held c s.current ≡ running c ss + held c (f s).current
  unfolding change_slot slot_of find_where running
  change_slot-counts c worker f [] h = cc
  change_slot-counts c worker f (x ∷ ss) {s} h = elim (Bool-cases (x.worker == worker)) [
    | inl e ↦ let same : x ≡ s = ground arith in rw e (rw same (omega arith))
    | inr e ↦
        let ih = change_slot-counts c worker f ss {s = s} (ground arith) in rw e (omega (arith, ih))
  ]

  pub change_slot-Coherent :
      (worker : ℕ) (f : WorkerSlot I → WorkerSlot I) (ss : List (WorkerSlot I))
      → ((s : WorkerSlot I) → (f s).busy ≡ occupied (f s).current)
      → Coherent ss
      → Coherent (change_slot worker f ss)
  unfolding change_slot
  change_slot-Coherent worker f [] k h = tt
  change_slot-Coherent worker f (s ∷ ss) k h = elim (Bool-cases (s.worker == worker)) [
    | inl e ↦ rw e (k s, h.1)
    | inr e ↦ rw e (h.0, change_slot-Coherent worker f ss k h.1)
  ]

  pub length-change_slot :
      (worker : ℕ) (f : WorkerSlot I → WorkerSlot I) (ss : List (WorkerSlot I))
      → length (change_slot worker f ss) ≡ length ss
  unfolding change_slot
  length-change_slot worker f [] = refl
  length-change_slot worker f (s ∷ ss) = ground (arith, length-change_slot worker f ss)

  pub slot_of-free :
      (worker : ℕ) (ss : List (WorkerSlot I)) {s : WorkerSlot I}
      → slot_of worker ss ≡ some s
      → slot_of worker (change_slot worker free_slot ss) ≡ some (free_slot s)
  unfolding change_slot slot_of find_where free_slot
  slot_of-free worker [] h = cc
  slot_of-free worker (x ∷ ss) {s} h = elim (Bool-cases (x.worker == worker)) [
    | inl e ↦ ground arith
    | inr e ↦ let ih = slot_of-free worker ss {s = s} (ground arith) in ground arith
  ]

  pub free_slot-Coherent : (s : WorkerSlot I) → (free_slot s).busy ≡ occupied (free_slot s).current
  unfolding free_slot
  free_slot-Coherent s = refl
