-- ===== src/Concurrency/WorkerThreadPool/Examples.antt =====
-- A pool of one worker: call 7 is dispatched, call 8 waits.
use high_throughput_transact.Base.{ℕ, ◌≤◌, ◌≡◌, refl, ◌⊎◌, true, [], ◌∷◌, arith, length}
use high_throughput_transact.Concurrency.WorkerThreadPool.{
  WorkerThreadPool, on_module_init, score_batch, begin_shutdown, end_shutdown, dispatch_slots,
  calls, shuts_down, Steps, here, next,
}
use high_throughput_transact.Concurrency.WorkerThreadPool.Slots.{count, running}
use high_throughput_transact.Concurrency.WorkerThreadPool.Handlers.{answered, known, Saturated}
use high_throughput_transact.Concurrency.WorkerThreadPool.Answers.{pool_tracks_calls}
use high_throughput_transact.Concurrency.WorkerThreadPool.Lost.{shutdown_forgets_running}

abbrev crowded : WorkerThreadPool ℕ ℕ
crowded = score_batch 8 (2 ∷ []) (score_batch 7 (1 ∷ []) (on_module_init 1))

abbrev crowded_Steps : Steps (on_module_init 1) crowded
unfolding on_module_init score_batch dispatch_slots
crowded_Steps = next (next here (calls 7 (1 ∷ []) refl)) (calls 8 (2 ∷ []) refl)

pool_tracks_calls_example :
    (known 8 crowded ≤ count 8 crowded.called)
    × (count 8 crowded.called ≤ 1)
    × ((crowded.shutting_down ≡ true)
        ⊎ ((known 8 crowded ≡ count 8 crowded.called)
            × (length crowded.slots ≡ 1)
            × Saturated crowded))
pool_tracks_calls_example = pool_tracks_calls 1 8 crowded_Steps

abbrev closing : WorkerThreadPool ℕ ℕ
closing = begin_shutdown crowded

shutdown_forgets_running_example : answered 7 (end_shutdown closing).answers ≡ 0
unfolding on_module_init score_batch dispatch_slots begin_shutdown running
shutdown_forgets_running_example =
    shutdown_forgets_running 1 7 (next crowded_Steps shuts_down) refl (omega arith) here
