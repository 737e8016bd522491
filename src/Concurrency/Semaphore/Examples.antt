-- ===== src/Concurrency/Semaphore/Examples.antt =====
-- Two callers at a semaphore of one permit.
use high_throughput_transact.Base.{◌⊎◌}
use high_throughput_transact.Base.{◌≤◌, ◌≡◌, refl, some, [], ◌++◌, length}
use high_throughput_transact.Concurrency.Semaphore.{
  Semaphore, create, System, start, begin_run, begins, Steps, here, next, in_flight, queue_depth,
}
use high_throughput_transact.Concurrency.Semaphore.Invariant.{semaphore_bounded}

abbrev one_permit : Semaphore
one_permit = record { limit = 1; available = 1; waiters = [] }

abbrev both : System
both = begin_run 8 (begin_run 7 (start one_permit))

two_callers : Steps (start one_permit) both
two_callers = next (next here (begins 7)) (begins 8)

created : create 1 ≡ some one_permit
unfolding create
created = refl

semaphore_bounded_example :
    (in_flight both.semaphore ≡ length both.running)
    × (length both.running ≤ 1)
    × ((queue_depth both.semaphore ≡ 0) ⊎ (in_flight both.semaphore ≡ 1))
    × (both.let_in ++ both.semaphore.waiters ≡ both.arrived)
semaphore_bounded_example = semaphore_bounded 1 created two_callers
