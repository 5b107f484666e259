-- ===== src/SemiasyncQueue/Tests.antt =====
-- Runs on small queues, whose jobs are numbers.
use ds2i.Base.{ℕ, ◌≡◌, refl, List, [], ◌∷◌, ◌++◌, arith}
use ds2i.SemiasyncQueue.{
  prepared, committed, Queue, semiasync_queue, join_front, commit_thread, start_thread,
  spawn_next_thread, enqueue, add_job, commit_all, complete, adds, prepares, completes, act, run,
  prepare_front, prepare_next,
}
use ds2i.SemiasyncQueue.Lists.{committed_jobs, batches}
use ds2i.SemiasyncQueue.Order.{IsValid, known_jobs}
use ds2i.SemiasyncQueue.Complete.{run-keeps_order, complete-commits, complete-skips_running}

-- Threads take ten units of work, and at most two run.
abbrev fresh : Queue ℕ
fresh = semiasync_queue 10 2

abbrev one_waits : Queue ℕ
one_waits = enqueue 7 3 fresh

log_of_run :
    (run
      (adds 1 10 ∷ adds 2 4 ∷ prepares 0 ∷ adds 3 6 ∷ adds 4 10 ∷ adds 5 1 ∷ completes ∷ [])
      fresh).log
    ≡ prepared 1
      ∷ committed 1
      ∷ prepared 2
      ∷ prepared 3
      ∷ committed 2
      ∷ committed 3
      ∷ prepared 4
      ∷ committed 4
      ∷ prepared 5
      ∷ committed 5
      ∷ []
unfolding semiasync_queue run act add_job enqueue spawn_next_thread start_thread commit_thread
    join_front commit_all complete prepare_next prepare_front
log_of_run = refl

run-keeps_order_example :
    IsValid (run (adds 1 10 ∷ prepares 0 ∷ adds 2 4 ∷ completes ∷ []) fresh)
    × (known_jobs (run (adds 1 10 ∷ prepares 0 ∷ adds 2 4 ∷ completes ∷ []) fresh) ≡ 1 ∷ 2 ∷ [])
unfolding semiasync_queue
run-keeps_order_example =
    run-keeps_order (adds 1 10 ∷ prepares 0 ∷ adds 2 4 ∷ completes ∷ []) fresh
      (omega arith, λ z. refl)

complete-commits_example :
    (committed_jobs (complete one_waits).log ≡ 7 ∷ [])
    × ((complete one_waits).running_threads ≡ [])
    × ((complete one_waits).next_thread ≡ [])
unfolding semiasync_queue enqueue
complete-commits_example =
    complete-commits one_waits 7 [] (omega arith, λ z. absurd (omega (arith, z))) refl

complete-skips_running_example :
    (complete (add_job 5 10 fresh) ≡ add_job 5 10 fresh)
    × ((js : List ℕ) × (batches (add_job 5 10 fresh).running_threads ≡ js ++ (5 ∷ [])))
unfolding semiasync_queue
complete-skips_running_example =
    complete-skips_running 5 10 fresh (λ z. omega (arith, z)) (omega arith, λ z. refl) (omega arith)
