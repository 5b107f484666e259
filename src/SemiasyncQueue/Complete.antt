-- ===== src/SemiasyncQueue/Complete.antt =====
-- What `run` and `complete` leave of the jobs.
use ds2i.Base.{
  ℕ, ◌+◌, ◌≤◌, ◌≡◌, ◌≢◌, ap, sym, subst, refl, ◌∙◌, List, [], ◌∷◌, ◌++◌, length, append_assoc,
  append-nil, arith, ◌==◌, true, false, Bool, if◌then◌else◌,
}
use ds2i.SemiasyncQueue.{
  Thread, Queue, start_thread, commit_thread, spawn_next_thread, enqueue, add_job, commit_all,
  complete, Action, adds, prepares, completes, act, run, is_empty,
}
use ds2i.SemiasyncQueue.Lists.{committed_jobs, batches, batches-append}
use ds2i.SemiasyncQueue.Order.{
  IsValid, known_jobs, known_jobs-add_job, known_jobs-complete, known_jobs-act-prepares,
  known_jobs-commit_all, known_jobs-spawn_next_thread,
}
use ds2i.SemiasyncQueue.Bounds.{
  act-IsValid, Sizes-commit_all, Sizes-commit_thread, spawn_next_thread-IsValid,
}

module _ {Job : Type 0} where
  -- The jobs of the `add_job` calls.
  abbrev pub added : List (Action Job) → List Job
  added [] = []
  added (adds j work ∷ rest) = j ∷ added rest
  added (prepares i ∷ rest) = added rest
  added (completes ∷ rest) = added rest

  known_jobs-act :
      (a : Action Job) (q : Queue Job)
      → IsValid q
      → known_jobs (act a q) ≡ known_jobs q ++ added (a ∷ [])
  unfolding act
  known_jobs-act (adds j work) q wf = known_jobs-add_job j work q wf
  known_jobs-act (prepares i) q wf = known_jobs-act-prepares i q ∙ sym (append-nil (known_jobs q))
  known_jobs-act completes q wf = known_jobs-complete q ∙ sym (append-nil (known_jobs q))

  added-cons :
      (a : Action Job) (rest : List (Action Job)) → added (a ∷ rest) ≡ added (a ∷ []) ++ added rest
  added-cons (adds j work) rest = refl
  added-cons (prepares i) rest = refl
  added-cons completes rest = refl

  -- However the calls of a valid queue's owner and the steps of the threads interleave, the queue
  -- stays valid (at most `max_threads` threads run), and the committed jobs, followed by those of
  -- the running threads and by the waiting ones, are what they were, followed by the jobs of the
  -- `add_job` calls in the order of the calls: the commits keep that order, and none is doubled or skipped.
  pub run-keeps_order :
      (acts : List (Action Job)) (q : Queue Job)
      → IsValid q
      → IsValid (run acts q) × (known_jobs (run acts q) ≡ known_jobs q ++ added acts)
  unfolding run
  run-keeps_order [] q wf = (wf, sym (append-nil (known_jobs q)))
  run-keeps_order (a ∷ acts) q wf =
      let h = run-keeps_order acts (act a q) (act-IsValid a q wf) in
      (
        h.0,
        rw (h.1, known_jobs-act a q wf, added-cons a acts)
            (append_assoc (known_jobs q) (added (a ∷ [])) (added acts)),
      )

  all_joined : (ts : List (Thread Job)) → length ts ≡ 0 → ts ≡ []
  all_joined [] e = refl
  all_joined (t ∷ ts) e = absurd (omega (arith, e))

  only_committed :
      (q : Queue Job)
      → q.running_threads ≡ []
      → q.next_thread ≡ []
      → known_jobs q ≡ committed_jobs q.log
  only_committed q none_left none_waits =
      rw (none_left, none_waits) (append-nil (committed_jobs q.log))

  complete-empty : (q : Queue Job) → q.next_thread ≡ [] → complete q ≡ q
  unfolding complete
  complete-empty q e = rw (e)

  add_job-reached :
      (j : Job) (work : ℕ) (q : Queue Job)
      → q.max_threads ≢ 0
      → q.work_per_thread ≤ q.expected_work + work
      → add_job j work q ≡ spawn_next_thread (enqueue j work q)
  unfolding add_job enqueue
  add_job-reached j work q pos h = ground (arith, pos, h)

  -- When a job waits for its thread, `complete` commits all jobs of a valid queue, the running
  -- ones and then the waiting ones, and leaves the queue with no thread and no job.
  pub complete-commits :
      (q : Queue Job) (j : Job) (js : List Job)
      → IsValid q
      → q.next_thread ≡ j ∷ js
      → (committed_jobs (complete q).log ≡ known_jobs q)
        × ((complete q).running_threads ≡ [])
        × ((complete q).next_thread ≡ [])
  unfolding complete
  complete-commits q j js wf e = subst Drained (sym full) drained
    where
      q' : Queue Job
      q' = spawn_next_thread q

      all : Queue Job
      all = commit_all (length q'.running_threads) q'

      Drained : Queue Job → Type 0
      Drained r =
          (committed_jobs r.log ≡ known_jobs q) × (r.running_threads ≡ []) × (r.next_thread ≡ [])

      full : (if is_empty q.next_thread then q else all) ≡ all
      full = rw (e)

      some_threads : q.max_threads ≢ 0
      some_threads z = omega (arith, ap (length {A = Job}) (sym e ∙ wf.1 z))

      drained : Drained all
      drained =
          let s = spawn_next_thread-IsValid q wf.0 some_threads in
          let c = Sizes-commit_all (length q'.running_threads) q' in
          let none_left = all_joined all.running_threads (omega (arith, c.0)) in
          let none_waits = c.1 ∙ s.1 in
          let same =
            known_jobs-commit_all (length q'.running_threads) q' ∙ known_jobs-spawn_next_thread q in
          (sym (only_committed all none_left none_waits) ∙ same, none_left, none_waits)

  -- A thread is started for the batch that waits.
  last_batch :
      (q : Queue Job)
      → (js : List Job) × (batches (spawn_next_thread q).running_threads ≡ js ++ q.next_thread)
  unfolding spawn_next_thread start_thread
  last_batch q = by_room (length q.running_threads == q.max_threads)
    where
      started :
          (r : Queue Job)
          → batches (start_thread r).running_threads ≡ batches r.running_threads ++ r.next_thread
      started r = simp (batches-append, append-nil)

      by_room :
          (b : Bool)
          → (js : List Job) × (batches
                (start_thread (if b then commit_thread q else q)).running_threads
              ≡ js ++ q.next_thread)
      by_room true =
          let c = Sizes-commit_thread q in
          (batches (commit_thread q).running_threads, rw (started (commit_thread q), c.1))
      by_room false = (batches q.running_threads, started q)

  -- With worker threads, in a valid queue, after an `add_job` that brings the work up to
  -- `work_per_thread`, `complete` does nothing, though the added job is not committed: it stands
  -- last in the batches of the running threads.
  pub complete-skips_running :
      (j : Job) (work : ℕ) (q : Queue Job)
      → q.max_threads ≢ 0
      → IsValid q
      → q.work_per_thread ≤ q.expected_work + work
      → (complete (add_job j work q) ≡ add_job j work q)
        × ((js : List Job) × (batches (add_job j work q).running_threads ≡ js ++ (j ∷ [])))
  unfolding enqueue
  complete-skips_running j work q pos wf h = subst Skipped (sym reached) skipped
    where
      q' : Queue Job
      q' = enqueue j work q

      Skipped : Queue Job → Type 0
      Skipped r =
          (complete r ≡ r) × ((js : List Job) × (batches r.running_threads ≡ js ++ (j ∷ [])))

      reached : add_job j work q ≡ spawn_next_thread q'
      reached = add_job-reached j work q pos h

      skipped : Skipped (spawn_next_thread q')
      skipped =
          let l = last_batch q' in
          (
            complete-empty (spawn_next_thread q') (spawn_next_thread-IsValid q' wf.0 pos).1,
            (l.0 ++ q.next_thread, rw (l.1) (sym (append_assoc l.0 q.next_thread (j ∷ [])))),
          )
