-- ===== src/SemiasyncQueue/Order.antt =====
-- No job is lost, doubled or overtaken, whatever the workers do in between.
use ds2i.Base.{
  ℕ, zero, suc, ◌≤◌, ◌≡◌, ap, refl, ◌∙◌, List, [], ◌∷◌, ◌++◌, length, subst, append_assoc,
  append-nil, arith, ◌==◌, leb, true, false, Bool, if◌then◌else◌,
}
use ds2i.SemiasyncQueue.{
  prepared, committed, Thread, Queue, join_front, commit_thread, start_thread, spawn_next_thread,
  enqueue, add_job, commit_all, complete, prepare_front, prepare_next, prepares, act, is_empty,
}
use ds2i.SemiasyncQueue.Lists.{
  committed_jobs, batches, committed_jobs-append, committed_jobs-join, batches-append,
}

module _ {Job : Type 0} where
  -- All jobs that the queue knows of: committed, in a thread, waiting.
  abbrev pub known_jobs : Queue Job → List Job
  known_jobs q = committed_jobs q.log ++ (batches q.running_threads ++ q.next_thread)

  -- At most `max_threads` threads run, and a queue with none keeps no job waiting.
  abbrev pub IsValid : Queue Job → Type 0
  IsValid q = (length q.running_threads ≤ q.max_threads) × (q.max_threads ≡ 0 → q.next_thread ≡ [])

  known_jobs-join_front :
      (ts : List (Thread Job)) (q : Queue Job)
      → known_jobs (join_front ts q) ≡ committed_jobs q.log ++ (batches ts ++ q.next_thread)
  unfolding join_front
  known_jobs-join_front [] q = refl
  known_jobs-join_front (t ∷ ts) q = simp (committed_jobs-join, append_assoc)

  pub known_jobs-commit_thread : (q : Queue Job) → known_jobs (commit_thread q) ≡ known_jobs q
  unfolding commit_thread
  known_jobs-commit_thread q = known_jobs-join_front q.running_threads q

  known_jobs-start_thread : (q : Queue Job) → known_jobs (start_thread q) ≡ known_jobs q
  unfolding start_thread
  known_jobs-start_thread q = simp (batches-append, append-nil)

  pub known_jobs-spawn_next_thread :
      (q : Queue Job) → known_jobs (spawn_next_thread q) ≡ known_jobs q
  unfolding spawn_next_thread
  known_jobs-spawn_next_thread q = by_room (length q.running_threads == q.max_threads)
    where
      by_room :
          (b : Bool) → known_jobs (start_thread (if b then commit_thread q else q)) ≡ known_jobs q
      by_room true = known_jobs-start_thread (commit_thread q) ∙ known_jobs-commit_thread q
      by_room false = known_jobs-start_thread q

  pub known_jobs-commit_all : (n : ℕ) (q : Queue Job) → known_jobs (commit_all n q) ≡ known_jobs q
  unfolding commit_all
  known_jobs-commit_all zero q = refl
  known_jobs-commit_all (suc n) q =
      known_jobs-commit_all n (commit_thread q) ∙ known_jobs-commit_thread q

  pub known_jobs-complete : (q : Queue Job) → known_jobs (complete q) ≡ known_jobs q
  unfolding complete
  known_jobs-complete q = by_next (is_empty q.next_thread)
    where
      by_next :
          (b : Bool)
          → known_jobs (
              if b
              then q
              else commit_all (length (spawn_next_thread q).running_threads) (spawn_next_thread q))
            ≡ known_jobs q
      by_next true = refl
      by_next false =
          known_jobs-commit_all (length (spawn_next_thread q).running_threads) (spawn_next_thread q)
          ∙ known_jobs-spawn_next_thread q

  known_jobs-prepare_front :
      (js : List Job) (t : Thread Job) (ts : List (Thread Job)) (q : Queue Job)
      → (committed_jobs (prepare_front js t ts q).log ≡ committed_jobs q.log)
        × (batches (prepare_front js t ts q).running_threads ≡ t.batch ++ batches ts)
        × ((prepare_front js t ts q).next_thread ≡ q.next_thread)
  unfolding prepare_front
  known_jobs-prepare_front [] t ts q = (refl, refl, refl)
  known_jobs-prepare_front (j ∷ js) t ts q = (simp (committed_jobs-append, append-nil), refl, refl)

  known_jobs-prepare_next :
      (i : ℕ) (ts : List (Thread Job)) (q : Queue Job)
      → (committed_jobs (prepare_next i ts q).log ≡ committed_jobs q.log)
        × (batches (prepare_next i ts q).running_threads ≡ batches ts)
        × ((prepare_next i ts q).next_thread ≡ q.next_thread)
  unfolding prepare_next
  known_jobs-prepare_next i [] q = (refl, refl, refl)
  known_jobs-prepare_next zero (t ∷ ts) q = known_jobs-prepare_front t.pending t ts q
  known_jobs-prepare_next (suc i) (t ∷ ts) q =
      let h = known_jobs-prepare_next i ts q in (h.0, ap (◌++◌ t.batch) h.1, h.2)

  known_jobs-enqueue :
      (j : Job) (work : ℕ) (q : Queue Job)
      → known_jobs (enqueue j work q) ≡ known_jobs q ++ (j ∷ [])
  unfolding enqueue
  known_jobs-enqueue j work q = simp (append_assoc)

  idle_threads : (ts : List (Thread Job)) → length ts ≤ 0 → batches ts ≡ []
  idle_threads [] h = refl
  idle_threads (t ∷ ts) h = absurd (omega arith)

  pub known_jobs-add_job :
      (j : Job) (work : ℕ) (q : Queue Job)
      → IsValid q
      → known_jobs (add_job j work q) ≡ known_jobs q ++ (j ∷ [])
  unfolding add_job
  known_jobs-add_job j work q wf = by_mode (q.max_threads == 0) refl
    where
      q' : Queue Job
      q' = enqueue j work q

      by_work :
          (c : Bool)
          → known_jobs (if c then spawn_next_thread q' else q') ≡ known_jobs q ++ (j ∷ [])
      by_work true = known_jobs-spawn_next_thread q' ∙ known_jobs-enqueue j work q
      by_work false = known_jobs-enqueue j work q

      in_main :
          q.max_threads ≡ 0
          → known_jobs (record q { log = q.log ++ (prepared j ∷ committed j ∷ []) })
            ≡ known_jobs q ++ (j ∷ [])
      in_main e =
          rw
            (
              committed_jobs-append q.log (prepared j ∷ committed j ∷ []),
              wf.1 e,
              idle_threads q.running_threads
                  (subst (λ (m : ℕ). length q.running_threads ≤ m) e wf.0),
            )
            (simp (append-nil))

      by_mode :
          (b : Bool)
          → (q.max_threads == 0) ≡ b
          → known_jobs (
              if b
              then record q { log = q.log ++ (prepared j ∷ committed j ∷ []) }
              else if leb q.work_per_thread q'.expected_work
              then spawn_next_thread q'
              else q')
            ≡ known_jobs q ++ (j ∷ [])
      by_mode true e = in_main (ground (arith, e))
      by_mode false e = by_work (leb q.work_per_thread q'.expected_work)

  pub known_jobs-act-prepares :
      (i : ℕ) (q : Queue Job) → known_jobs (act (prepares i) q) ≡ known_jobs q
  unfolding act
  known_jobs-act-prepares i q =
      let h = known_jobs-prepare_next i q.running_threads q in rw (h.0, h.1, h.2)
