-- ===== src/SemiasyncQueue/Bounds.antt =====
-- The number of running threads, and the mode with no worker thread.
use ds2i.Base.{
  ℕ, zero, suc, ◌-◌, ◌≤◌, ◌≡◌, ◌≢◌, ap, sym, refl, ◌∙◌, List, [], ◌∷◌, ◌++◌, length, length-append,
  arith, ◌==◌, leb, true, false, Bool, if◌then◌else◌,
}
use ds2i.SemiasyncQueue.{
  prepared, committed, Thread, Queue, join_front, commit_thread, start_thread, spawn_next_thread,
  enqueue, add_job, commit_all, complete, prepare_front, prepare_next, Action, adds, prepares,
  completes, act, is_empty,
}
use ds2i.SemiasyncQueue.Order.{IsValid}

module _ {Job : Type 0} where
  -- What an operation may do to the number of threads and the waiting jobs.
  abbrev pub Sizes : Queue Job → ℕ → List Job → ℕ → Type 0
  Sizes q n next m = (length q.running_threads ≡ n) × (q.next_thread ≡ next) × (q.max_threads ≡ m)

  Sizes-join_front :
      (ts : List (Thread Job)) (q : Queue Job)
      → Sizes (join_front ts q) (length ts - 1) q.next_thread q.max_threads
  unfolding join_front
  Sizes-join_front [] q = (refl, refl, refl)
  Sizes-join_front (t ∷ ts) q = (omega arith, refl, refl)

  pub Sizes-commit_thread :
      (q : Queue Job)
      → Sizes (commit_thread q) (length q.running_threads - 1) q.next_thread q.max_threads
  unfolding commit_thread
  Sizes-commit_thread q = Sizes-join_front q.running_threads q

  Sizes-start_thread :
      (q : Queue Job) → Sizes (start_thread q) (suc (length q.running_threads)) [] q.max_threads
  unfolding start_thread
  Sizes-start_thread q = (
    omega (
      arith,
      length-append q.running_threads
          (record { batch = q.next_thread; pending = q.next_thread } ∷ []),
    ),
    refl,
    refl,
  )

  pub spawn_next_thread-IsValid :
      (q : Queue Job)
      → length q.running_threads ≤ q.max_threads
      → q.max_threads ≢ 0
      → (length (spawn_next_thread q).running_threads ≤ q.max_threads)
        × ((spawn_next_thread q).next_thread ≡ [])
        × ((spawn_next_thread q).max_threads ≡ q.max_threads)
  unfolding spawn_next_thread
  spawn_next_thread-IsValid q h pos = by_room (length q.running_threads == q.max_threads) refl
    where
      by_room :
          (b : Bool)
          → (length q.running_threads == q.max_threads) ≡ b
          → let q' = start_thread (if b then commit_thread q else q) in
            (length q'.running_threads ≤ q.max_threads)
            × (q'.next_thread ≡ [])
            × (q'.max_threads ≡ q.max_threads)
      by_room true e =
          let s = Sizes-start_thread (commit_thread q) in
          let c = Sizes-commit_thread q in (omega (arith, s.0, c.0, h, pos), s.1, s.2 ∙ c.2)
      by_room false e = let s = Sizes-start_thread q in (ground (arith, s.0, h, e), s.1, s.2)

  pub Sizes-commit_all :
      (n : ℕ) (q : Queue Job)
      → (length (commit_all n q).running_threads ≡ length q.running_threads - n)
        × ((commit_all n q).next_thread ≡ q.next_thread)
        × ((commit_all n q).max_threads ≡ q.max_threads)
  unfolding commit_all
  Sizes-commit_all zero q = (omega arith, refl, refl)
  Sizes-commit_all (suc n) q =
      let h = Sizes-commit_all n (commit_thread q) in
      let c = Sizes-commit_thread q in (omega (arith, h.0, c.0), h.1 ∙ c.1, h.2 ∙ c.2)

  -- With no running thread allowed nothing waits, so the queue is left alone.
  complete-IsValid : (q : Queue Job) → IsValid q → IsValid (complete q)
  unfolding complete
  complete-IsValid q wf = by_next q.next_thread refl
    where
      q' : Queue Job
      q' = spawn_next_thread q

      some_threads : (j : Job) (js : List Job) → q.next_thread ≡ j ∷ js → q.max_threads ≢ 0
      some_threads j js e z = omega (arith, ap (length {A = Job}) (sym e ∙ wf.1 z))

      by_next :
          (js : List Job)
          → q.next_thread ≡ js
          → IsValid (if is_empty js then q else commit_all (length q'.running_threads) q')
      by_next [] e = wf
      by_next (j ∷ js) e =
          let s = spawn_next_thread-IsValid q wf.0 (some_threads j js e) in
          let h = Sizes-commit_all (length q'.running_threads) q' in
          (omega (arith, h.0), λ z. h.1 ∙ s.1)

  add_job-IsValid : (j : Job) (work : ℕ) (q : Queue Job) → IsValid q → IsValid (add_job j work q)
  unfolding add_job enqueue
  add_job-IsValid j work q wf = by_mode (q.max_threads == 0) refl
    where
      q' : Queue Job
      q' = enqueue j work q

      by_work : (c : Bool) → q.max_threads ≢ 0 → IsValid (if c then spawn_next_thread q' else q')
      by_work true pos =
          let s = spawn_next_thread-IsValid q' wf.0 pos in (omega (arith, s.0, s.2), λ z. s.1)
      by_work false pos = (wf.0, λ z. absurd (pos z))

      by_mode :
          (b : Bool)
          → (q.max_threads == 0) ≡ b
          → IsValid (
              if b
              then record q { log = q.log ++ (prepared j ∷ committed j ∷ []) }
              else if leb q.work_per_thread q'.expected_work
              then spawn_next_thread q'
              else q')
      by_mode true e = wf
      by_mode false e = by_work (leb q.work_per_thread q'.expected_work) (λ z. ground (arith, e, z))

  Sizes-prepare_front :
      (js : List Job) (t : Thread Job) (ts : List (Thread Job)) (q : Queue Job)
      → Sizes (prepare_front js t ts q) (suc (length ts)) q.next_thread q.max_threads
  unfolding prepare_front
  Sizes-prepare_front [] t ts q = (refl, refl, refl)
  Sizes-prepare_front (j ∷ js) t ts q = (refl, refl, refl)

  Sizes-prepare_next :
      (i : ℕ) (ts : List (Thread Job)) (q : Queue Job)
      → Sizes (prepare_next i ts q) (length ts) q.next_thread q.max_threads
  unfolding prepare_next
  Sizes-prepare_next i [] q = (refl, refl, refl)
  Sizes-prepare_next zero (t ∷ ts) q = Sizes-prepare_front t.pending t ts q
  Sizes-prepare_next (suc i) (t ∷ ts) q =
      let h = Sizes-prepare_next i ts q in (omega (arith, h.0), h.1, h.2)

  -- Every action keeps the bound, and keeps what no worker thread would take from waiting.
  pub act-IsValid : (a : Action Job) (q : Queue Job) → IsValid q → IsValid (act a q)
  unfolding act
  act-IsValid (adds j work) q wf = add_job-IsValid j work q wf
  act-IsValid (prepares i) q wf =
      let h = Sizes-prepare_next i q.running_threads q in
      (omega (arith, h.0, h.2, wf.0), λ z. h.1 ∙ wf.1 (sym h.2 ∙ z))
  act-IsValid completes q wf = complete-IsValid q wf
