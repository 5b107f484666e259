-- ===== src/SemiasyncQueue.antt =====
-- semiasync_queue.hpp: jobs are prepared by worker threads in batches, and committed by the caller.
-- A job is a value of `Job`; the calls of its two methods are the events of a log. Work is counted
-- in whole numbers, as the callers give it.
mod Lists
pub mod Order
pub mod Bounds
pub mod Complete
mod Tests
use ds2i.Base.{
  ℕ, zero, suc, ◌+◌, Bool, true, false, List, [], ◌∷◌, ◌++◌, map, leb, ◌==◌, if◌then◌else◌, length,
}

module _ (Job : Type 0) where
  -- `prepared j` and `committed j` are the calls `j->prepare()` and `j->commit()`.
  pub data Event : Type 0 where
    prepared : Job → Event
    committed : Job → Event

  -- An entry of `m_running_threads`: the batch, and what the thread has not prepared yet.
  pub record Thread : Type 0 where
    pub batch : List Job
    pub pending : List Job

  -- `next_thread` is the batch of `m_next_thread`; the running threads stand oldest first.
  pub record Queue : Type 0 where
    pub next_thread : List Job
    pub running_threads : List Thread
    pub expected_work : ℕ
    pub work_per_thread : ℕ
    pub max_threads : ℕ
    pub log : List Event

module _ {Job : Type 0} where
  -- The constructor; `worker_threads` is read from the configuration.
  pub semiasync_queue : ℕ → ℕ → Queue Job
  semiasync_queue work_per_thread worker_threads = record {
    next_thread = [];
    running_threads = [];
    expected_work = 0;
    work_per_thread = work_per_thread;
    max_threads = worker_threads;
    log = [];
  }

  -- `join` waits until the oldest thread has prepared the rest of its batch. The assertion that
  -- there is one holds in both calls.
  pub join_front : List (Thread Job) → Queue Job → Queue Job
  join_front [] q = record q { running_threads = [] }
  join_front (t ∷ rest) q = record q {
    running_threads = rest;
    log = q.log ++ (map prepared t.pending ++ map committed t.batch);
  }

  pub commit_thread : Queue Job → Queue Job
  commit_thread q = join_front q.running_threads q

  -- The swap leaves `m_next_thread` empty.
  pub start_thread : Queue Job → Queue Job
  start_thread q = record q {
    running_threads =
        q.running_threads ++ (record { batch = q.next_thread; pending = q.next_thread } ∷ []);
    next_thread = [];
    expected_work = 0;
  }

  pub spawn_next_thread : Queue Job → Queue Job
  spawn_next_thread q =
      start_thread (if length q.running_threads == q.max_threads then commit_thread q else q)

  -- The first two statements under `if (m_max_threads)`.
  pub enqueue : Job → ℕ → Queue Job → Queue Job
  enqueue j work q = record q {
    next_thread = q.next_thread ++ (j ∷ []);
    expected_work = q.expected_work + work;
  }

  pub add_job : Job → ℕ → Queue Job → Queue Job
  add_job j work q =
      let q' = enqueue j work q in
      if q.max_threads == 0
      then record q { log = q.log ++ (prepared j ∷ committed j ∷ []) }
      else if leb q.work_per_thread q'.expected_work
      then spawn_next_thread q'
      else q'

  -- `while (!m_running_threads.empty()) commit_thread();` with as many rounds as threads.
  pub commit_all : ℕ → Queue Job → Queue Job
  commit_all zero q = q
  commit_all (suc rounds) q = commit_all rounds (commit_thread q)

  abbrev is_empty : List Job → Bool
  is_empty [] = true
  is_empty (j ∷ js) = false

  pub complete : Queue Job → Queue Job
  complete q =
      let q' = spawn_next_thread q in
      if is_empty q.next_thread then q else commit_all (length q'.running_threads) q'

  -- One step of the loop that a spawned thread runs: it prepares its next job.
  pub prepare_front : List Job → Thread Job → List (Thread Job) → Queue Job → Queue Job
  prepare_front [] t ts q = record q { running_threads = t ∷ ts }
  prepare_front (j ∷ js) t ts q = record q {
    running_threads = record { batch = t.batch; pending = js } ∷ ts;
    log = q.log ++ (prepared j ∷ []);
  }

  pub prepare_next : ℕ → List (Thread Job) → Queue Job → Queue Job
  prepare_next i [] q = record q { running_threads = [] }
  prepare_next zero (t ∷ ts) q = prepare_front t.pending t ts q
  prepare_next (suc i) (t ∷ ts) q =
      let q' = prepare_next i ts q in record q' { running_threads = t ∷ q'.running_threads }

module _ (Job : Type 0) where
  -- What happens to a queue: a call of the owner, or a step of a running thread.
  pub data Action : Type 0 where
    adds : Job → ℕ → Action
    prepares : ℕ → Action
    completes : Action

module _ {Job : Type 0} where
  pub act : Action Job → Queue Job → Queue Job
  act (adds j work) q = add_job j work q
  act (prepares i) q = prepare_next i q.running_threads q
  act completes q = complete q

  -- Any interleaving of the owner's calls with the threads' steps.
  pub run : List (Action Job) → Queue Job → Queue Job
  run [] q = q
  run (a ∷ rest) q = run rest (act a q)
