-- ===== src/SemiasyncQueue/Lists.antt =====
-- What a log and a list of threads say of the jobs.
use ds2i.Base.{◌≡◌, ap, refl, List, [], ◌∷◌, ◌++◌, map, append_assoc}
use ds2i.SemiasyncQueue.{Event, prepared, committed, Thread}

module _ {Job : Type 0} where
  -- The jobs that were committed, in the order of the calls.
  abbrev pub committed_jobs : List (Event Job) → List Job
  committed_jobs [] = []
  committed_jobs (prepared j ∷ log) = committed_jobs log
  committed_jobs (committed j ∷ log) = j ∷ committed_jobs log

  -- The batches of the threads, oldest first.
  abbrev pub batches : List (Thread Job) → List Job
  batches [] = []
  batches (t ∷ ts) = t.batch ++ batches ts

  pub committed_jobs-append :
      (xs ys : List (Event Job))
      → committed_jobs (xs ++ ys) ≡ committed_jobs xs ++ committed_jobs ys
  committed_jobs-append [] ys = refl
  committed_jobs-append (prepared j ∷ xs) ys = committed_jobs-append xs ys
  committed_jobs-append (committed j ∷ xs) ys = ap (◌∷◌ j) (committed_jobs-append xs ys)

  committed_jobs-prepared : (js : List Job) → committed_jobs (map prepared js) ≡ []
  committed_jobs-prepared [] = refl
  committed_jobs-prepared (j ∷ js) = committed_jobs-prepared js

  committed_jobs-committed : (js : List Job) → committed_jobs (map committed js) ≡ js
  committed_jobs-committed [] = refl
  committed_jobs-committed (j ∷ js) = ap (◌∷◌ j) (committed_jobs-committed js)

  -- What a join and the commits behind it add.
  pub committed_jobs-join :
      (log : List (Event Job)) (pending batch : List Job)
      → committed_jobs (log ++ (map prepared pending ++ map committed batch))
        ≡ committed_jobs log ++ batch
  committed_jobs-join log pending batch =
      simp (committed_jobs-append, committed_jobs-prepared, committed_jobs-committed)

  pub batches-append : (xs ys : List (Thread Job)) → batches (xs ++ ys) ≡ batches xs ++ batches ys
  batches-append [] ys = refl
  batches-append (t ∷ xs) ys = simp (batches-append xs ys, append_assoc)
