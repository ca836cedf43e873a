-- ===== src/ThreadPool/Tests.antt =====
-- A pool of threads, and two tasks.
use secure_data_transmission.Base.{ℕ, ◌≡◌, refl, true, false, some, List, [], ◌∷◌, ◌++◌, pos}
use secure_data_transmission.ThreadPool.{
  Limits, ThreadPool, limits, new_pool, add_task, worker_turn,
}
use secure_data_transmission.ThreadPool.Order.{
  batch_of, Run, Steps, adds, turns, stop, more, first_run, InOrder, reachable-InOrder,
}

abbrev sample_limits : Limits
sample_limits = record { min_thr = 3; max_thr = 5; max_tasks = 1000 }

checks_arguments :
    limits (pos 0) (pos 1) (pos 10) ≡ record { min_thr = 3; max_thr = 53; max_tasks = 1000 }
unfolding limits
checks_arguments = refl

abbrev with_queue : List ℕ → ThreadPool
with_queue queue = record {
  queue = queue;
  alive = true ∷ true ∷ true ∷ false ∷ false ∷ [];
  live = 3;
  busy = 0;
  destroy = 0;
  shutdown = false;
}

abbrev one_added : Run
one_added = record { pool = with_queue (8 ∷ []); accepted = 8 ∷ []; started = [] }

adds_one : add_task sample_limits 8 (new_pool sample_limits) ≡ some (true, with_queue (8 ∷ []))
unfolding add_task new_pool
adds_one = refl

abbrev one_started : Run
one_started = record {
  pool = (worker_turn sample_limits (with_queue (8 ∷ []))).1;
  accepted = 8 ∷ [];
  started = [] ++ batch_of (worker_turn sample_limits (with_queue (8 ∷ []))).0;
}

one_task : Steps sample_limits (first_run sample_limits) one_started
one_task =
    more (adds (first_run sample_limits) 8 (with_queue (8 ∷ [])) adds_one)
      (more (turns one_added) (stop one_started))

reachable-InOrder_example : InOrder sample_limits one_started
reachable-InOrder_example = reachable-InOrder sample_limits one_started one_task
