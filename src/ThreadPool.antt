-- ===== src/ThreadPool.antt =====
-- server/src/thread_pool.cpp: the queue of tasks, the workers and the manager thread. What a thread
-- does while it holds a lock is one step. A task is named by its descriptor; all have one function
-- and one argument.
pub mod Order
pub mod Batches
mod Tests
use secure_data_transmission.Base.{
  ℕ, zero, suc, ◌+◌, ◌-◌, ◌*◌, ◌/◌, ◌<◌, ◌≡◌, ◌≢◌, Bool, true, false, not, ◌&&◌, Option, none, some,
  List, [], ◌∷◌, ◌++◌, length, replicate, if◌then◌else◌, ltb, leb, ◌==◌, ℤ, pos, negsuc,
}

-- The numbers that the constructor sets and nothing changes.
pub record Limits : Type 0 where
  pub min_thr : ℕ
  pub max_thr : ℕ
  pub max_tasks : ℕ

-- `alive` is the vector `threads`: whether each slot has a living thread.
pub record ThreadPool : Type 0 where
  pub queue : List ℕ
  pub alive : List Bool
  pub live : ℕ
  pub busy : ℕ
  pub destroy : ℕ
  pub shutdown : Bool

-- `x < n` of an `int`.
abbrev below : ℤ → ℕ → Bool
below (pos k) n = ltb k n
below (negsuc k) n = true

abbrev value : ℤ → ℕ
value (pos k) = k
value (negsuc k) = 0

-- The constructor's checks of its arguments.
unfoldable pub limits : ℤ → ℤ → ℤ → Limits
limits min_thr max_thr max_tasks =
    let low = if below min_thr 1 then 3 else value min_thr in
    record {
      min_thr = low;
      max_thr = if below max_thr low then low + 50 else value max_thr;
      max_tasks = if below max_tasks 1000 then 1000 else value max_tasks;
    }

unfoldable pub new_pool : Limits → ThreadPool
new_pool l = record {
  queue = [];
  alive = replicate l.min_thr true ++ replicate (l.max_thr - l.min_thr) false;
  live = l.min_thr;
  busy = 0;
  destroy = 0;
  shutdown = false;
}

-- `add_task`: whether the task was taken, and the pool; `none`, where the caller waits.
unfoldable pub add_task : Limits → ℕ → ThreadPool → Option (Bool × ThreadPool)
add_task l t p =
    if (length p.queue == l.max_tasks) && not p.shutdown
    then none
    else if p.shutdown
    then some (false, p)
    else some (true, record p { queue = p.queue ++ t ∷ [] })

-- The first step of `close`.
unfoldable pub close : ThreadPool → ThreadPool
close p = record p { shutdown = true }

unfoldable pub max_task : Limits → ThreadPool → ℕ
max_task l p = let n = l.max_tasks / p.live in if ltb n 1 then 1 else n

-- The loop that moves tasks to the worker's own list: what it takes, and what it leaves.
unfoldable pub take_loop : ℕ → ℕ → List ℕ → List ℕ × List ℕ
take_loop most cnt [] = ([], [])
take_loop most cnt (t ∷ q) =
    let rest = take_loop most (cnt + 1) q in
    if leb cnt most then (t ∷ rest.0, rest.1) else ([], t ∷ q)

-- What a worker does that holds the lock of the queue.
pub data Turn : Type 0 where
  waits exits : Turn
  runs : List ℕ → Turn

-- A thread that is in this code is alive, so `live` is not 0 here.
unfoldable pub worker_turn : Limits → ThreadPool → Turn × ThreadPool
unfolding max_task
worker_turn l p = elim p.queue [
  | [] ↦ if p.shutdown then (exits, record p { live = p.live - 1 }) else (waits, p)
  | t ∷ q ↦
      let (batch, rest) = take_loop (max_task l p) 0 (t ∷ q) in
      (runs batch, record p { queue = rest })
]

-- A worker that has been woken: whether it ends, and the pool.
unfoldable pub woken : Limits → ThreadPool → Bool × ThreadPool
woken l p =
    if p.destroy == 0
    then (false, p)
    else if ltb l.min_thr p.live
    then (true, record p { destroy = p.destroy - 1; live = p.live - 1 })
    else (false, record p { destroy = p.destroy - 1 })

unfoldable pub begin_batch : ThreadPool → ThreadPool
begin_batch p = record p { busy = p.busy + 1 }

unfoldable pub end_batch : ThreadPool → ThreadPool
end_batch p = record p { busy = p.busy - 1 }

-- The manager's loop over the slots: the slots after it, and how many threads it has made. `seen` is
-- the number of living threads that the manager has read before.
unfoldable pub grow_loop : Limits → ℕ → ℕ → List Bool → List Bool × ℕ
grow_loop l seen j [] = ([], 0)
grow_loop l seen j (true ∷ slots) =
    let rest = grow_loop l seen j slots in
    if ltb j 10 && ltb seen l.max_tasks then (true ∷ rest.0, rest.1) else (true ∷ slots, 0)
grow_loop l seen j (false ∷ slots) =
    let rest = grow_loop l seen (j + 1) slots in
    if ltb j 10 && ltb seen l.max_tasks then (true ∷ rest.0, rest.1 + 1) else (false ∷ slots, 0)

-- The manager's two decisions, on the numbers that it has read: `tasks` and `seen` under one lock,
-- `busy` under the other.
unfoldable pub grow : Limits → ℕ → ℕ → ThreadPool → ThreadPool
grow l tasks seen p =
    let (slots, made) = grow_loop l seen 0 p.alive in
    if ltb seen tasks && ltb seen l.max_tasks
    then record p { alive = slots; live = p.live + made }
    else p

unfoldable pub shrink : Limits → ℕ → ℕ → ThreadPool → ThreadPool
shrink l busy seen p =
    if ltb (busy * 2) seen && ltb l.min_thr seen then record p { destroy = 10 } else p
