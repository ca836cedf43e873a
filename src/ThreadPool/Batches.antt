-- ===== src/ThreadPool/Batches.antt =====
-- How many tasks a worker takes, how the queue drains, and how many threads the manager makes.
use secure_data_transmission.Base.{
  length-drop, ℕ, zero, suc, ◌+◌, ◌-◌, ◌≤◌, ◌<◌, ◌≡◌, refl, Bool, true, false, List, [], ◌∷◌, arith,
  length, take, drop,
}
use secure_data_transmission.ThreadPool.{
  Limits, ThreadPool, take_loop, max_task, runs, worker_turn, woken, grow_loop, grow,
}

take_loop-room :
    (room most cnt : ℕ) (q : List ℕ)
    → room ≡ most + 1 - cnt
    → take_loop most cnt q ≡ (take room q, drop room q)
unfolding take_loop
take_loop-room zero most cnt [] h = refl
take_loop-room (suc room) most cnt [] h = refl
take_loop-room zero most cnt (t ∷ q) h = ground (arith, h)
take_loop-room (suc room) most cnt (t ∷ q) h =
    ground (arith, h, take_loop-room room most (cnt + 1) q (omega arith))

take_loop-take :
    (most : ℕ) (q : List ℕ) → take_loop most 0 q ≡ (take (most + 1) q, drop (most + 1) q)
take_loop-take most q = take_loop-room (most + 1) most 0 q (omega arith)

-- A worker that finds tasks takes up to one more than its share from the front of the queue, and
-- leaves the rest in order: the share is the bound of the queue over the number of living threads,
-- and at least 1.
pub worker_turn-batch :
    (l : Limits) (p : ThreadPool)
    → 0 < length p.queue
    → worker_turn l p ≡ (
      runs (take (max_task l p + 1) p.queue),
      record p { queue = drop (max_task l p + 1) p.queue },
    )
unfolding worker_turn
worker_turn-batch l p h = cases p.queue refl h
  where
    cases :
        (q : List ℕ)
        → p.queue ≡ q
        → 0 < length q
        → worker_turn l p ≡ (
          runs (take (max_task l p + 1) p.queue),
          record p { queue = drop (max_task l p + 1) p.queue },
        )
    cases [] e h = absurd (omega arith)
    cases (t ∷ q) e h = ground (arith, e, take_loop-take (max_task l p) (t ∷ q))

-- Worker turns in a row.
abbrev pub worker_turns : Limits → ℕ → ThreadPool → ThreadPool
worker_turns l zero p = p
worker_turns l (suc n) p = worker_turns l n (worker_turn l p).1

worker_turn-length :
    (l : Limits) (p : ThreadPool) → length (worker_turn l p).1.queue ≤ length p.queue - 1
unfolding worker_turn
worker_turn-length l p = cases p.queue refl
  where
    cases : (q : List ℕ) → p.queue ≡ q → length (worker_turn l p).1.queue ≤ length p.queue - 1
    cases [] e = ground (arith, e)
    cases (t ∷ q) e =
        ground
          (arith, e, take_loop-take (max_task l p) (t ∷ q), length-drop (max_task l p + 1) (t ∷ q))

-- As many turns of workers as there are tasks empty the queue, whatever the number of living
-- threads is.
pub worker_turns-drain :
    (l : Limits) (n : ℕ) (p : ThreadPool)
    → length p.queue ≤ n
    → length (worker_turns l n p).queue ≡ 0
worker_turns-drain l zero p h = omega arith
worker_turns-drain l (suc n) p h =
    worker_turns-drain l n (worker_turn l p).1 (omega (arith, worker_turn-length l p))

-- How many slots have a living thread.
abbrev pub count_alive : List Bool → ℕ
count_alive [] = 0
count_alive (true ∷ slots) = suc (count_alive slots)
count_alive (false ∷ slots) = count_alive slots

grow_loop-count :
    (l : Limits) (seen j : ℕ) (slots : List Bool)
    → let (after, made) = grow_loop l seen j slots in
      (count_alive after ≡ count_alive slots + made)
      × (length after ≡ length slots)
      × (made ≤ 10 - j)
unfolding grow_loop
grow_loop-count l seen j [] = ground arith
grow_loop-count l seen j (true ∷ slots) = ground (arith, grow_loop-count l seen j slots)
grow_loop-count l seen j (false ∷ slots) = ground (arith, grow_loop-count l seen (j + 1) slots)

-- The manager makes 10 threads at most, each in a slot without a living one: the number of living
-- threads grows by that of the slots that are filled, and the slots stay as many.
pub grow-count :
    (l : Limits) (tasks seen : ℕ) (p : ThreadPool)
    → let q = grow l tasks seen p in
      (q.live + count_alive p.alive ≡ p.live + count_alive q.alive)
      × (length q.alive ≡ length p.alive)
      × (q.live ≤ p.live + 10)
      × (q.queue ≡ p.queue)
unfolding grow
grow-count l tasks seen p = ground (arith, grow_loop-count l seen 0 p.alive)

-- A worker that was woken for a task may end without taking it: where the manager has asked for
-- fewer threads and there are more than the least number, the woken worker leaves the queue as it is.
pub woken-leaves :
    (l : Limits) (p : ThreadPool)
    → 0 < p.destroy
    → l.min_thr < p.live
    → woken l p ≡ (true, record p { destroy = p.destroy - 1; live = p.live - 1 })
unfolding woken
woken-leaves l p d m = ground arith
