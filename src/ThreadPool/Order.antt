-- ===== src/ThreadPool/Order.antt =====
-- The order in which tasks start, over every interleaving of the threads' steps.
use secure_data_transmission.Base.{
  subst, ℕ, ◌+◌, ◌≤◌, ◌≡◌, ◌≢◌, ◌∙◌, refl, ap, sym, true, false, some, List, [], ◌∷◌, ◌++◌,
  append_assoc, arith, length, length-append,
}
use secure_data_transmission.ThreadPool.{
  Limits, ThreadPool, new_pool, add_task, close, take_loop, max_task, Turn, waits, exits, runs,
  worker_turn, woken, begin_batch, end_batch, grow, shrink,
}

-- A pool with its history: the tasks that `add_task` has taken and those that workers have taken out
-- of the queue, each in order.
pub record Run : Type 0 where
  pub pool : ThreadPool
  pub accepted : List ℕ
  pub started : List ℕ

-- The tasks of a turn.
abbrev pub batch_of : Turn → List ℕ
batch_of waits = []
batch_of exits = []
batch_of (runs batch) = batch

-- A step of one of the threads.
pub data Step (l : Limits) : Run → Run → Type 0 where
  adds :
      (r : Run) (t : ℕ) (p : ThreadPool)
      → add_task l t r.pool ≡ some (true, p)
      → Step l r (record r { pool = p; accepted = r.accepted ++ t ∷ [] })
  refuses :
      (r : Run) (t : ℕ) (p : ThreadPool)
      → add_task l t r.pool ≡ some (false, p)
      → Step l r (record r { pool = p })
  turns :
      (r : Run)
      → Step l r (record r {
        pool = (worker_turn l r.pool).1;
        started = r.started ++ batch_of (worker_turn l r.pool).0;
      })
  wakes : (r : Run) → Step l r (record r { pool = (woken l r.pool).1 })
  begins : (r : Run) → Step l r (record r { pool = begin_batch r.pool })
  ends : (r : Run) → Step l r (record r { pool = end_batch r.pool })
  grows : (r : Run) (tasks seen : ℕ) → Step l r (record r { pool = grow l tasks seen r.pool })
  shrinks : (r : Run) (busy seen : ℕ) → Step l r (record r { pool = shrink l busy seen r.pool })
  closes : (r : Run) → Step l r (record r { pool = close r.pool })

-- Steps in a row.
pub data Steps (l : Limits) : Run → Run → Type 0 where
  stop : (r : Run) → Steps l r r
  more : {a b c : Run} → Step l a b → Steps l b c → Steps l a c

-- Every accepted task has started or is in the queue, in order, and the queue is within its bound.
pub record InOrder (l : Limits) (r : Run) : Type 0 where
  pub order : r.started ++ r.pool.queue ≡ r.accepted
  pub bounded : length r.pool.queue ≤ l.max_tasks

take_loop-append :
    (most cnt : ℕ) (q : List ℕ) → (take_loop most cnt q).0 ++ (take_loop most cnt q).1 ≡ q
unfolding take_loop
take_loop-append most cnt [] = refl
take_loop-append most cnt (t ∷ q) = ground (arith, take_loop-append most (cnt + 1) q)

pub worker_turn-append :
    (l : Limits) (p : ThreadPool)
    → batch_of (worker_turn l p).0 ++ (worker_turn l p).1.queue ≡ p.queue
unfolding worker_turn
worker_turn-append l p = turn_cases p.queue refl
  where
    turn_cases :
        (q : List ℕ)
        → p.queue ≡ q
        → batch_of (worker_turn l p).0 ++ (worker_turn l p).1.queue ≡ p.queue
    turn_cases [] e = ground (arith, e)
    turn_cases (t ∷ q) e = ground (arith, e, take_loop-append (max_task l p) 0 (t ∷ q))

pub add_task-true :
    (l : Limits) (t : ℕ) (p p' : ThreadPool)
    → add_task l t p ≡ some (true, p')
    → (p'.queue ≡ p.queue ++ t ∷ []) × (length p.queue ≢ l.max_tasks)
unfolding add_task
add_task-true l t p p' h = ground (arith, h)

pub grow-queue :
    (l : Limits) (tasks seen : ℕ) (p : ThreadPool) → (grow l tasks seen p).queue ≡ p.queue
unfolding grow
grow-queue l tasks seen p = ground arith

pub shrink-queue :
    (l : Limits) (busy seen : ℕ) (p : ThreadPool) → (shrink l busy seen p).queue ≡ p.queue
unfolding shrink
shrink-queue l busy seen p = ground arith

pub woken-queue : (l : Limits) (p : ThreadPool) → (woken l p).1.queue ≡ p.queue
unfolding woken
woken-queue l p = ground arith

pub add_task-false :
    (l : Limits) (t : ℕ) (p p' : ThreadPool)
    → add_task l t p ≡ some (false, p')
    → p'.queue ≡ p.queue
unfolding add_task
add_task-false l t p p' h = ground (arith, h)

-- A step that leaves the queue as it was.
same_queue :
    (l : Limits) (r : Run) (p : ThreadPool)
    → p.queue ≡ r.pool.queue
    → InOrder l r
    → InOrder l (record r { pool = p })
same_queue l r p e h = record {
  order = ap (λ q. r.started ++ q) e ∙ h.order;
  bounded = subst (λ q. length q ≤ l.max_tasks) (sym e) h.bounded;
}

Step-InOrder : (l : Limits) {a b : Run} → Step l a b → InOrder l a → InOrder l b
unfolding begin_batch end_batch close
Step-InOrder l (adds r t p e) h =
    let (q, room) = add_task-true l t r.pool p e in
    record {
      order =
          ap (λ x. r.started ++ x) q
          ∙ sym (append_assoc r.started r.pool.queue (t ∷ []))
          ∙ ap (λ x. x ++ t ∷ []) h.order;
      bounded = omega (arith, ap length q, length-append r.pool.queue (t ∷ []), h.bounded, room);
    }
Step-InOrder l (refuses r t p e) h = same_queue l r p (add_task-false l t r.pool p e) h
Step-InOrder l (turns r) h =
    let e = worker_turn-append l r.pool in
    record {
      order =
          append_assoc r.started (batch_of (worker_turn l r.pool).0) (worker_turn l r.pool).1.queue
          ∙ ap (λ x. r.started ++ x) e
          ∙ h.order;
      bounded = omega (
        arith,
        ap length e,
        length-append (batch_of (worker_turn l r.pool).0) (worker_turn l r.pool).1.queue,
        h.bounded,
      );
    }
Step-InOrder l (wakes r) h = same_queue l r (woken l r.pool).1 (woken-queue l r.pool) h
Step-InOrder l (begins r) h = same_queue l r (begin_batch r.pool) refl h
Step-InOrder l (ends r) h = same_queue l r (end_batch r.pool) refl h
Step-InOrder l (grows r tasks seen) h =
    same_queue l r (grow l tasks seen r.pool) (grow-queue l tasks seen r.pool) h
Step-InOrder l (shrinks r busy seen) h =
    same_queue l r (shrink l busy seen r.pool) (shrink-queue l busy seen r.pool) h
Step-InOrder l (closes r) h = same_queue l r (close r.pool) refl h

Steps-InOrder : (l : Limits) {a b : Run} → Steps l a b → InOrder l a → InOrder l b
Steps-InOrder l (stop r) h = h
Steps-InOrder l (more s w) h = Steps-InOrder l w (Step-InOrder l s h)

-- The start.
abbrev pub first_run : Limits → Run
first_run l = record { pool = new_pool l; accepted = []; started = [] }

-- In every interleaving of the callers of `add_task`, the workers, the manager and `close`, workers
-- take the accepted tasks out of the queue in the order of their acceptance, each once: those taken,
-- followed by those in the queue, are the accepted ones. The queue never exceeds its bound.
pub reachable-InOrder : (l : Limits) (r : Run) → Steps l (first_run l) r → InOrder l r
unfolding new_pool
reachable-InOrder l r w = Steps-InOrder l w (record { order = refl; bounded = omega arith })
