-- ===== src/Epoll/Tests.antt =====
-- The main loop at concrete inputs, with a table of watches for the kernel's epoll.
use secure_data_transmission.Base.{
  ℕ, ◌≡◌, refl, true, false, none, some, [], ◌∷◌, if◌then◌else◌, ◌==◌, arith, Option,
}
use secure_data_transmission.ThreadPool.{
  Limits, take_loop, max_task, new_pool, add_task, begin_batch, worker_turn,
}
use secure_data_transmission.Epoll.{
  insert_socket, open_loop, Epoll, Watch, Mask, rearmed, reported, map_watch, find_socket,
  epoll_wait, init_connection, handle_event, fd_mode, hang_up, open_loop, insert_socket,
}
use secure_data_transmission.Epoll.Steps.{
  Run, waits, accepts, accepted_all, handles, takes, Steps, start, later, first,
}
use secure_data_transmission.Epoll.Counting.{count, count_events, armed_once}
use secure_data_transmission.Epoll.Invariant.{places}
use secure_data_transmission.Epoll.Safety.{reachable_connection, reachable_worker, reachable_event}

abbrev table : Epoll
table = record {
  Tree = ℕ → Option Watch;
  watch = λ f t. t f;
  add = λ g once t f. if f == g then some (record { armed = true; oneshot = once }) else t f;
  rearm = λ g t f. if f == g then map_watch rearmed (t f) else t f;
  report = λ g t f. if f == g then map_watch reported (t f) else t f;
  close = λ g t f. if f == g then none else t f;
  watch-add = λ f g once t h. refl;
  watch-rearm = λ f g t. refl;
  watch-report = λ f g t. refl;
  watch-close = λ f g t. refl;
}

abbrev nothing : ℕ → Option Watch
nothing f = none

abbrev small : Limits
small = record { min_thr = 1; max_thr = 20; max_tasks = 10000 }

abbrev readable : Mask
readable = record { rdhup = false; readable = true }

abbrev hung_up : Mask
hung_up = record { rdhup = true; readable = true }

abbrev Reached : Type 0
Reached = (r : Run table) × Steps table small (first table small 3 nothing) r

-- The listening descriptor 3 reports, and descriptor 5 is accepted.
abbrev connected : Reached
unfolding init_connection open_loop find_socket insert_socket epoll_wait handle_event worker_turn
    fd_mode hang_up take_loop max_task new_pool add_task begin_batch
connected = (
  _,
  later
      (later (later start (waits _ ((3, readable) ∷ []) _ refl refl))
        (accepts _ 5 readable [] refl refl (λ q. omega arith)))
      (accepted_all _ readable [] refl),
)

-- Descriptor 5 has an event.
abbrev reported_one : Mask → Reached
unfolding init_connection open_loop find_socket insert_socket epoll_wait handle_event worker_turn
    fd_mode hang_up take_loop max_task new_pool add_task begin_batch
reported_one m = (_, later connected.1 (waits _ ((5, m) ∷ []) _ refl refl))

-- A worker has the task of descriptor 5.
abbrev working : Reached
unfolding init_connection open_loop find_socket insert_socket epoll_wait handle_event worker_turn
    fd_mode hang_up take_loop max_task new_pool add_task begin_batch
working = (
  _,
  later (later (reported_one readable).1 (handles _ 5 readable [] _ refl (λ q. omega arith) refl))
      (takes _),
)

working_running : working.0.loop.running ≡ 5 ∷ []
unfolding init_connection open_loop find_socket insert_socket epoll_wait handle_event worker_turn
    fd_mode hang_up take_loop max_task new_pool add_task begin_batch
working_running = refl

-- The peer of descriptor 5 has closed.
abbrev closing : Reached
unfolding init_connection open_loop find_socket insert_socket epoll_wait handle_event worker_turn
    fd_mode hang_up take_loop max_task new_pool add_task begin_batch reported_one connected
closing = reported_one hung_up

no_fds : (f : ℕ) → table.watch f nothing ≡ none
no_fds f = refl

reachable_connection_example : (◌≡◌ {A = ℕ} 5 5) × (places table 5 connected.0 ≡ 1)
unfolding init_connection open_loop find_socket insert_socket epoll_wait handle_event worker_turn
    fd_mode hang_up take_loop max_task new_pool add_task begin_batch
reachable_connection_example =
    reachable_connection table small 3 nothing no_fds connected.0 connected.1 5 5 (λ q. omega arith)
      refl

reachable_worker_example :
    (count 5 working.0.loop.running ≡ 1)
    × (find_socket 5 working.0.loop.sockets ≡ some 5)
    × (count 5 working.0.loop.pool.queue ≡ 0)
    × (count_events 5 working.0.loop.batch ≡ 0)
    × (armed_once (table.watch 5 working.0.loop.tree) ≡ 0)
unfolding init_connection open_loop find_socket insert_socket epoll_wait handle_event worker_turn
    fd_mode hang_up take_loop max_task new_pool add_task begin_batch
reachable_worker_example =
    reachable_worker table small 3 nothing no_fds working.0 working.1 5 (omega arith)

reachable_event_example :
    (find_socket 5 closing.0.loop.sockets ≡ some 5)
    × (count 5 closing.0.loop.pool.queue ≡ 0)
    × (count 5 closing.0.loop.running ≡ 0)
unfolding init_connection open_loop find_socket insert_socket epoll_wait handle_event worker_turn
    fd_mode hang_up take_loop max_task new_pool add_task begin_batch
reachable_event_example =
    reachable_event table small 3 nothing no_fds closing.0 closing.1 5 hung_up [] (λ q. omega arith)
      refl
