-- ===== src/TcpServer/Tests.antt =====
-- The listening socket at concrete inputs.
use secure_data_transmission.Base.{
  ◌<◌, ℕ, zero, suc, ◌+◌, ◌≡◌, ◌↔◌, refl, none, some, arith, true, false, pos,
}
use secure_data_transmission.TcpServer.{
  Setup, opened, set_listen, Accepted, connection, interrupted, no_more, client, accept_conn,
}
use secure_data_transmission.TcpServer.Accepting.{
  answer_of, accept_conn-returns, Succeeds, set_listen-Succeeds,
}

-- A call is interrupted, two connections come, and then no more.
abbrev two_clients : ℕ → Accepted
two_clients zero = interrupted
two_clients (suc zero) = connection 7
two_clients (suc (suc zero)) = connection 8
two_clients (suc (suc (suc n))) = no_more

abbrev port_in_use : Setup
port_in_use = record { socket = opened 3; setsockopt = none; bind = some 98; listen = none }

set_listen_in_use : set_listen port_in_use ≡ (pos 98, record { lfd = pos 3; listening = false })
unfolding set_listen
set_listen_in_use = refl

accept_conn-returns_example : accept_conn 4 two_clients 0 ≡ some (client 7, 2)
accept_conn-returns_example =
    accept_conn-returns 4 1 0 two_clients (client 7) (omega arith) (λ j lt. before j lt) refl
  where
    before : (j : ℕ) → j < 1 → answer_of (two_clients (0 + j)) ≡ none
    before zero lt = refl
    before (suc j) lt = absurd (omega (arith, lt))

set_listen-Succeeds_example :
    (((set_listen port_in_use).1.listening ≡ true) ↔ Succeeds port_in_use)
    × ((set_listen port_in_use).1.listening ≡ true → (set_listen port_in_use).0 ≡ pos 0)
set_listen-Succeeds_example = set_listen-Succeeds port_in_use
