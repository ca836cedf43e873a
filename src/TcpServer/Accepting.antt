-- ===== src/TcpServer/Accepting.antt =====
-- When `setListen` and `acceptConn` come back, and with what.
use native.Mathlib.Nat.{add-zero}
use secure_data_transmission.Base.{
  ℕ, zero, suc, ◌+◌, ◌≤◌, ◌<◌, ◌≡◌, ◌∙◌, ◌↔◌, refl, ap, sym, Option, none, some, arith, true, pos,
}
use secure_data_transmission.TcpServer.{
  Setup, Opened, opened, not_opened, set_listen, Accepted, connection, interrupted, no_more,
  refused, Accept, client, eagain, accept_conn,
}

-- What an answer of `accept` makes `acceptConn` return.
abbrev pub answer_of : Accepted → Option Accept
answer_of (connection fd) = some (client fd)
answer_of interrupted = none
answer_of no_more = some eagain
answer_of refused = none

accept_conn-step :
    (rounds : ℕ) (kernel : ℕ → Accepted) (n : ℕ) (a : Accepted)
    → kernel n ≡ a
    → accept_conn (suc rounds) kernel n
      ≡ (elim (answer_of a) [ none ↦ accept_conn rounds kernel (n + 1) | some x ↦ some (x, n + 1) ])
unfolding accept_conn
accept_conn-step rounds kernel n (connection fd) e = ground (arith, e)
accept_conn-step rounds kernel n interrupted e = ground (arith, e)
accept_conn-step rounds kernel n no_more e = ground (arith, e)
accept_conn-step rounds kernel n refused e = ground (arith, e)

-- `acceptConn` returns for the first answer of `accept` that is a connection or EAGAIN: after `k`
-- interrupted or refused calls, any number of rounds above `k` is enough.
pub accept_conn-returns :
    (rounds k n : ℕ) (kernel : ℕ → Accepted) (a : Accept)
    → k < rounds
    → ((j : ℕ) → j < k → answer_of (kernel (n + j)) ≡ none)
    → answer_of (kernel (n + k)) ≡ some a
    → accept_conn rounds kernel n ≡ some (a, n + k + 1)
accept_conn-returns zero k n kernel a h passed got = absurd (omega (arith, h))
accept_conn-returns (suc rounds) zero n kernel a h passed got =
    accept_conn-step rounds kernel n (kernel n) refl
    ∙ ground (arith, ap (λ i. answer_of (kernel i)) (add-zero n), got)
accept_conn-returns (suc rounds) (suc k) n kernel a h passed got =
    let skipped : answer_of (kernel n) ≡ none =
      ap (λ i. answer_of (kernel i)) (sym (add-zero n)) ∙ passed 0 (omega arith) in
    let at : (j : ℕ) → n + 1 + j ≡ n + suc j = λ j. omega arith in
    let rest =
      accept_conn-returns rounds k (n + 1) kernel a (omega (arith, h))
        (λ j lt. ap (λ i. answer_of (kernel i)) (at j) ∙ passed (suc j) (omega (arith, lt)))
        (ap (λ i. answer_of (kernel i)) (at k) ∙ got) in
    accept_conn-step rounds kernel n (kernel n) refl ∙ ground (arith, skipped, rest)

-- While every call of `accept` is refused, `acceptConn` does not return: no number of rounds is
-- enough.
pub accept_conn-refused :
    (rounds n : ℕ) (kernel : ℕ → Accepted)
    → ((j : ℕ) → kernel j ≡ refused)
    → accept_conn rounds kernel n ≡ none
unfolding accept_conn
accept_conn-refused zero n kernel h = refl
accept_conn-refused (suc rounds) n kernel h =
    accept_conn-step rounds kernel n refused (h n) ∙ accept_conn-refused rounds (n + 1) kernel h

-- A call of `accept` that has given `fd`, the last one before `next`.
abbrev pub Call : (ℕ → Accepted) → ℕ → ℕ → ℕ → Type 0
Call kernel next fd from = (i : ℕ) × (from ≤ i) × (next ≡ i + 1) × (kernel i ≡ connection fd)

-- A connection that is returned is the answer of the last call.
pub accept_conn-client :
    (rounds n next fd : ℕ) (kernel : ℕ → Accepted)
    → accept_conn rounds kernel n ≡ some (client fd, next)
    → Call kernel next fd n
unfolding accept_conn
accept_conn-client zero n next fd kernel h = cc
accept_conn-client (suc rounds) n next fd kernel h =
    accepted (kernel n) refl (accept_conn-client rounds (n + 1) next fd kernel)
  where
    accepted :
        (a : Accepted)
        → kernel n ≡ a
        → (accept_conn rounds kernel (n + 1) ≡ some (client fd, next) → Call kernel next fd (n + 1))
        → Call kernel next fd n
    accepted (connection g) e later = (n, omega arith, ground (arith, h, e), ground (arith, h, e))
    accepted interrupted e later =
        let (i, le, q, k) = later (ground (arith, h, e)) in (i, omega (arith, le), q, k)
    accepted refused e later =
        let (i, le, q, k) = later (ground (arith, h, e)) in (i, omega (arith, le), q, k)
    accepted no_more e later = ground (arith, h, e)

-- The calls of `setListen` all succeed.
abbrev pub Succeeds : Setup → Type 0
Succeeds k =
    (fd : ℕ) × (k.socket ≡ opened fd) × (k.setsockopt ≡ none) × (k.bind ≡ none) × (k.listen ≡ none)

-- `setListen` leaves a listening socket exactly where all four calls succeed, and returns 0 then.
pub set_listen-Succeeds :
    (k : Setup)
    → (((set_listen k).1.listening ≡ true) ↔ Succeeds k)
      × ((set_listen k).1.listening ≡ true → (set_listen k).0 ≡ pos 0)
unfolding set_listen
set_listen-Succeeds k = outcome k.socket k.setsockopt k.bind k.listen
  where
    outcome :
        (o : Opened) (a b c : Option ℕ)
        → let k' : Setup = record { socket = o; setsockopt = a; bind = b; listen = c } in
          (((set_listen k').1.listening ≡ true) ↔ Succeeds k')
          × ((set_listen k').1.listening ≡ true → (set_listen k').0 ≡ pos 0)
    outcome (opened fd) none none none =
        (((λ h. (fd, refl, refl, refl, refl)), (λ h. refl)), (λ h. refl))
    outcome (opened fd) none none (some x) = (((λ h. cc), (λ (g, h, i, j, k). cc)), (λ h. cc))
    outcome (opened fd) none (some x) c = (((λ h. cc), (λ (g, h, i, j, k). cc)), (λ h. cc))
    outcome (opened fd) (some x) b c = (((λ h. cc), (λ (g, h, i, j, k). cc)), (λ h. cc))
    outcome (not_opened x) a b c = (((λ h. cc), (λ (g, h, i, j, k). cc)), (λ h. cc))
