-- ===== src/Socket/Sending.antt =====
-- What `sendMsg` puts on the wire, and that `recvMsg` reads it back.
use secure_data_transmission.Base.{
  ◌&&◌, ◌||◌, ◌==◌, ltb, leb, false, ℕ, ◌+◌, ◌<◌, ◌^◌, ◌≡◌, ◌∙◌, ◌≢◌, ◌⊎◌, inl, inr, refl, sym,
  subst, ap, true, some, List, [], ◌∷◌, ◌++◌, arith, append_assoc, append-nil, length, take, drop,
  length-append, negsuc, pos, minus_one, Bool, Bytes, ℤ, take-append-drop, Bool-cases,
}
use secure_data_transmission.Socket.{
  send_data, Event, eintr, eagain, other, Written, wrote, write_failed, Selected, Wait, in_time,
  late, broken, writen_loop, writen, write_timeout, send_msg, frame, be32, recv_msg, Recv,
  timeout_error, malloc_error, param_error, below_count,
}
use secure_data_transmission.Socket.Stream.{bytes, IsSmooth}
use secure_data_transmission.Socket.Frames.{Received, recv_msg-frame, length-be32}

-- `writen` sends all, or fails with -1 after a part.
WroteAll : ℕ → Bytes → ℤ × Bytes → Type 0
WroteAll count whole r =
    (r ≡ (pos count, whole)) ⊎ ((left : Bytes) × (r.0 ≡ minus_one) × (r.1 ++ left ≡ whole))

writen_loop-WroteAll :
    (count : ℕ) (buf sent : Bytes) (ws : List Written)
    → WroteAll count (sent ++ buf) (writen_loop count buf sent ws)
unfolding writen_loop WroteAll
writen_loop-WroteAll count buf sent [] = inl refl
writen_loop-WroteAll count [] sent (wrote k ∷ ws) = inl (ground (arith, append-nil sent))
writen_loop-WroteAll count [] sent (write_failed eintr ∷ ws) = inl (ground (arith, append-nil sent))
writen_loop-WroteAll count [] sent (write_failed eagain ∷ ws) =
    inl (ground (arith, append-nil sent))
writen_loop-WroteAll count [] sent (write_failed other ∷ ws) = inl (ground (arith, append-nil sent))
writen_loop-WroteAll count (b ∷ bs) sent (wrote k ∷ ws) =
    let buf : Bytes = b ∷ bs in
    ground (
      arith,
      writen_loop-WroteAll count (drop k buf) (sent ++ take k buf) ws,
      append_assoc sent (take k buf) (drop k buf),
      take-append-drop k buf,
    )
writen_loop-WroteAll count (b ∷ bs) sent (write_failed eintr ∷ ws) =
    ground (arith, writen_loop-WroteAll count (b ∷ bs) sent ws)
writen_loop-WroteAll count (b ∷ bs) sent (write_failed eagain ∷ ws) =
    inr (b ∷ bs, ground arith, ground arith)
writen_loop-WroteAll count (b ∷ bs) sent (write_failed other ∷ ws) =
    inr (b ∷ bs, ground arith, ground arith)

length-frame : (d : Bytes) → length (frame d) ≡ length d + 4
unfolding frame
length-frame d = omega (arith, length-append (be32 (length d)) d, length-be32 (length d))

-- The whole frame and 0, or another code; in any case, no more than a beginning.
abbrev pub Sent : Bytes → ℤ × Bytes → Type 0
Sent d r = ((r ≡ (pos 0, frame d)) ⊎ (r.0 ≢ pos 0)) × ((left : Bytes) × (r.1 ++ left ≡ frame d))

pub Wait-cases : (w : Wait) → (w ≡ in_time) ⊎ (w ≡ late) ⊎ (w ≡ broken)
Wait-cases in_time = inl refl
Wait-cases late = inr (inl refl)
Wait-cases broken = inr (inr refl)

writen-WroteAll : (buf : Bytes) (ws : List Written) → WroteAll (length buf) buf (writen buf ws)
unfolding writen
writen-WroteAll buf ws = writen_loop-WroteAll (length buf) buf [] ws

-- A call that sends nothing or a part.
nothing-Sent : (d : Bytes) (r : ℤ × Bytes) (code : ℤ) → code ≢ pos 0 → r ≡ (code, []) → Sent d r
nothing-Sent d r code ne e =
    (inr (λ z. ne (sym (ap (λ x. x.0) e) ∙ z)), (frame d, ap (λ x. x.1 ++ frame d) e))

below_count-Sent :
    (d : Bytes) (r : ℤ × Bytes)
    → WroteAll (length (frame d)) (frame d) r
    → Sent d (below_count r (length d + 4))
unfolding WroteAll frame
below_count-Sent d (pos k, sent) (inl e) = (
  inl (ground (arith, length-append (be32 (length d)) d, length-be32 (length d))),
  ([], ground (arith, append-nil sent, length-append (be32 (length d)) d, length-be32 (length d))),
)
below_count-Sent d (pos k, sent) (inr (left, e, p)) = cc
below_count-Sent d (negsuc k, sent) (inl e) = cc
below_count-Sent d (negsuc k, sent) (inr (left, e, p)) = (inr (λ z. cc), (left, p))

send_data-Sent :
    (d : Bytes) (alloc : Bool) (w : Wait) (ws : List Written)
    → Sent d (send_data d alloc w ws) × ((send_data d alloc w ws).0 ≡ pos 0 → length d + 4 < 2 ^ 31)
unfolding send_data
send_data-Sent d alloc late ws =
    (nothing-Sent d _ timeout_error (λ z. ground arith) refl, λ z. absurd (ground (arith, z)))
send_data-Sent d alloc broken ws =
    (nothing-Sent d _ minus_one (λ z. ground arith) refl, λ z. absurd (ground (arith, z)))
send_data-Sent d alloc in_time ws = elim (Bool-cases (alloc && ltb (length d + 4) (2 ^ 31))) [
  | inl a ↦ (
    subst (Sent d) {x = below_count (writen (frame d) ws) (length d + 4)} (ground (arith, a))
        (below_count-Sent d (writen (frame d) ws) (writen-WroteAll (frame d) ws)),
    λ z. ground (arith, a),
  )
  | inr a ↦ (
    nothing-Sent d _ malloc_error (λ z. ground arith) (ground (arith, a)),
    λ z. absurd (ground (arith, a, z)),
  )
]

send_msg-both :
    (d : Bytes) (timeout : ℕ) (alloc : Bool) (ss : List Selected) (ws : List Written)
    → Sent d (send_msg (some d) timeout alloc ss ws)
      × ((send_msg (some d) timeout alloc ss ws).0 ≡ pos 0 → length d + 4 < 2 ^ 31)
unfolding send_msg
send_msg-both d timeout alloc ss ws =
    elim (Bool-cases ((length d == 0) || leb (2 ^ 31) (length d))) [
      | inl a ↦ (
        nothing-Sent d _ param_error (λ z. ground arith) (ground (arith, a)),
        λ z. absurd (ground (arith, a, z)),
      )
      | inr a ↦
          subst (λ r. Sent d r × (r.0 ≡ pos 0 → length d + 4 < 2 ^ 31))
            {x = send_data d alloc (write_timeout timeout ss) ws} (ground (arith, a))
            (send_data-Sent d alloc (write_timeout timeout ss) ws)
    ]

-- `sendMsg` returns 0 only after the whole frame of its data has gone out; with another code, what
-- has gone out is a beginning of the frame.
pub send_msg-Sent :
    (d : Bytes) (timeout : ℕ) (alloc : Bool) (ss : List Selected) (ws : List Written)
    → Sent d (send_msg (some d) timeout alloc ss ws)
send_msg-Sent d timeout alloc ss ws = (send_msg-both d timeout alloc ss ws).0

-- `sendMsg` returns 0 only for a message whose frame is measured by an `int`.
pub send_msg-short :
    (d : Bytes) (timeout : ℕ) (alloc : Bool) (ss : List Selected) (ws : List Written)
    → (send_msg (some d) timeout alloc ss ws).0 ≡ pos 0
    → length d + 4 < 2 ^ 31
send_msg-short d timeout alloc ss ws = (send_msg-both d timeout alloc ss ws).1

-- A message of less than 2 ^ 31 bytes that `sendMsg` reports as sent is received whole by
-- `recvMsg` at the other end, where `malloc` finds memory, however the network cuts up what went out and what follows it, while
-- no read fails but by an interruption.
pub recv_msg-send_msg :
    (d left : Bytes) (timeout : ℕ) (alloc : Bool) (ss : List Selected) (ws : List Written)
    (es tail : List Event)
    → length d < 2 ^ 31
    → (send_msg (some d) timeout alloc ss ws).0 ≡ pos 0
    → IsSmooth es
    → bytes es ≡ (send_msg (some d) timeout alloc ss ws).1 ++ left
    → (r : Recv) × (recv_msg true (es ++ tail) ≡ some r) × Received d left tail r
recv_msg-send_msg d left timeout alloc ss ws es tail h ok s e =
    elim (send_msg-Sent d timeout alloc ss ws).0 [
      | inl whole ↦
          recv_msg-frame d left es tail (omega (arith, send_msg-short d timeout alloc ss ws ok)) s
            (e ∙ ap (λ r. r.1 ++ left) whole)
      | inr bad ↦ absurd (bad ok)
    ]

-- The peer takes what it is given: no call of `write` fails but by an interruption.
unfoldable pub AllTaken : List Written → Type 0
AllTaken [] = Unit {0}
AllTaken (wrote k ∷ ws) = AllTaken ws
AllTaken (write_failed eintr ∷ ws) = AllTaken ws
AllTaken (write_failed eagain ∷ ws) = ⊥
AllTaken (write_failed other ∷ ws) = ⊥

writen_loop-taken :
    (count : ℕ) (buf sent : Bytes) (ws : List Written)
    → AllTaken ws
    → writen_loop count buf sent ws ≡ (pos count, sent ++ buf)
unfolding writen_loop AllTaken
writen_loop-taken count buf sent [] w = refl
writen_loop-taken count [] sent (wrote k ∷ ws) w = ground (arith, append-nil sent)
writen_loop-taken count (b ∷ buf) sent (wrote k ∷ ws) w = ground (
  arith,
  writen_loop-taken count (drop k (b ∷ buf)) (sent ++ take k (b ∷ buf)) ws w,
  append_assoc sent (take k (b ∷ buf)) (drop k (b ∷ buf)),
  take-append-drop k (b ∷ buf),
)
writen_loop-taken count [] sent (write_failed eintr ∷ ws) w = ground (arith, append-nil sent)
writen_loop-taken count (b ∷ buf) sent (write_failed eintr ∷ ws) w =
    ground (arith, writen_loop-taken count (b ∷ buf) sent ws w)
writen_loop-taken count buf sent (write_failed eagain ∷ ws) w = absurd w
writen_loop-taken count buf sent (write_failed other ∷ ws) w = absurd w

-- Where the socket is writable in time and the peer takes what it is given, `sendMsg` of a message
-- that is not empty, and whose frame is of less than 2 ^ 31 bytes, returns 0.
pub send_msg-taken :
    (d : Bytes) (timeout : ℕ) (ss : List Selected) (ws : List Written)
    → 0 < length d
    → length d + 4 < 2 ^ 31
    → write_timeout timeout ss ≡ in_time
    → AllTaken ws
    → send_msg (some d) timeout true ss ws ≡ (pos 0, frame d)
unfolding send_msg send_data writen
send_msg-taken d timeout ss ws h small can w =
    let size : length (frame d) ≡ length d + 4 = length-frame d in
    let all : writen (frame d) ws ≡ (pos (length d + 4), frame d) =
      writen_loop-taken (length (frame d)) (frame d) [] ws w ∙ ap (λ n. (pos n, frame d)) size in
    let not_bad : (length d == 0) || leb (2 ^ 31) (length d) ≡ false = ground (arith, h, small) in
    let fits : ltb (length d + 4) (2 ^ 31) ≡ true = ground (arith, small) in
    ground (arith, not_bad, fits, can, all)
