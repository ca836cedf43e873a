-- ===== src/Socket/ClientSocket/Sending.antt =====
-- Messages between the two kinds of socket, in both directions.
use secure_data_transmission.Base.{
  arith, ℕ, ◌<◌, ◌^◌, ◌≡◌, ◌∙◌, ap, Bool, true, some, List, ◌++◌, length, pos, Bytes, inl, inr,
}
use secure_data_transmission.Socket.{Event, Selected, Written, Recv, in_time, recv_msg, send_msg}
use secure_data_transmission.Socket.Stream.{bytes, IsSmooth}
use secure_data_transmission.Socket.Frames.{Received}
use secure_data_transmission.Socket.Sending.{send_msg-Sent, send_msg-short, recv_msg-send_msg}
use secure_data_transmission.Socket.ClientSocket.{
  client_recv_msg, client_send_msg, client_read_timeout,
}
use secure_data_transmission.Socket.ClientSocket.Agree.{client_recv_msg-frame}

-- A message of less than 2 ^ 31 bytes that the server's `sendMsg` reports as sent is received whole
-- by the client's `recvMsg`, once the client's socket is readable: however the network cuts up what
-- went out and what follows it, while no read fails but by an interruption and `malloc` finds memory.
pub client_recv_msg-send_msg :
    (d left : Bytes) (timeout wait : ℕ) (alloc : Bool) (ss readable : List Selected)
    (ws : List Written) (es tail : List Event)
    → length d < 2 ^ 31
    → (send_msg (some d) timeout alloc ss ws).0 ≡ pos 0
    → client_read_timeout wait readable ≡ in_time
    → IsSmooth es
    → bytes es ≡ (send_msg (some d) timeout alloc ss ws).1 ++ left
    → (r : Recv) × (client_recv_msg wait true readable (es ++ tail) ≡ some r)
      × Received d left tail r
client_recv_msg-send_msg d left timeout wait alloc ss readable ws es tail h ok can s e =
    elim (send_msg-Sent d timeout alloc ss ws).0 [
      | inl whole ↦
          client_recv_msg-frame wait readable can d left es tail
            (omega (arith, send_msg-short d timeout alloc ss ws ok)) s
            (e ∙ ap (λ r. r.1 ++ left) whole)
      | inr bad ↦ absurd (bad ok)
    ]

-- The other direction: what the client reports as sent, the server receives.
pub recv_msg-client_send_msg :
    (d left : Bytes) (timeout : ℕ) (alloc : Bool) (ss : List Selected) (ws : List Written)
    (es tail : List Event)
    → length d < 2 ^ 31
    → (client_send_msg (some d) timeout alloc ss ws).0 ≡ pos 0
    → IsSmooth es
    → bytes es ≡ (client_send_msg (some d) timeout alloc ss ws).1 ++ left
    → (r : Recv) × (recv_msg true (es ++ tail) ≡ some r) × Received d left tail r
unfolding client_send_msg
recv_msg-client_send_msg = recv_msg-send_msg
