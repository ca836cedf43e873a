-- ===== src/Socket/ClientSocket/Agree.antt =====
-- Where the client's `recvMsg` agrees with the server's, and where it is stricter.
use secure_data_transmission.Base.{
  ◌+◌, ℕ, ◌-◌, ◌<◌, ◌^◌, ◌≡◌, ◌∙◌, refl, sym, ap, true, some, none, List, [], ◌∷◌, ◌++◌, arith,
  append_assoc, append-nil, length, pos, Bytes, subst,
}
use secure_data_transmission.Socket.{
  Event, arrived, failed, eintr, eagain, other, readn, readn_loop, be32, frame, Recv, Selected,
  in_time, peer_close_error,
}
use secure_data_transmission.Socket.ClientSocket.{
  client_read_timeout, client_readn, client_readn_loop, client_recv_tail, client_recv_body,
  client_recv_header, client_recv_msg,
}
use secure_data_transmission.Socket.Stream.{bytes, IsSmooth, Got}
use secure_data_transmission.Socket.Broken.{readn-closed}
use secure_data_transmission.Socket.Frames.{length-be32, un_be32-be32, readn-Got, Received}

-- What the server reads without an error, the client reads.
client_readn_loop-readn_loop :
    (count nleft k : ℕ) (acc : Bytes) (es : List Event)
    → (readn_loop count nleft acc es).ret ≡ pos k
    → client_readn_loop count nleft acc es ≡ some (readn_loop count nleft acc es)
unfolding client_readn_loop readn_loop
client_readn_loop-readn_loop count nleft k acc [] h = ground arith
client_readn_loop-readn_loop count nleft k acc (failed eintr ∷ es) h =
    ground (arith, client_readn_loop-readn_loop count nleft k acc es)
client_readn_loop-readn_loop count nleft k acc (failed eagain ∷ es) h = ground arith
client_readn_loop-readn_loop count nleft k acc (failed other ∷ es) h = ground arith
client_readn_loop-readn_loop count nleft k acc (arrived bs ∷ es) h =
    ground (arith, client_readn_loop-readn_loop count (nleft - length bs) k (acc ++ bs) es)

client_readn-readn :
    (n k : ℕ) (es : List Event) → (readn n es).ret ≡ pos k → client_readn n es ≡ some (readn n es)
unfolding client_readn readn
client_readn-readn n k es h = client_readn_loop-readn_loop n n k [] es h

module _ (timeout : ℕ) (ss : List Selected) (ready : client_read_timeout timeout ss ≡ in_time) where
  client_recv_msg-header :
      (n : ℕ) (left : Bytes) (es tail : List Event)
      → n < 2 ^ 32
      → IsSmooth es
      → bytes es ≡ be32 n ++ left
      → (es' : List Event) × IsSmooth es'
        × (bytes es' ≡ left)
        × (client_recv_msg timeout true ss (es ++ tail) ≡ client_recv_body true n (es' ++ tail))
  unfolding client_recv_msg client_recv_header
  client_recv_msg-header n left es tail h s e =
      let g : Got 4 (be32 n) left tail (readn 4 (es ++ tail)) =
        subst (λ k. Got k (be32 n) left tail (readn k (es ++ tail))) (length-be32 n)
          (readn-Got (be32 n) left es tail s e) in
      (
        g.stream,
        g.smooth,
        g.remains,
        ground (arith, ready, g, un_be32-be32 n h, client_readn-readn 4 4 (es ++ tail) g.code),
      )

  client_recv_body-Received :
      (d left : Bytes) (es tail : List Event)
      → length d + 1 < 2 ^ 31
      → IsSmooth es
      → bytes es ≡ d ++ left
      → (r : Recv) × (client_recv_body true (length d) (es ++ tail) ≡ some r)
        × Received d left tail r
  unfolding client_recv_body client_recv_tail
  client_recv_body-Received d left es tail h s e =
      let g = readn-Got d left es tail s e in
      (
        record {
          ret = pos 0;
          stored = some (some d, length d);
          rest = (readn (length d) (es ++ tail)).rest;
        },
        ground (arith, g, client_readn-readn (length d) (length d) (es ++ tail) g.code),
        record {
          code = refl;
          data_stored = refl;
          stream = g.stream;
          smooth = g.smooth;
          remains = g.remains;
          rest_eq = g.rest_eq;
        },
      )

  -- Once the socket is readable, the client receives a frame of less than 2 ^ 31 - 1 bytes as
  -- the server does: its data and their length, however the network cuts it up.
  pub client_recv_msg-frame :
      (d left : Bytes) (es tail : List Event)
      → length d + 1 < 2 ^ 31
      → IsSmooth es
      → bytes es ≡ frame d ++ left
      → (r : Recv) × (client_recv_msg timeout true ss (es ++ tail) ≡ some r)
        × Received d left tail r
  unfolding frame
  client_recv_msg-frame d left es tail h s e =
      let (es', s', e', p) =
        client_recv_msg-header (length d) (d ++ left) es tail (omega arith) s
          (e ∙ append_assoc (be32 (length d)) d left) in
      let (r, q, w) = client_recv_body-Received d left es' tail h s' e' in (r, p ∙ q, w)

  -- Where the peer closes between the length and the data, the client reports PeerCloseError and
  -- stores nothing, whatever length was announced.
  pub client_recv_msg-closed_between :
      (n : ℕ) (es : List Event)
      → 0 < n
      → n + 1 < 2 ^ 31
      → IsSmooth es
      → bytes es ≡ be32 n
      → client_recv_msg timeout true ss (es ++ arrived [] ∷ [])
        ≡ some (record { ret = peer_close_error; stored = none; rest = arrived [] ∷ [] })
  unfolding client_recv_body client_recv_tail
  client_recv_msg-closed_between n es pos_n h s e =
      let (es', s', e', p) =
        client_recv_msg-header n [] es (arrived [] ∷ []) (omega arith) s
          (e ∙ sym (append-nil (be32 n))) in
      let r = readn-closed n es' s' (omega (arith, ap length e')) in
      ground (
        arith,
        p,
        r,
        e',
        client_readn-readn n 0 (es' ++ arrived [] ∷ [])
            (ap (λ x. x.ret) r ∙ ap (λ b. pos (length b)) e'),
      )
