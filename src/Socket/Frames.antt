-- ===== src/Socket/Frames.antt =====
-- A message that has been sent is received, however the network cuts it up.
use secure_data_transmission.Base.{
  ◌+◌, ℕ, ◌<◌, ◌^◌, ◌≡◌, ◌∙◌, subst, subst₂, refl, ap, true, some, List, [], ◌++◌, arith,
  append_assoc, length, take, drop, length-append, pos, Bytes, take-length-append,
  drop-length-append,
}
use secure_data_transmission.Socket.{
  Event, readn, readn_loop, be32, un_be32, frame, recv_msg, recv_header, recv_body, recv_tail, Recv,
}
use secure_data_transmission.Socket.Stream.{bytes, IsSmooth, Got, readn_loop-Got}

-- `ntohl` undoes `htonl`.
pub un_be32-be32 : (n : ℕ) → n < 2 ^ 32 → un_be32 (be32 n) ≡ n
unfolding un_be32 be32
un_be32-be32 n h = omega arith

pub length-be32 : (n : ℕ) → length (be32 n) ≡ 4
unfolding be32
length-be32 n = refl

-- `readn` of a prefix that the stream delivers whole.
pub readn-Got :
    (a b : Bytes) (es tail : List Event)
    → IsSmooth es
    → bytes es ≡ a ++ b
    → Got (length a) a b tail (readn (length a) (es ++ tail))
unfolding readn
readn-Got a b es tail s e =
    subst₂ (λ x y. Got (length a) x y tail (readn_loop (length a) (length a) [] (es ++ tail)))
      (ap (take (length a)) e ∙ take-length-append a b)
      (ap (drop (length a)) e ∙ drop-length-append a b)
      (readn_loop-Got (length a) (length a) [] es tail s
        (omega (arith, ap length e, length-append a b)))

-- A received message: the code 0, the data, their length; the stream goes on with `left` and `tail`.
pub record Received (d left : Bytes) (tail : List Event) (r : Recv) : Type 0 where
  pub code : r.ret ≡ pos 0
  pub data_stored : r.stored ≡ some (some d, length d)
  pub stream : List Event
  pub smooth : IsSmooth stream
  pub remains : bytes stream ≡ left
  pub rest_eq : r.rest ≡ stream ++ tail

recv_body-Received :
    (d left : Bytes) (es tail : List Event)
    → length d + 1 < 2 ^ 31
    → IsSmooth es
    → bytes es ≡ d ++ left
    → (r : Recv) × (recv_body true (length d) (es ++ tail) ≡ some r) × Received d left tail r
unfolding recv_body recv_tail
recv_body-Received d left es tail h s e =
    let g = readn-Got d left es tail s e in
    (
      record {
        ret = pos 0;
        stored = some (some d, length d);
        rest = (readn (length d) (es ++ tail)).rest;
      },
      ground (arith, g),
      record {
        code = refl;
        data_stored = refl;
        stream = g.stream;
        smooth = g.smooth;
        remains = g.remains;
        rest_eq = g.rest_eq;
      },
    )

-- What `recvMsg` does once its four bytes of length are there.
pub recv_msg-header :
    (n : ℕ) (left : Bytes) (es tail : List Event)
    → n < 2 ^ 32
    → IsSmooth es
    → bytes es ≡ be32 n ++ left
    → (es' : List Event) × IsSmooth es'
      × (bytes es' ≡ left)
      × (recv_msg true (es ++ tail) ≡ recv_body true n (es' ++ tail))
unfolding recv_msg recv_header
recv_msg-header n left es tail h s e =
    let g : Got 4 (be32 n) left tail (readn 4 (es ++ tail)) =
      subst (λ k. Got k (be32 n) left tail (readn k (es ++ tail))) (length-be32 n)
        (readn-Got (be32 n) left es tail s e) in
    (g.stream, g.smooth, g.remains, ground (arith, g, un_be32-be32 n h))

-- A frame of less than 2 ^ 31 - 1 bytes that the stream delivers, in whatever pieces and with whatever
-- interrupted calls, is received as its data and their length, with code 0; what follows it is
-- left in the stream; `malloc` finds memory.
pub recv_msg-frame :
    (d left : Bytes) (es tail : List Event)
    → length d + 1 < 2 ^ 31
    → IsSmooth es
    → bytes es ≡ frame d ++ left
    → (r : Recv) × (recv_msg true (es ++ tail) ≡ some r) × Received d left tail r
unfolding frame
recv_msg-frame d left es tail h s e =
    let (es', s', e', p) =
      recv_msg-header (length d) (d ++ left) es tail (omega arith) s
        (e ∙ append_assoc (be32 (length d)) d left) in
    let (r, q, w) = recv_body-Received d left es' tail h s' e' in (r, p ∙ q, w)
