-- ===== src/Socket/Broken.antt =====
-- Messages of which the socket delivers a part.
use secure_data_transmission.Base.{
  subst, ◌+◌, ℕ, ◌≤◌, ◌<◌, ◌^◌, ◌≡◌, ◌∙◌, ◌≢◌, refl, ap, true, some, none, List, [], ◌∷◌, ◌++◌,
  arith, append-nil, length, drop, length-append, pos, Bytes, dec_le, length-drop, drop-all,
}
use secure_data_transmission.Socket.{
  Event, arrived, readn, readn_loop, be32, frame, recv_msg, recv_header, recv_body, recv_tail,
  again, peer_close_error,
}
use secure_data_transmission.Socket.Stream.{bytes, IsSmooth, readn_loop-skip}
use secure_data_transmission.Socket.Frames.{recv_msg-header}

-- `readn` of more than a stream holds, where nothing has arrived behind it.
readn-again :
    (n : ℕ) (es : List Event)
    → IsSmooth es
    → length (bytes es) < n
    → readn n (es ++ []) ≡ record { ret = again; buf = bytes es; rest = [] }
unfolding readn readn_loop
readn-again n es s h = ground (arith, readn_loop-skip n n [] es [] s h)

-- The same where the peer has closed.
pub readn-closed :
    (n : ℕ) (es : List Event)
    → IsSmooth es
    → length (bytes es) < n
    → readn n (es ++ arrived [] ∷ [])
      ≡ record { ret = pos (length (bytes es)); buf = bytes es; rest = arrived [] ∷ [] }
unfolding readn readn_loop
readn-closed n es s h = ground (arith, readn_loop-skip n n [] es (arrived [] ∷ []) s h)

prefix_split :
    (a d p m : Bytes)
    → p ++ m ≡ a ++ d
    → length a ≤ length p
    → (p ≡ a ++ drop (length a) p) × (drop (length a) p ++ m ≡ d)
prefix_split [] d p m e h = (refl, e)
prefix_split (x ∷ a) d [] m e h = absurd (omega arith)
prefix_split (x ∷ a) d (y ∷ p) m e h = ground (arith, prefix_split a d p m)

-- A frame of less than 2 ^ 31 - 1 bytes of which a proper part has arrived.
pub record IsPart (d : Bytes) (es : List Event) (missing : Bytes) : Type 0 where
  pub small : length d + 1 < 2 ^ 31
  pub smooth : IsSmooth es
  pub part : bytes es ++ missing ≡ frame d
  pub lacks : 0 < length missing

module _ (d : Bytes) (es : List Event) (missing : Bytes) (w : IsPart d es missing) where
  part_split :
      4 ≤ length (bytes es)
      → (bytes es ≡ be32 (length d) ++ drop 4 (bytes es)) × (drop 4 (bytes es) ++ missing ≡ d)
  unfolding frame be32
  part_split h = prefix_split (be32 (length d)) d (bytes es) missing w.part h

  -- `recvMsg` comes to the body, of which less than its length is there.
  part_body :
      (tail : List Event)
      → 4 ≤ length (bytes es)
      → (es' : List Event) × IsSmooth es'
        × (bytes es' ≡ drop 4 (bytes es))
        × (length (bytes es') < length d)
        × (recv_msg true (es ++ tail) ≡ recv_body true (length d) (es' ++ tail))
  part_body tail h =
      let (e, f) = part_split h in
      let small = w.small in
      let lacks = w.lacks in
      let (es', s', e', p) =
        recv_msg-header (length d) (drop 4 (bytes es)) es tail (omega arith) w.smooth e in
      (
        es',
        s',
        e',
        omega (arith, ap length e', ap length f, length-append (drop 4 (bytes es)) missing),
        p,
      )

  -- Where only a part of a frame of less than 2 ^ 31 - 1 bytes has arrived, no read has failed
  -- but by an interruption, and `malloc` finds memory, `recvMsg` reports EAGAIN, and the part is gone: no
  -- event is left in the socket, and nothing has been stored for the caller.
  pub recv_msg-drops_part :
      recv_msg true (es ++ []) ≡ some (record { ret = again; stored = none; rest = [] })
  unfolding recv_msg recv_header recv_body recv_tail
  recv_msg-drops_part = elim (dec_le 4 (length (bytes es))) [
    | yes h ↦
        let (es', s', e', lt, p) = part_body [] h in
        let small = w.small in ground (arith, p, readn-again (length d) es' s' lt)
    | no h ↦ ground (arith, readn-again 4 es w.smooth (omega arith))
  ]

  -- Where the peer closes within the length or within the data of a frame of less than
  -- 2 ^ 31 - 1 bytes, the server's `recvMsg` reports PeerCloseError and stores nothing.
  pub recv_msg-closed_within :
      length (bytes es) ≢ 0
      → length (bytes es) ≢ 4
      → recv_msg true (es ++ arrived [] ∷ [])
        ≡ some (record { ret = peer_close_error; stored = none; rest = arrived [] ∷ [] })
  unfolding recv_msg recv_header recv_body recv_tail
  recv_msg-closed_within ne₀ ne₄ = elim (dec_le 4 (length (bytes es))) [
    | yes h ↦
        let (es', s', e', lt, p) = part_body (arrived [] ∷ []) h in
        let small = w.small in
        ground (arith, p, readn-closed (length d) es' s' lt, ap length e', length-drop 4 (bytes es))
    | no h ↦ ground (arith, readn-closed 4 es w.smooth (omega arith))
  ]

  -- Where the peer closes between the length and the data, `recvMsg` reports success: it stores the
  -- length that was announced, and a buffer into which nothing has been read.
  pub recv_msg-closed_between :
      length (bytes es) ≡ 4
      → recv_msg true (es ++ arrived [] ∷ [])
        ≡ some (record { ret = pos 0; stored = some (some [], length d); rest = arrived [] ∷ [] })
  unfolding recv_msg recv_header recv_body recv_tail
  recv_msg-closed_between e₄ =
      let (es', s', e', lt, p) = part_body (arrived [] ∷ []) (omega arith) in
      let small = w.small in
      let none_read : bytes es' ≡ [] = e' ∙ drop-all 4 (bytes es) (omega arith) in
      ground (arith, p, none_read, readn-closed (length d) es' s' lt)

-- With nothing in the socket, `recvMsg` reports EAGAIN.
pub recv_msg-empty :
    (es : List Event)
    → IsSmooth es
    → bytes es ≡ []
    → recv_msg true es ≡ some (record { ret = again; stored = none; rest = [] })
unfolding recv_msg recv_header
recv_msg-empty es s e = ground (
  arith,
  subst (λ x. readn 4 x ≡ record { ret = again; buf = bytes es; rest = [] }) (append-nil es)
      (readn-again 4 es s (omega (arith, ap length e))),
)
