-- ===== src/Socket/Tests.antt =====
-- Runs of the framing, and its theorems at a frame of two bytes in three pieces.
use secure_data_transmission.Base.{
  ◌≡◌, refl, arith, true, some, none, List, [], ◌∷◌, ◌++◌, pos, Bytes, codes,
}
use secure_data_transmission.Socket.{
  send_data, read_timeout, select_loop, writen_loop, writen, Event, arrived, failed, eintr, Recv,
  recv_msg, wrote, ready, frame, be32, send_msg, again, in_time, write_timeout, read_timeout,
}
use secure_data_transmission.Socket.Stream.{bytes, IsSmooth}
use secure_data_transmission.Socket.Frames.{Received, recv_msg-frame}
use secure_data_transmission.Socket.Sending.{recv_msg-send_msg}
use secure_data_transmission.Socket.Broken.{IsPart, recv_msg-drops_part}
use secure_data_transmission.Socket.ClientSocket.{client_read_timeout, client_recv_msg}
use secure_data_transmission.Socket.ClientSocket.Sending.{client_recv_msg-send_msg}

abbrev word : Bytes
word = codes "hi"

-- The frame of `word` in three pieces, with an interrupted call between two of them.
abbrev pieces : List Event
pieces =
    arrived (0 ∷ 0 ∷ []) ∷ failed eintr ∷ arrived (0 ∷ 2 ∷ 104 ∷ []) ∷ arrived (105 ∷ 9 ∷ []) ∷ []

pieces-bytes : bytes pieces ≡ frame word ++ 9 ∷ []
unfolding frame be32
pieces-bytes = refl

pieces-IsSmooth : IsSmooth pieces
pieces-IsSmooth = (omega arith, (omega arith, (omega arith, _)))

recv_msg-frame_example :
    (r : Recv) × (recv_msg true (pieces ++ []) ≡ some r) × Received word (9 ∷ []) [] r
recv_msg-frame_example =
    recv_msg-frame word (9 ∷ []) pieces [] (omega arith) pieces-IsSmooth pieces-bytes

sends : send_msg (some word) 0 true [] (wrote 3 ∷ []) ≡ (pos 0, frame word)
unfolding send_msg send_data frame be32 write_timeout writen writen_loop
sends = refl

recv_msg-send_msg_example :
    (r : Recv) × (recv_msg true (pieces ++ []) ≡ some r) × Received word (9 ∷ []) [] r
unfolding send_msg send_data frame be32 write_timeout writen writen_loop
recv_msg-send_msg_example =
    recv_msg-send_msg word (9 ∷ []) 0 true [] (wrote 3 ∷ []) pieces [] (omega arith) refl
      pieces-IsSmooth refl

-- The length and the first byte, and the length alone.
abbrev five : List Event
five = arrived (0 ∷ 0 ∷ 0 ∷ 2 ∷ 104 ∷ []) ∷ []

five-IsPart : IsPart word five (105 ∷ [])
unfolding frame be32
five-IsPart = record {
  small = omega arith;
  smooth = (omega arith, _);
  part = refl;
  lacks = omega arith;
}

recv_msg-drops_part_example :
    recv_msg true (five ++ []) ≡ some (record { ret = again; stored = none; rest = [] })
recv_msg-drops_part_example = recv_msg-drops_part word five (105 ∷ []) five-IsPart

waits : client_read_timeout 5 (ready ∷ []) ≡ in_time
unfolding client_read_timeout read_timeout select_loop
waits = refl

client_recv_msg-send_msg_example :
    (r : Recv) × (client_recv_msg 5 true (ready ∷ []) (pieces ++ []) ≡ some r)
    × Received word (9 ∷ []) [] r
unfolding send_msg send_data frame be32 write_timeout writen writen_loop
client_recv_msg-send_msg_example =
    client_recv_msg-send_msg word (9 ∷ []) 0 5 true [] (ready ∷ []) (wrote 3 ∷ []) pieces []
      (omega arith) refl waits pieces-IsSmooth refl
