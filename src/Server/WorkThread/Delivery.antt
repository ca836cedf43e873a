-- ===== src/Server/WorkThread/Delivery.antt =====
-- Which requests the loop delivers, and when it does not end.
use secure_data_transmission.Base.{
  ◌-◌, ℕ, zero, suc, ◌<◌, ◌^◌, ◌≡◌, refl, subst, true, Option, some, List, [], ◌∷◌, ◌++◌,
  append_assoc, append-nil, arith, length, Bytes,
}
use secure_data_transmission.Socket.{
  Event, arrived, recv_msg, frame, recv_header, readn, readn_loop,
}
use secure_data_transmission.Socket.Stream.{bytes, IsSmooth}
use secure_data_transmission.Socket.Frames.{recv_msg-frame}
use secure_data_transmission.Socket.Broken.{recv_msg-empty}
use secure_data_transmission.Server.WorkThread.{messages, unfinished, read_all}

-- What the peer sent: the frames of the messages, one behind the other.
abbrev pub frames : List Bytes → Bytes
frames [] = []
frames (d ∷ ds) = frame d ++ frames ds

abbrev pub AllBelow : ℕ → List Bytes → Type 0
AllBelow n [] = Unit {0}
AllBelow n (d ∷ ds) = (length d < n) × AllBelow n ds

-- The reading loop delivers every message, each of less than 2 ^ 31 - 1 bytes, whose frames have
-- arrived whole and alone, in order, and then ends: any number of rounds above that of the
-- messages is enough, however the network has cut up their frames;
-- `malloc` finds memory.
pub read_all-messages :
    (ds done : List Bytes) (rounds : ℕ) (len : Option ℕ) (es : List Event)
    → AllBelow (2 ^ 31 - 1) ds
    → length ds < rounds
    → IsSmooth es
    → bytes es ≡ frames ds
    → read_all rounds len done es ≡ messages (done ++ ds)
unfolding read_all
read_all-messages ds done zero len es b h s e = absurd (omega arith)
read_all-messages [] done (suc rounds) len es b h s e =
    ground (arith, recv_msg-empty es s e, append-nil done)
read_all-messages (d ∷ ds) done (suc rounds) len es b h s e =
    let (r, q, w) = recv_msg-frame d (frames ds) es [] (omega (arith, b.0)) s e in
    let q' : recv_msg true es ≡ some r = subst (λ x. recv_msg true x ≡ some r) (append-nil es) q in
    let ih =
      read_all-messages ds (done ++ d ∷ []) rounds (some (length d)) w.stream b.1 (omega arith)
        w.smooth w.remains in
    ground (arith, q', w, ih, append-nil w.stream, append_assoc done (d ∷ []) ds)

-- Once the peer has closed, the loop never ends: it takes an empty message in every round, and
-- `recvMsg` goes on reporting success.
pub read_all-closed :
    (rounds : ℕ) (len : Option ℕ) (done : List Bytes)
    → read_all rounds len done (arrived [] ∷ []) ≡ unfinished
unfolding read_all recv_msg recv_header readn readn_loop
read_all-closed zero len done = refl
read_all-closed (suc rounds) len done = read_all-closed rounds (some 0) (done ++ [] ∷ [])
