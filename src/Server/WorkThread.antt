-- ===== src/Server/WorkThread.antt =====
-- The first loop of `workThread`: it reads messages until `recvMsg` reports EAGAIN.
pub mod Delivery
pub mod Whole
mod Tests
use secure_data_transmission.Base.{
  ℕ, zero, suc, ◌+◌, ◌≡◌, Bool, true, false, Option, none, some, List, [], ◌∷◌, ◌++◌, length,
  if◌then◌else◌, ◌==◌, ℤ, pos, int_eq, Bytes,
}
use secure_data_transmission.Socket.{Event, Recv, recv_msg, again}

-- How the loop ends: with the messages; by an exception, where it makes a text from a null pointer
-- and a length that is not 0; or not within the rounds that it was given.
pub data Outcome : Type 0 where
  messages : List Bytes → Outcome
  thrown : Outcome
  undefined : Outcome
  unfinished : Outcome

-- `messages.emplace_back(recvBuf, recvLen)` of a round that stored a length: the message.
pub stored_message : Option Bytes × ℕ → Option Bytes
stored_message (some text, n) = some text
stored_message (none, n) = if n == 0 then some [] else none

-- A round that stored nothing finds the buffer null and the length of an earlier round, which is -1
-- (`none`) in the first.
pub stale_message : Option ℕ → Option Bytes
stale_message none = none
stale_message (some n) = if n == 0 then some [] else none

round_message : Option ℕ → Recv → Option Bytes
round_message len r = elim r.stored [ none ↦ stale_message len | some p ↦ stored_message p ]

round_length : Option ℕ → Recv → Option ℕ
round_length len r = elim r.stored [ none ↦ len | some p ↦ some p.1 ]

unfoldable pub read_all : ℕ → Option ℕ → List Bytes → List Event → Outcome
unfolding round_message round_length stored_message stale_message
read_all zero len done es = unfinished
read_all (suc rounds) len done es = elim (recv_msg true es) [
  | none ↦ undefined
  | some r ↦ elim (int_eq r.ret again) [
    | true ↦ messages done
    | false ↦ elim (round_message len r) [
      | none ↦ thrown
      | some msg ↦ read_all rounds (round_length len r) (done ++ msg ∷ []) r.rest
    ]
  ]
]
