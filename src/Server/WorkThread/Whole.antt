-- ===== src/Server/WorkThread/Whole.antt =====
-- The whole of `workThread`: its first loop and its second, on one connection. What it does last,
-- `fdMode`, is in the module of the epoll loop.
use secure_data_transmission.Base.{
  ◌-◌, ℕ, ◌<◌, ◌^◌, ◌≡◌, Option, none, List, [], length, Bytes, arith,
}
use secure_data_transmission.Crypto.{OpenSsl}
use secure_data_transmission.Messages.{Protobuf}
use secure_data_transmission.Mysql.{Mysql}
use secure_data_transmission.Socket.{Event}
use secure_data_transmission.Socket.Stream.{bytes, IsSmooth}
use secure_data_transmission.Server.{Inputs, Server, handle_all}
use secure_data_transmission.Server.WorkThread.{messages, thrown, undefined, unfinished, read_all}
use secure_data_transmission.Server.WorkThread.Delivery.{frames, AllBelow, read_all-messages}

module _ (o : OpenSsl) (p : Protobuf) (m : Mysql) where
  -- `none` also where the first loop does not end within the rounds, or ends by an exception.
  unfoldable pub work_thread : ℕ → (ℕ → Inputs) → ℕ → List Event → Server m → Option (Server m)
  work_thread rounds inp fd es s = elim (read_all rounds none [] es) [
    | messages msgs ↦ handle_all o p m inp 0 fd msgs s
    | thrown ↦ none
    | undefined ↦ none
    | unfinished ↦ none
  ]

  -- A worker handles the messages whose frames have arrived whole and alone, each of less than
  -- 2 ^ 31 - 1 bytes, in order: any number of rounds above that of the messages is enough, however the
  -- network has cut up their frames, while no read fails but by an
  -- interruption and `malloc` finds memory.
  pub work_thread-frames :
      (rounds fd : ℕ) (inp : ℕ → Inputs) (ds : List Bytes) (es : List Event) (s : Server m)
      → AllBelow (2 ^ 31 - 1) ds
      → length ds < rounds
      → IsSmooth es
      → bytes es ≡ frames ds
      → work_thread rounds inp fd es s ≡ handle_all o p m inp 0 fd ds s
  unfolding work_thread
  work_thread-frames rounds fd inp ds es s b h w e =
      ground (arith, read_all-messages ds [] rounds none es b h w e)
