-- ===== src/Socket/ConnectTests.antt =====
-- Connections at concrete answers of the kernel.
use secure_data_transmission.Base.{
  ◌≡◌, refl, Bool, true, false, none, some, [], ◌∷◌, arith, pos, codes, suc,
}
use secure_data_transmission.Socket.{ready, timed_out, timeout_error, select_loop}
use secure_data_transmission.Socket.Connect.{
  Kernel, Fcntl, Mode, Connected, connected, in_progress, connect_timeout, client_connect_timeout,
  client_connect_to_host, no_block_io, block_io,
}
use secure_data_transmission.Socket.Connect.Timeout.{
  Switches, MadeBlocking, client_connect_to_host-MadeBlocking, connect_timeout-unused,
}

abbrev works : Fcntl
works = record { get_flags = none; set_flags = none }

-- A socket that blocks is connected in the end; one that does not is in progress.
abbrev by_mode : Bool → Connected
by_mode true = in_progress
by_mode false = connected

-- No answer comes within the timeout.
abbrev slow : Kernel
slow = record {
  socket = none;
  first = works;
  last = works;
  connect = by_mode;
  selects = timed_out ∷ [];
  select_errno = 0;
  getsockopt = none;
  pending = 0;
}

abbrev fresh : Mode
fresh = record { nonblocking = false; errno = 0 }

slow-Switches : Switches slow
slow-Switches = record { first_get = refl; first_set = refl; last_get = refl; last_set = refl }

slow_times_out :
    (client_connect_to_host slow (some (codes "::1")) 9898 (pos 10) fresh).0 ≡ timeout_error
unfolding client_connect_to_host client_connect_timeout no_block_io block_io select_loop
slow_times_out = refl

client_connect_to_host-MadeBlocking_example :
    MadeBlocking slow (client_connect_to_host slow (some (codes "::1")) 9898 (pos (suc 9)) fresh)
client_connect_to_host-MadeBlocking_example =
    client_connect_to_host-MadeBlocking slow (codes "::1") 9898 9 fresh slow-Switches refl
      (omega arith) (omega arith)

connect_timeout-unused_example :
    connect_timeout (record slow { selects = ready ∷ [] }) 10 fresh ≡ connect_timeout slow 10 fresh
connect_timeout-unused_example =
    connect_timeout-unused slow (ready ∷ []) 9 fresh slow-Switches (λ q. cc)
