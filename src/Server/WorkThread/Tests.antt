-- ===== src/Server/WorkThread/Tests.antt =====
-- The reading loop at two messages in three pieces, and at a closed connection.
use secure_data_transmission.Base.{false, ◌≡◌, refl, arith, none, List, [], ◌∷◌, codes}
use secure_data_transmission.Socket.{Event, arrived, failed, eintr, frame, be32}
use secure_data_transmission.Server.WorkThread.{read_all, unfinished}
use secure_data_transmission.Samples.{sample_ssl, sample_protobuf, sample_mysql}
use secure_data_transmission.Server.{handle_all}
use secure_data_transmission.Server.Tests.{inputs, server_with}
use secure_data_transmission.Server.WorkThread.Whole.{work_thread, work_thread-frames}
use secure_data_transmission.Server.WorkThread.Delivery.{read_all-closed}

abbrev stream : List Event
stream =
    arrived (0 ∷ 0 ∷ 0 ∷ 2 ∷ 104 ∷ [])
    ∷ failed eintr
    ∷ arrived (105 ∷ 0 ∷ [])
    ∷ arrived (0 ∷ 0 ∷ 1 ∷ 33 ∷ [])
    ∷ []

work_thread-frames_example :
    work_thread sample_ssl sample_protobuf sample_mysql 3
      (λ i. inputs)
      5
      stream
      (server_with false [])
    ≡ handle_all sample_ssl sample_protobuf sample_mysql
        (λ i. inputs)
        0
        5
        (codes "hi" ∷ codes "!" ∷ [])
        (server_with false [])
unfolding frame be32
work_thread-frames_example =
    work_thread-frames sample_ssl sample_protobuf sample_mysql 3 5 (λ i. inputs)
      (codes "hi" ∷ codes "!" ∷ []) stream (server_with false []) (omega arith, (omega arith, _))
      (omega arith) (omega arith, (omega arith, (omega arith, _))) refl

read_all-closed_example : read_all 5 none [] (arrived [] ∷ []) ≡ unfinished
read_all-closed_example = read_all-closed 5 none []
