-- ===== src/Server/ServiceTests.antt =====
-- What a request does to the table of keys, at one key check.
use secure_data_transmission.Base.{
  ◌≡◌, ◌⊎◌, refl, arith, false, some, [], ◌∷◌, ap, Bytes, codes, bind-eq,
}
use secure_data_transmission.Shm.{find}
use secure_data_transmission.Shm.Views.{view}
use secure_data_transmission.Messages.{key_check, request_decode}
use secure_data_transmission.Samples.{sample_ssl, sample_protobuf, sample_mysql}
use secure_data_transmission.Samples.Documents.{sample-RoundTrips}
use secure_data_transmission.Server.{
  Server, reply, answered, dispatch, key_check_request, handle_all,
}
use secure_data_transmission.Server.Check.{Confirmed, check_answer-Confirmed}
use secure_data_transmission.Server.Service.{Change}
use secure_data_transmission.Server.Service.Refine.{dispatch-Change}
use secure_data_transmission.Server.Provenance.{Earned, handle_all-Earned}
use secure_data_transmission.Server.Tests.{inputs, named}
use secure_data_transmission.Server.KeyTests.{row_server, row_request, confirmed}

abbrev checked : Server sample_mysql
checked = reply sample_ssl sample_protobuf sample_mysql 4 confirmed.0 confirmed.1.0

dispatches :
    dispatch sample_ssl sample_protobuf sample_mysql inputs
      (row_request key_check)
      4
      (row_server false)
    ≡ some checked
unfolding dispatch key_check_request answered
dispatches = ap (answered sample_ssl sample_protobuf sample_mysql 4) confirmed.1.1

dispatch-Change_example :
    Change sample_ssl sample_protobuf sample_mysql inputs
      (row_request key_check)
      4
      (row_server false)
      (view (row_server false).shm)
      (view checked.shm)
dispatch-Change_example =
    dispatch-Change sample_ssl sample_protobuf sample_mysql inputs (row_request key_check) 4
      (row_server false) checked dispatches

abbrev message : Bytes
message = sample_protobuf.write_request (row_request key_check)

handles :
    handle_all sample_ssl sample_protobuf sample_mysql
      (λ i. inputs)
      0
      4
      (message ∷ [])
      (row_server false)
    ≡ some checked
unfolding handle_all request_decode
handles =
    bind-eq _ (sample-RoundTrips.request_back (row_request key_check) (omega arith))
      (bind-eq _ dispatches refl)

abbrev proved :
    Confirmed sample_ssl sample_protobuf sample_mysql
      (row_request key_check)
      (row_server false)
      confirmed.1.0
proved =
    check_answer-Confirmed sample_ssl sample_protobuf sample_mysql inputs (row_request key_check)
      (row_server false) confirmed.1.0 confirmed.0 named confirmed.1.1 confirmed.1.2

handle_all-Earned_example :
    (find (codes "C1") (codes "S") (row_server false).shm ≡ some (proved.node))
    ⊎ Earned sample_ssl sample_protobuf sample_mysql
        (λ i. inputs)
        4
        (codes "C1")
        (codes "S")
        (proved.node)
        0
        (message ∷ [])
        (row_server false)
unfolding reply
handle_all-Earned_example =
    handle_all-Earned sample_ssl sample_protobuf sample_mysql (λ i. inputs) 0 4 (message ∷ [])
      (row_server false) checked (codes "C1") (codes "S") (proved.node) handles named proved.stored
      proved.live
