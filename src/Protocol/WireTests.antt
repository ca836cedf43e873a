-- ===== src/Protocol/WireTests.antt =====
-- A check and a revocation of one key over a network that cuts off the first byte of what it carries.
use secure_data_transmission.Base.{
  length, c_str, ◌≡◌, refl, arith, true, false, some, List, [], ◌∷◌, ◌>>=◌, Bytes, append-nil,
}
use secure_data_transmission.Socket.Sending.{AllTaken}
use secure_data_transmission.Socket.{
  read_timeout, write_timeout, Event, arrived, failed, eintr, wrote,
}
use secure_data_transmission.Socket.ClientSocket.{client_read_timeout}
use secure_data_transmission.Socket.Stream.{bytes, IsSmooth}
use secure_data_transmission.Crypto.{auth, hex, hash_result, add_data, new_hash}
use secure_data_transmission.Client.{client_auth_code}
use secure_data_transmission.Messages.{
  MsgType, RequestCodec, RespondCodec, request_message, respond_message, key_check, key_revoke,
  request_encode, respond_encode,
}
use secure_data_transmission.Samples.{
  write_request, write_respond, put_text, sample_ssl, sample_protobuf, sample_mysql,
}
use secure_data_transmission.Samples.Documents.{sample-RoundTrips}
use secure_data_transmission.Server.{reply}
use secure_data_transmission.Server.KeyTests.{row_server}
use secure_data_transmission.Server.Tests.{inputs}
use secure_data_transmission.Server.ExchangeTests.{
  answer_of, key_stored, checks_request, revokes_request,
}
use secure_data_transmission.Client.Tests.{client, request_of, client_after, starts}
use secure_data_transmission.Protocol.Checking.{checking, revoking}
use secure_data_transmission.Protocol.Wire.{Net, IsReliable, checking_over_wire, revoking_over_wire}
use secure_data_transmission.Protocol.Wire.Carried.{
  checking_over_wire-checking, revoking_over_wire-revoking,
}

-- The first byte arrives alone, and an interrupted call comes before the others.
cut : Bytes → List Event
cut [] = []
cut (b ∷ []) = arrived (b ∷ []) ∷ []
cut (b ∷ c ∷ bs) = arrived (b ∷ []) ∷ failed eintr ∷ arrived (c ∷ bs) ∷ []

cut-IsSmooth : (b : Bytes) → IsSmooth (cut b)
unfolding cut
cut-IsSmooth [] = _
cut-IsSmooth (b ∷ []) = (omega arith, _)
cut-IsSmooth (b ∷ c ∷ bs) = (omega arith, (omega arith, _))

bytes-cut : (b : Bytes) → bytes (cut b) ≡ b
unfolding cut
bytes-cut [] = refl
bytes-cut (b ∷ []) = refl
bytes-cut (b ∷ c ∷ bs) = ground (arith, append-nil bs)

abbrev net : Net
net = record {
  to_server = cut;
  to_client = cut;
  timeout = 0;
  client_writable = [];
  client_writes = wrote 3 ∷ [];
  client_readable = [];
  server_writable = [];
  server_writes = [];
}

net-IsReliable : IsReliable net
unfolding client_read_timeout read_timeout write_timeout AllTaken
net-IsReliable = record {
  to_server_smooth = cut-IsSmooth;
  to_server_bytes = bytes-cut;
  to_client_smooth = cut-IsSmooth;
  to_client_bytes = bytes-cut;
  arrives = refl;
  client_can = refl;
  server_can = refl;
  client_taken = _;
  server_taken = _;
}

request_size :
    (kind : MsgType)
    → length (request_encode sample_protobuf (RequestCodec.encoding (request_of kind))) ≡ 139
unfolding request_encode write_request put_text request_message c_str client_auth_code auth hex
    hash_result add_data new_hash
request_size kind = refl

answer_size :
    (kind : MsgType)
    → length (respond_encode sample_protobuf (RespondCodec.encoding (answer_of kind))) ≡ 10
unfolding respond_encode write_respond put_text respond_message c_str
answer_size kind = refl

checking_over_wire-checking_example :
    checking_over_wire sample_ssl sample_protobuf sample_mysql net client
      (row_server false)
      (λ i. inputs)
      5
    ≡ (do
      (ret, c₂, s₂) ←
          checking sample_ssl sample_protobuf sample_mysql client (row_server false) inputs true
      some (ret, c₂, reply sample_ssl sample_protobuf sample_mysql 5 (answer_of key_check) s₂))
checking_over_wire-checking_example =
    checking_over_wire-checking sample_ssl sample_protobuf sample_mysql net client
      (client_after key_check) (row_server false) key_stored (λ i. inputs) 5 (request_of key_check)
      (answer_of key_check) net-IsReliable sample-RoundTrips (starts key_check) (omega arith)
      checks_request (omega (arith, request_size key_check)) (omega (arith, request_size key_check))
      (omega (arith, answer_size key_check)) (omega (arith, answer_size key_check))

revoking_over_wire-revoking_example :
    revoking_over_wire sample_ssl sample_protobuf sample_mysql net client
      (row_server false)
      (λ i. inputs)
      5
    ≡ (do
      (ret, c₂, s₂) ←
          revoking sample_ssl sample_protobuf sample_mysql client (row_server false) inputs true
      some (ret, c₂, reply sample_ssl sample_protobuf sample_mysql 5 (answer_of key_revoke) s₂))
revoking_over_wire-revoking_example =
    revoking_over_wire-revoking sample_ssl sample_protobuf sample_mysql net client
      (client_after key_revoke) (row_server false) (row_server false) (λ i. inputs) 5
      (request_of key_revoke) (answer_of key_revoke) net-IsReliable sample-RoundTrips
      (starts key_revoke) (omega arith) revokes_request (omega (arith, request_size key_revoke))
      (omega (arith, request_size key_revoke)) (omega (arith, answer_size key_revoke))
      (omega (arith, answer_size key_revoke))
