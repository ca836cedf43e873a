-- ===== src/Messages/Codecs.antt =====
-- What one side encodes the other decodes.
use secure_data_transmission.Base.{IsInt, ◌≡◌, some}
use secure_data_transmission.Messages.{
  Protobuf, RoundTrips, RequestCodec, RespondCodec, RequestInfo, RespondInfo, request_encode,
  request_decode, respond_encode, respond_decode, request_message, respond_message,
}

module _ (p : Protobuf) (back : RoundTrips p) where
  -- The server decodes the client's request, with a key id of 32 bits, to the fields that the client set, each array as the
  -- text that it holds.
  pub request_decode-encode :
      (i : RequestInfo)
      → IsInt i.key_id
      → request_decode p (RequestCodec.decoding (request_encode p (RequestCodec.encoding i)))
        ≡ some (request_message i)
  unfolding request_encode request_decode request_message
  request_decode-encode i h = back.request_back (request_message i) h

  -- The client decodes the server's answer in the same way.
  pub respond_decode-encode :
      (i : RespondInfo)
      → respond_decode p (RespondCodec.decoding (respond_encode p (RespondCodec.encoding i)))
        ≡ some (respond_message i)
  unfolding respond_encode respond_decode
  respond_decode-encode i = back.respond_back (respond_message i)
