-- ===== src/Messages.antt =====
-- The messages of transit_data.proto, and the codecs and factories of RequestCodec.cpp,
-- RespondCodec.cpp, RequestFactory.cpp and RespondFactory.cpp. Protocol Buffers is a parameter.
pub mod Codecs
use secure_data_transmission.Base.{
  IsInt, ℕ, ◌≡◌, Bool, true, false, Option, none, some, List, [], ◌∷◌, replicate, ℤ, pos, Bytes,
  c_str,
}

-- `TYPE`. The enum is open: another number can be received. `unknown_type n` is the number n + 4.
pub data MsgType : Type 0 where
  random_num pre_key key_check key_revoke : MsgType
  unknown_type : ℕ → MsgType

-- `RV`. `unknown_rv n` is the number n + 3.
pub data Rv : Type 0 where
  success auth_err server_err : Rv
  unknown_rv : ℕ → Rv

pub record RequestMsg : Type 0 where
  pub kind : MsgType
  pub client_id : Bytes
  pub auth_code : Bytes
  pub server_id : Bytes
  pub sign : Bytes
  pub body : Bytes
  pub keyid : ℤ

pub record RespondMsg : Type 0 where
  pub kind : MsgType
  pub rv : Rv
  pub client_id : Bytes
  pub server_id : Bytes
  pub sign : Bytes
  pub auth_code : Bytes
  pub body : Bytes

-- `SerializeAsString` and `ParseFromString`.
pub record Protobuf : Type 0 where
  pub write_request : RequestMsg → Bytes
  pub parse_request : Bytes → Option RequestMsg
  pub write_respond : RespondMsg → Bytes
  pub parse_respond : Bytes → Option RespondMsg

-- What the library documents: parsing gives back what was serialised, with a key id of 32 bits.
pub record RoundTrips (p : Protobuf) : Type 0 where
  pub request_back : (m : RequestMsg) → IsInt m.keyid → p.parse_request (p.write_request m) ≡ some m
  pub respond_back : (m : RespondMsg) → p.parse_respond (p.write_respond m) ≡ some m

-- `RequestInfo`: character arrays of 12, 65 and 12 bytes.
pub record RequestInfo : Type 0 where
  pub kind : MsgType
  pub client_id : Bytes
  pub auth_code : Bytes
  pub server_id : Bytes
  pub sign : Bytes
  pub body : Bytes
  pub key_id : ℤ

-- `RequestInfo req;` with its type set. `keyId` has no initialiser: its value is an argument.
unfoldable pub new_request : MsgType → ℤ → RequestInfo
new_request kind uninitialised = record {
  kind = kind;
  client_id = replicate 12 0;
  auth_code = replicate 65 0;
  server_id = replicate 12 0;
  sign = [];
  body = [];
  key_id = uninitialised;
}

-- `RespondInfo`: character arrays of 12 bytes.
pub record RespondInfo : Type 0 where
  pub kind : MsgType
  pub rv : Rv
  pub client_id : Bytes
  pub server_id : Bytes
  pub sign : Bytes
  pub auth_code : Bytes
  pub body : Bytes

unfoldable pub new_respond : MsgType → RespondInfo
new_respond kind = record {
  kind = kind;
  rv = success;
  client_id = replicate 12 0;
  server_id = replicate 12 0;
  sign = [];
  auth_code = [];
  body = [];
}

-- `initMessage(RequestInfo*)`: an array is set as the text that it holds.
unfoldable pub request_message : RequestInfo → RequestMsg
request_message i = record {
  kind = i.kind;
  client_id = c_str i.client_id;
  auth_code = c_str i.auth_code;
  server_id = c_str i.server_id;
  sign = i.sign;
  body = i.body;
  keyid = i.key_id;
}

-- `initMessage(RespondInfo*)`.
unfoldable pub respond_message : RespondInfo → RespondMsg
respond_message i = record {
  kind = i.kind;
  rv = i.rv;
  client_id = c_str i.client_id;
  server_id = c_str i.server_id;
  sign = i.sign;
  auth_code = i.auth_code;
  body = i.body;
}

-- A `RequestFactory`, made to encode or to decode, and the codec that `createCodec` makes of it.
pub data RequestCodec : Type 0 where
  encoding : RequestInfo → RequestCodec
  decoding : Bytes → RequestCodec

pub data RespondCodec : Type 0 where
  encoding : RespondInfo → RespondCodec
  decoding : Bytes → RespondCodec

-- The message of a codec that was made to decode is empty until it is parsed.
abbrev pub empty_request : RequestMsg
empty_request = record {
  kind = random_num;
  client_id = [];
  auth_code = [];
  server_id = [];
  sign = [];
  body = [];
  keyid = pos 0;
}

abbrev pub empty_respond : RespondMsg
empty_respond = record {
  kind = random_num;
  rv = success;
  client_id = [];
  server_id = [];
  sign = [];
  auth_code = [];
  body = [];
}

module _ (p : Protobuf) where
  -- `msgEncode`.
  unfoldable pub request_encode : RequestCodec → Bytes
  request_encode (RequestCodec.encoding i) = p.write_request (request_message i)
  request_encode (RequestCodec.decoding s) = p.write_request empty_request

  -- The server's `msgDecode`: a null pointer where the bytes do not parse. A codec that was made to
  -- encode has an empty string to parse.
  unfoldable pub request_decode : RequestCodec → Option RequestMsg
  request_decode (RequestCodec.encoding i) = p.parse_request []
  request_decode (RequestCodec.decoding s) = p.parse_request s

  unfoldable pub respond_encode : RespondCodec → Bytes
  respond_encode (RespondCodec.encoding i) = p.write_respond (respond_message i)
  respond_encode (RespondCodec.decoding s) = p.write_respond empty_respond

  -- The client's `msgDecode`.
  unfoldable pub respond_decode : RespondCodec → Option RespondMsg
  respond_decode (RespondCodec.encoding i) = p.parse_respond []
  respond_decode (RespondCodec.decoding s) = p.parse_respond s
