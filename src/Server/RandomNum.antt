-- ===== src/Server/RandomNum.antt =====
-- The first request: what the server keeps for the connection, and what it answers.
use secure_data_transmission.Base.{
  ℕ, ◌+◌, ◌<◌, ◌≡◌, refl, some, List, [], ◌∷◌, ◌++◌, arith, length, if◌then◌else◌, ◌==◌, Bytes,
  c_str, strcpy_fits, replicate, c_str-strcpy, drop,
}
use secure_data_transmission.Crypto.{OpenSsl}
use secure_data_transmission.Messages.{
  Protobuf, RequestMsg, RespondInfo, MsgType, new_respond, success, random_num,
}
use secure_data_transmission.Mysql.{Mysql}
use secure_data_transmission.Server.{
  Inputs, Server, lookup, erase, assign, start_respond, le32, random_num_answer,
}

-- Both ids of a request fit their arrays of 12 bytes.
pub record IdsFit (req : RequestMsg) : Type 0 where
  pub client_fits : length (c_str req.client_id) < 12
  pub server_fits : length (c_str req.server_id) < 12

-- A handler's head succeeds on ids that fit, and keeps their texts.
pub record Started (kind : MsgType) (req : RequestMsg) (info : RespondInfo) : Type 0 where
  pub kind_is : info.kind ≡ kind
  pub client_is : c_str info.client_id ≡ c_str req.client_id
  pub server_is : c_str info.server_id ≡ c_str req.server_id
  pub no_sign : info.sign ≡ []
  pub no_code : info.auth_code ≡ []

pub start_respond-Started :
    (kind : MsgType) (req : RequestMsg)
    → IdsFit req
    → (info : RespondInfo) × (start_respond kind req ≡ some info) × Started kind req info
unfolding start_respond new_respond
start_respond-Started kind req f =
    let c = strcpy_fits (replicate 12 0) req.client_id f.client_fits in
    let s = strcpy_fits (replicate 12 0) req.server_id f.server_fits in
    (
      record (new_respond kind) {
        client_id =
            c_str req.client_id ++ 0 ∷ drop (length (c_str req.client_id) + 1) (replicate 12 0);
        server_id =
            c_str req.server_id ++ 0 ∷ drop (length (c_str req.server_id) + 1) (replicate 12 0);
      },
      rw (c, s),
      record {
        kind_is = refl;
        client_is = c_str-strcpy (replicate 12 0) req.client_id c;
        server_is = c_str-strcpy (replicate 12 0) req.server_id s;
        no_sign = refl;
        no_code = refl;
      },
    )

pub lookup-erase :
    (fd k : ℕ) (m : List (ℕ × Bytes × Bytes))
    → lookup k (erase fd m) ≡ (if k == fd then ([], []) else lookup k m)
unfolding lookup erase
lookup-erase fd k [] = ground arith
lookup-erase fd k ((j, a, b) ∷ m) = ground (arith, lookup-erase fd k m)

-- An assignment to `randomNum[fd]` is seen under `fd`, and under no other descriptor.
pub lookup-assign :
    (fd k : ℕ) (a b : Bytes) (m : List (ℕ × Bytes × Bytes))
    → lookup k (assign fd a b m) ≡ (if k == fd then (a, b) else lookup k m)
unfolding lookup assign
lookup-assign fd k a b m = ground (arith, lookup-erase fd k m)

-- What the server keeps and answers after the first request.
pub record RandomNumKept (o : OpenSsl) {m : Mysql} (inp : Inputs) (req : RequestMsg) (fd : ℕ)
    (s t : Server m) (info : RespondInfo) : Type 0 where
  pub head : Started random_num req info
  pub rv_is : info.rv ≡ success
  pub body_is :
      info.body
      ≡ (le32 (length inp.random) ++ inp.random) ++ (le32 (length o.public_pem) ++ o.public_pem)
  pub kept :
      (k : ℕ)
      → lookup k t.random_nums
        ≡ (if k == fd then (req.body, inp.random) else lookup k s.random_nums)
  pub db_same : t.db ≡ s.db
  pub shm_same : t.shm ≡ s.shm

-- A first request whose ids fit is answered with success, its ids, and the two texts each behind
-- its length. The pair of random texts is kept for its connection alone; the database and the
-- shared memory are not touched.
pub random_num_answer-RandomNumKept :
    (o : OpenSsl) (p : Protobuf) (m : Mysql) (inp : Inputs) (req : RequestMsg) (fd : ℕ)
    (s : Server m)
    → IdsFit req
    → (info : RespondInfo) × ((t : Server m) × (random_num_answer o p m inp req fd s
          ≡ some (info, t))
        × RandomNumKept o inp req fd s t info)
unfolding random_num_answer
random_num_answer-RandomNumKept o p m inp req fd s f =
    let (i, e, h) = start_respond-Started random_num req f in
    let body : Bytes =
      (le32 (length inp.random) ++ inp.random) ++ (le32 (length o.public_pem) ++ o.public_pem) in
    (
      record i { rv = success; body = body },
      (
        record s { random_nums = assign fd req.body inp.random s.random_nums },
        rw (e, random_num_answer),
        record {
          head = record {
            kind_is = h.kind_is;
            client_is = h.client_is;
            server_is = h.server_is;
            no_sign = h.no_sign;
            no_code = h.no_code;
          };
          rv_is = refl;
          body_is = refl;
          kept = λ k. lookup-assign fd k req.body inp.random s.random_nums;
          db_same = refl;
          shm_same = refl;
        },
      ),
    )
