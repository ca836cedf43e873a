-- ===== src/Server/Filling.antt =====
-- The node that the handlers fill from a request and two keys.
use secure_data_transmission.Base.{
  ◌+◌, ◌<◌, ◌≡◌, some, ◌∷◌, ◌++◌, arith, length, Bytes, c_str, strcpy, strcpy_fits, replicate,
  c_str-strcpy, drop, bind-some,
}
use secure_data_transmission.Shm.{Node, new_node}
use secure_data_transmission.Messages.{RequestMsg}
use secure_data_transmission.Server.{fill_node}
use secure_data_transmission.Server.RandomNum.{IdsFit}

-- The keys' texts fit their arrays of 128 bytes.
pub record KeysFit (auth_key ende_key : Bytes) : Type 0 where
  pub auth_fits : length (c_str auth_key) < 128
  pub ende_fits : length (c_str ende_key) < 128

-- A node filled from a request and two keys holds their texts.
pub record Filled (req : RequestMsg) (auth_key ende_key : Bytes) (n : Node) : Type 0 where
  pub client_is : c_str n.client_id ≡ c_str req.client_id
  pub server_is : c_str n.server_id ≡ c_str req.server_id
  pub auth_is : c_str n.auth_key ≡ c_str auth_key
  pub ende_is : c_str n.ende_key ≡ c_str ende_key

pub fill_node-fits :
    (req : RequestMsg) (auth_key ende_key : Bytes)
    → IdsFit req
    → KeysFit auth_key ende_key
    → (n : Node) × (fill_node req auth_key ende_key ≡ some n)
unfolding fill_node
fill_node-fits req auth_key ende_key f k =
    let c = strcpy_fits (replicate 12 0) req.client_id f.client_fits in
    let s = strcpy_fits (replicate 12 0) req.server_id f.server_fits in
    let a = strcpy_fits (replicate 128 0) auth_key k.auth_fits in
    let e = strcpy_fits (replicate 128 0) ende_key k.ende_fits in
    (
      record new_node {
        client_id =
            c_str req.client_id ++ 0 ∷ drop (length (c_str req.client_id) + 1) (replicate 12 0);
        server_id =
            c_str req.server_id ++ 0 ∷ drop (length (c_str req.server_id) + 1) (replicate 12 0);
        auth_key = c_str auth_key ++ 0 ∷ drop (length (c_str auth_key) + 1) (replicate 128 0);
        ende_key = c_str ende_key ++ 0 ∷ drop (length (c_str ende_key) + 1) (replicate 128 0);
      },
      rw (c, s, a, e),
    )

pub fill_node-Filled :
    (req : RequestMsg) (auth_key ende_key : Bytes) (n : Node)
    → fill_node req auth_key ende_key ≡ some n
    → Filled req auth_key ende_key n
unfolding fill_node
fill_node-Filled req auth_key ende_key n h =
    let (c, ec, h₁) = bind-some (strcpy (replicate 12 0) req.client_id) _ h in
    let (s, es, h₂) = bind-some (strcpy (replicate 12 0) req.server_id) _ h₁ in
    let (a, ea, h₃) = bind-some (strcpy (replicate 128 0) auth_key) _ h₂ in
    let (e, ee, h₄) = bind-some (strcpy (replicate 128 0) ende_key) _ h₃ in
    ground (
      arith,
      h₄,
      c_str-strcpy (replicate 12 0) req.client_id ec,
      c_str-strcpy (replicate 12 0) req.server_id es,
      c_str-strcpy (replicate 128 0) auth_key ea,
      c_str-strcpy (replicate 128 0) ende_key ee,
    )
