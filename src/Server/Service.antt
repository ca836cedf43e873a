-- ===== src/Server/Service.antt =====
-- What the four handlers promise of the table of keys: the changes that a request may make
-- to it as a map from pairs of ids to nodes.
pub mod Refine
use secure_data_transmission.Base.{
  ℕ, ◌≡◌, ◌⊎◌, Option, none, some, List, Bytes, pos, if◌then◌else◌, ◌++◌,
}
use secure_data_transmission.Shm.{Node, find, same_ids}
use secure_data_transmission.Shm.Lookup.{NoIds, SameIds}
use secure_data_transmission.Crypto.{OpenSsl, rsa_pri_key_decrypt}
use secure_data_transmission.Messages.{Protobuf, RequestMsg, pre_key, key_check, key_revoke}
use secure_data_transmission.Mysql.{Mysql, KeyRow}
use secure_data_transmission.Shm.Views.{View, IsSame, IsPut, IsRevoked}
use secure_data_transmission.Server.{Inputs, Server, auth_code_of}
use secure_data_transmission.Server.Filling.{Filled}
use secure_data_transmission.Server.Premaster.{auth_for, ende_for}
use secure_data_transmission.Server.Check.{Matched}

module _ (o : OpenSsl) (p : Protobuf) (m : Mysql) where
  -- Why a request may put a key into the table: it has proved that it knows the premaster, or that
  -- it knows both keys of a usable row of the database.
  pub data Earns (inp : Inputs) (req : RequestMsg) (fd : ℕ) (s : Server m) (n : Node) : Type 0 where
    by_premaster :
        (premaster : Bytes)
        → req.kind ≡ pre_key
        → rsa_pri_key_decrypt o req.body ≡ some premaster
        → req.auth_code ≡ auth_code_of o p m (auth_for o p m inp req fd s premaster) req.body
        → Filled req
            (auth_for o p m inp req fd s premaster)
            (ende_for o p m inp req fd s premaster)
            n
        → Earns inp req fd s n
    by_row :
        (row : KeyRow) (db : m.Db)
        → req.kind ≡ key_check
        → Matched o p m req s.db db row
        → Filled req row.2 row.3 n
        → n.seckey_id ≡ req.keyid
        → Earns inp req fd s n

  -- What one request may do to the map.
  pub data Change (inp : Inputs) (req : RequestMsg) (fd : ℕ) (s : Server m) (v w : View)
      : Type 0 where
    keeps : IsSame v w → Change inp req fd s v w
    puts :
        (n : Node)
        → Earns inp req fd s n
        → SameIds req.client_id req.server_id n
        → n.status ≡ pos 1
        → IsPut n v w
        → Change inp req fd s v w
    revokes :
        (row : KeyRow) (db : m.Db)
        → req.kind ≡ key_revoke
        → Matched o p m req s.db db row
        → IsRevoked req.keyid v w
        → Change inp req fd s v w
