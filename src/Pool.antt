-- ===== src/Pool.antt =====
-- server/src/sqlConnectionPool.cpp, and HmacPool.cpp (classes HmacPool and HmacRAII), which has the
-- same shape: a list of idle items and two counters under a lock. An item is named by a number.
pub mod Sharing
mod Tests
use secure_data_transmission.Base.{
  ℕ, zero, suc, ◌+◌, Bool, true, false, Option, none, some, List, [], ◌∷◌, ◌++◌, ℤ, pos, negsuc,
  ◌>>=◌,
}

-- `connList`, `m_FreeConn` and `m_CurConn`.
pub record ItemPool : Type 0 where
  pub idle : List ℕ
  pub free : ℤ
  pub cur : ℤ

abbrev pub increment : ℤ → ℤ
increment (pos n) = pos (suc n)
increment (negsuc zero) = pos 0
increment (negsuc (suc n)) = negsuc n

abbrev pub decrement : ℤ → ℤ
decrement (pos zero) = negsuc 0
decrement (pos (suc n)) = pos n
decrement (negsuc n) = negsuc (suc n)

-- `init` with connections that are numbered from `n` down.
unfoldable pub init : ℕ → ItemPool
init zero = record { idle = []; free = pos 0; cur = pos 0 }
init (suc n) = let p = init n in record p { idle = n ∷ p.idle; free = increment p.free }

-- `GetConnection` and `GetHmac`: `none`, where the caller waits.
unfoldable pub get_connection : ItemPool → Option (ℕ × ItemPool)
get_connection p = elim p.idle [
  | [] ↦ none
  | c ∷ rest ↦ some (c, record p { idle = rest; free = decrement p.free; cur = increment p.cur })
]

-- `ReleaseConnection` and `ReleaseHmac`.
unfoldable pub release_connection : Option ℕ → ItemPool → Bool × ItemPool
release_connection none p = (false, p)
release_connection (some c) p =
    (true, record p { idle = p.idle ++ c ∷ []; free = increment p.free; cur = decrement p.cur })

-- `DestroyPool`: the items that it disconnects or deletes, and the pool. With no idle item it does
-- nothing.
unfoldable pub destroy_pool : ItemPool → List ℕ × ItemPool
destroy_pool p = elim p.idle [
  | [] ↦ ([], p)
  | c ∷ rest ↦ (c ∷ rest, record { idle = []; free = pos 0; cur = pos 0 })
]

unfoldable pub get_free_conn : ItemPool → ℤ
get_free_conn p = p.free

-- `connectionRAII(&mysql, conPool);` and `HmacRAII(&hmac, hmacPool);`: the object has no name, so its
-- destructor runs at the end of the statement. What is left to the handler is the item.
unfoldable pub raii_statement : ItemPool → Option (ℕ × ItemPool)
raii_statement p = do
  (c, q) ← get_connection p
  let (released, r) = release_connection (some c) q
  some (c, r)
