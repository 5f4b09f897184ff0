-- ===== src/ConnectionPool.antt =====
-- src/HTTP/http_connection.h and http_connection.cpp, HttpConnectionPool: the connections that
-- `getConnection` hands out and `ReleasePtr`, the deleter of the pointers that it gives, takes back.
-- The clock is an argument; so are whether a connection's socket is connected when it is looked at,
-- and the connection that the address lookup, Socket::CreateTCP and connect give, if they succeed.
pub mod Accounting
pub mod Reuse
use cpp_server_framework.Prelude.{
  ℕ, suc, ◌+◌, ◌-◌, ◌%◌, ◌^◌, Bool, true, false, not, ◌||◌, List, [], ◌∷◌, ◌++◌, length, Option,
  none, some, ltb, leb, if◌then◌else◌,
}

pub record HttpConnection : Type 0 where
  pub address : ℕ
  pub create_time : ℕ
  pub request : ℕ

pub record HttpConnectionPool : Type 0 where
  pub max_alive_time : ℕ
  pub max_request : ℕ
  pub conns : List HttpConnection
  pub total : ℕ

unfoldable pub new_pool : ℕ → ℕ → HttpConnectionPool
new_pool max_alive_time max_request = record {
  max_alive_time = max_alive_time;
  max_request = max_request;
  conns = [];
  total = 0;
}

-- m_createTime + m_maxAliveTime in uint64_t.
abbrev pub deadline : ℕ → HttpConnection → ℕ
deadline max_alive_time c = (c.create_time + max_alive_time) % 2 ^ 64

-- m_total, an int32_t, is its bit pattern.
abbrev pub minus32 : ℕ → ℕ → ℕ
minus32 a b = (a + (2 ^ 32 - b % 2 ^ 32)) % 2 ^ 32

-- What the loop of `getConnection` leaves: `invalid_conns`, `ptr` and `m_conns`.
pub record Scan : Type 0 where
  pub invalid_conns : List HttpConnection
  pub found : Option HttpConnection
  pub conns : List HttpConnection

module _ (connected : HttpConnection → Bool) (now : ℕ) where
  unfoldable pub scan : ℕ → List HttpConnection → Scan
  scan max_alive_time [] = record { invalid_conns = []; found = none; conns = [] }
  scan max_alive_time (c ∷ cs) =
      let rest = scan max_alive_time cs in
      if not (connected c)
      then record rest { invalid_conns = c ∷ rest.invalid_conns }
      else if ltb (deadline max_alive_time c) now
      then record rest { invalid_conns = c ∷ rest.invalid_conns }
      else record { invalid_conns = []; found = some c; conns = cs }

  -- `fresh` is the connection that is made where the pool has none.
  unfoldable pub get_connection :
      Option HttpConnection → HttpConnectionPool → Option HttpConnection × HttpConnectionPool
  get_connection fresh pool =
      let s = scan pool.max_alive_time pool.conns in
      let left = record pool {
        conns = s.conns;
        total = minus32 pool.total (length s.invalid_conns);
      } in
      elim s.found [
        | some c ↦ (some c, left)
        | none ↦ elim fresh [
          | none ↦ (none, left)
          | some c ↦ (some c, record left { total = (left.total + 1) % 2 ^ 32 })
        ]
      ]

  unfoldable pub release_ptr : HttpConnection → HttpConnectionPool → HttpConnectionPool
  release_ptr ptr pool =
      let c = record ptr { request = (ptr.request + 1) % 2 ^ 64 } in
      if not (connected c)
        || (leb now (deadline pool.max_alive_time c) || leb pool.max_request c.request)
      then record pool { total = minus32 pool.total 1 }
      else record pool { conns = pool.conns ++ (c ∷ []) }
