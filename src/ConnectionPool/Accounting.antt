-- ===== src/ConnectionPool/Accounting.antt =====
-- `m_total` of src/HTTP/http_connection.cpp counts the connections in the pool and those handed out.
use cpp_server_framework.Prelude.{
  ℕ, suc, ◌+◌, ◌%◌, ◌^◌, ◌≡◌, refl, inl, inr, Bool, List, [], ◌∷◌, length, length-append, Option,
  none, some, Option-cases, arith,
}
use cpp_server_framework.ConnectionPool.{
  HttpConnection, HttpConnectionPool, scan, get_connection, release_ptr,
}

-- `handed` connections are with clients.
abbrev pub IsCounted : ℕ → HttpConnectionPool → Type 0
IsCounted handed pool = pool.total ≡ (length pool.conns + handed) % 2 ^ 32

abbrev pub one_if_some : Option HttpConnection → ℕ
one_if_some none = 0
one_if_some (some c) = 1

module _ (connected : HttpConnection → Bool) (now : ℕ) where
  length-scan :
      (max_alive_time : ℕ) (cs : List HttpConnection)
      → length (scan connected now max_alive_time cs).invalid_conns
          + one_if_some (scan connected now max_alive_time cs).found
          + length (scan connected now max_alive_time cs).conns
        ≡ length cs
  unfolding scan
  length-scan life [] = refl
  length-scan life (c ∷ cs) = ground (arith, length-scan life cs)

  -- If `m_total` is, modulo 2^32, the number of connections in the pool and those handed out, it is
  -- so after `getConnection`, with one more handed out if it gives a connection.
  pub get_connection-IsCounted :
      (handed : ℕ) (fresh : Option HttpConnection) (pool : HttpConnectionPool)
      → IsCounted handed pool
      → IsCounted
          (handed + one_if_some (get_connection connected now fresh pool).0)
          (get_connection connected now fresh pool).1
  unfolding get_connection
  get_connection-IsCounted handed fresh pool counted =
      let s = scan connected now pool.max_alive_time pool.conns in
      let sizes = length-scan pool.max_alive_time pool.conns in
      elim (Option-cases s.found) [
        | inl e ↦ elim (Option-cases fresh) [
          | inl f ↦ ground (arith, sizes, counted, e, f)
          | inr (d, f) ↦ ground (arith, sizes, counted, e, f)
        ]
        | inr (c, e) ↦ ground (arith, sizes, counted, e)
      ]

  -- If `m_total` is, modulo 2^32, the number of connections in the pool and those handed out, and
  -- at least one is handed out, it is so after `ReleasePtr`, with one handed out less.
  pub release_ptr-IsCounted :
      (handed : ℕ) (ptr : HttpConnection) (pool : HttpConnectionPool)
      → IsCounted (suc handed) pool
      → IsCounted handed (release_ptr connected now ptr pool)
  unfolding release_ptr
  release_ptr-IsCounted handed ptr pool counted =
      let c = record ptr { request = (ptr.request + 1) % 2 ^ 64 } in
      ground (arith, counted, length-append pool.conns (c ∷ []))
