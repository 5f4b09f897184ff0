-- ===== src/ConnectionPool/Reuse.antt =====
-- Which connections of src/HTTP/http_connection.cpp come back from the pool, over all calls.
use cpp_server_framework.Prelude.{
  ℕ, ◌+◌, ◌%◌, ◌^◌, ◌≤◌, ◌<◌, ◌≡◌, refl, sym, subst, inl, inr, Bool, not, ◌||◌, List, [], ◌∷◌, ◌++◌,
  Option, none, leb, Bool-cases, Option-cases, All, arith,
}
use cpp_server_framework.ConnectionPool.{
  HttpConnection, HttpConnectionPool, deadline, new_pool, scan, get_connection, release_ptr,
}

-- The pools that calls make from a new one, while the clock does not go back; whatever the sockets
-- do in between.
pub data IsReachable : ℕ → HttpConnectionPool → Type 0 where
  made :
      (now max_alive_time max_request : ℕ) → IsReachable now (new_pool max_alive_time max_request)
  took :
      {now : ℕ} {pool : HttpConnectionPool} (later : ℕ) (connected : HttpConnection → Bool)
      (fresh : Option HttpConnection)
      → IsReachable now pool
      → now ≤ later
      → IsReachable later (get_connection connected later fresh pool).1
  gave :
      {now : ℕ} {pool : HttpConnectionPool} (later : ℕ) (connected : HttpConnection → Bool)
      (ptr : HttpConnection)
      → IsReachable now pool
      → now ≤ later
      → IsReachable later (release_ptr connected later ptr pool)

-- Each connection in the pool is past its deadline.
abbrev AreStale : ℕ → ℕ → List HttpConnection → Type 0
AreStale now life cs = All (λ c. deadline life c < now) cs

AreStale-later :
    (now later life : ℕ) (cs : List HttpConnection)
    → now ≤ later
    → AreStale now life cs
    → AreStale later life cs
AreStale-later now later life [] le s = tt
AreStale-later now later life (c ∷ cs) le s =
    (omega (arith, s.0), AreStale-later now later life cs le s.1)

AreStale-append :
    (now life : ℕ) (cs : List HttpConnection) (c : HttpConnection)
    → AreStale now life cs
    → deadline life c < now
    → AreStale now life (cs ++ (c ∷ []))
AreStale-append now life [] c s h = (h, tt)
AreStale-append now life (d ∷ cs) c s h = (s.0, AreStale-append now life cs c s.1 h)

-- The loop drops them all.
scan-AreStale :
    (connected : HttpConnection → Bool) (now life : ℕ) (cs : List HttpConnection)
    → AreStale now life cs
    → ((scan connected now life cs).found ≡ none) × ((scan connected now life cs).conns ≡ [])
unfolding scan
scan-AreStale connected now life [] s = (refl, refl)
scan-AreStale connected now life (c ∷ cs) s =
    let (found, left) = scan-AreStale connected now life cs s.1 in
    let late = s.0 in (ground (arith, found, late), ground (arith, left, late))

taken_stale :
    (connected : HttpConnection → Bool) (now : ℕ) (fresh : Option HttpConnection)
    (pool : HttpConnectionPool)
    → AreStale now pool.max_alive_time pool.conns
    → ((get_connection connected now fresh pool).0 ≡ fresh)
      × ((get_connection connected now fresh pool).1.conns ≡ [])
      × ((get_connection connected now fresh pool).1.max_alive_time ≡ pool.max_alive_time)
unfolding get_connection
taken_stale connected now fresh pool s =
    let (found, left) = scan-AreStale connected now pool.max_alive_time pool.conns s in
    elim (Option-cases fresh) [
      | inl e ↦ (ground (arith, found, e), ground (arith, found, left, e), ground (arith, found, e))
      | inr (c, e) ↦
          (ground (arith, found, e), ground (arith, found, left, e), ground (arith, found, e))
    ]

-- `ReleasePtr` keeps a connection only once it is past its deadline.
abbrev counted_up : HttpConnection → HttpConnection
counted_up ptr = record ptr { request = (ptr.request + 1) % 2 ^ 64 }

abbrev deletes : (HttpConnection → Bool) → ℕ → HttpConnection → HttpConnectionPool → Bool
deletes connected now ptr pool =
    not (connected (counted_up ptr))
    || (leb now (deadline pool.max_alive_time (counted_up ptr))
        || leb pool.max_request (counted_up ptr).request)

released_stale :
    (connected : HttpConnection → Bool) (now : ℕ) (ptr : HttpConnection) (pool : HttpConnectionPool)
    → AreStale now pool.max_alive_time pool.conns
    → AreStale now
        (release_ptr connected now ptr pool).max_alive_time
        (release_ptr connected now ptr pool).conns
unfolding release_ptr
released_stale connected now ptr pool s =
    let c = counted_up ptr in
    let e = deletes connected now ptr pool in
    elim (Bool-cases e) [
      | inl yes_gone ↦ rw yes_gone s
      | inr kept ↦
          rw kept (AreStale-append now pool.max_alive_time pool.conns c s (ground (arith, kept)))
    ]

reachable-AreStale :
    (now : ℕ) (pool : HttpConnectionPool)
    → IsReachable now pool
    → AreStale now pool.max_alive_time pool.conns
unfolding new_pool
reachable-AreStale now pool (made _ _ _) = tt
reachable-AreStale later _ (took {now = now} {pool = pool} _ connected fresh r le) =
    let s =
      AreStale-later now later pool.max_alive_time pool.conns le (reachable-AreStale now pool r) in
    let (_, none_left, _) = taken_stale connected later fresh pool s in
    let next = (get_connection connected later fresh pool).1 in
    subst (AreStale later next.max_alive_time) (sym none_left) tt
reachable-AreStale later _ (gave {now = now} {pool = pool} _ connected ptr r le) =
    released_stale connected later ptr pool
      (AreStale-later now later pool.max_alive_time pool.conns le (reachable-AreStale now pool r))

-- From a pool that calls of `getConnection` and `ReleasePtr` have made from a new one, while the
-- clock did not go back, `getConnection` at a later time gives only the connection that it makes
-- itself, whatever the sockets do: no connection that was taken back is ever handed out again.
pub get_connection_fresh :
    (now later : ℕ) (connected : HttpConnection → Bool) (fresh : Option HttpConnection)
    (pool : HttpConnectionPool)
    → IsReachable now pool
    → now ≤ later
    → (get_connection connected later fresh pool).0 ≡ fresh
get_connection_fresh now later connected fresh pool r le =
    (taken_stale connected later fresh pool (
      AreStale-later now later pool.max_alive_time pool.conns le (reachable-AreStale now pool r))).0
