-- ===== src/Examples/Pools.antt =====
-- Connection pools of src/HTTP/http_connection.h, and the theorems on them.
use cpp_server_framework.Prelude.{◌≡◌, Bool, true, [], ◌∷◌, some, arith}
use cpp_server_framework.ConnectionPool.{
  HttpConnection, HttpConnectionPool, new_pool, get_connection, release_ptr,
}
use cpp_server_framework.ConnectionPool.Reuse.{made, took, gave, get_connection_fresh}

abbrev old_conn : HttpConnection
old_conn = record { address = 1; create_time = 100; request = 0 }

abbrev new_conn : HttpConnection
new_conn = record { address = 2; create_time = 900; request = 0 }

abbrev all_connected : HttpConnection → Bool
all_connected c = true

-- One connection in the pool, one handed out.
abbrev two_conns : HttpConnectionPool
two_conns = record { max_alive_time = 500; max_request = 10; conns = old_conn ∷ []; total = 2 }

abbrev returned : HttpConnectionPool
returned =
    release_ptr all_connected 1000 old_conn
      (get_connection all_connected 900 (some old_conn) (new_pool 500 10)).1

get_connection_fresh_example :
    (get_connection all_connected 1100 (some new_conn) returned).0 ≡ some new_conn
get_connection_fresh_example =
    get_connection_fresh 1000 1100 all_connected (some new_conn) returned
      (gave 1000 all_connected old_conn
        (took 900 all_connected (some old_conn) (made 800 500 10) (omega arith)) (omega arith))
      (omega arith)
