-- ===== src/TcpSever/Tests.antt =====
-- A server with three slave loops and one connection.
use high_concurrency_server.Common.{
  ℕ, ◌≤◌, ◌≡◌, refl, true, some, List, [], ◌∷◌, arith, inr, ◌^◌, ◌-◌,
}
use high_concurrency_server.TcpSever.{
  TcpSever, ConnPtr, find, new_connection, remove_in_loop, through_int,
}
use high_concurrency_server.TcpSever.Conns.{IsValid}
use high_concurrency_server.TcpSever.Ids.{remove_in_loop-new_connection}
use high_concurrency_server.TcpSever.Runs.{
  ServerCall, accepted, forget, after, run, fd_at, replay, run-replay,
}

abbrev first : ConnPtr
first = record { conn_id = 1; fd = 8; loop = 5 }

-- The server has given the ids up to `n`.
abbrev given : ℕ → TcpSever ℕ
given n = record {
  timeout = 10;
  is_able_delay_del = true;
  thread_cnt = 3;
  conn_id = n;
  pool = record {
    thread_cnt = 3;
    next_event_loop = 1;
    base_loop = 9;
    slave_event_loops = 4 ∷ 5 ∷ 6 ∷ [];
  };
  conns = (1, first) ∷ [];
  posts = [];
}

given-IsValid : (n : ℕ) → 1 ≤ n → IsValid (given n)
unfolding find
given-IsValid n h = record {
  deals = inr (record { some_threads = omega arith; all_loops = refl });
  fresh = λ id l. ground arith;
  keyed = λ id conn e. ground arith;
}

-- A second connection, a task for later, and the end of the first connection.
abbrev calls : List (ServerCall ℕ)
calls = accepted 12 ∷ after 77 5 ∷ forget first ∷ accepted 8 ∷ []

run-replay_example :
    (s' : TcpSever ℕ) × (run (given 1) calls ≡ some s')
    × IsValid s'
    × ((id : ℕ) → fd_at s' id ≡ replay 1 (fd_at (given 1)) calls id)
run-replay_example = run-replay (given 1) calls (given-IsValid 1 (omega arith)) (omega arith)

remove_in_loop-new_connection_example :
    (s' : TcpSever ℕ) × (conn : ConnPtr) × (new_connection (given (2 ^ 31 - 1)) 12 ≡ some s')
    × (find s'.conns (2 ^ 31) ≡ some conn)
    × (find (remove_in_loop s' conn).conns (2 ^ 31) ≡ some conn)
remove_in_loop-new_connection_example =
    remove_in_loop-new_connection (given (2 ^ 31 - 1)) 12 (given-IsValid (2 ^ 31 - 1) (omega arith))
      (omega arith) (omega arith)

-- The first id with bit 31 is -2147483648 as an `int`.
through_int_2_31 : through_int (2 ^ 31) ≡ 2 ^ 64 - 2 ^ 31
unfolding through_int
through_int_2_31 = refl
