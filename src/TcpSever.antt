-- ===== src/TcpSever.antt =====
-- TcpSever of Sever_final/Sever.hpp: the map of connections, their ids, and the loop of each. What
-- it asks a loop to do is in `posts`, in order, with the loop: the calls that it gives to
-- `RunInLoop`. A ConnPtr is the connection's id, descriptor and loop. `none` is an index outside the
-- pool's loops.
pub mod Conns
pub mod Ids
pub mod Runs
mod Tests
use high_concurrency_server.Common.{
  ℕ, ◌+◌, ◌-◌, ◌%◌, ◌^◌, Bool, true, false, Option, none, some, List, [], ◌∷◌, ◌++◌, ltb, ◌==◌,
  if◌then◌else◌, ◌>>=◌, add64,
}
use high_concurrency_server.LoopPool.{LoopThreadPool, get_next_event_loop, set_thread_cnt, create}
use high_concurrency_server.LoopPool

pub record ConnPtr : Type 0 where
  pub conn_id : ℕ
  pub fd : ℕ
  pub loop : ℕ

-- What is asked of a loop.
pub data Post (F : Type 0) : Type 0 where
  enable_timeout_del : ConnPtr → ℕ → Post F
  established : ConnPtr → Post F
  remove_connection_in_loop : ConnPtr → Post F
  timer_add : ℕ → ℕ → F → Post F

-- `_conns.find`, `_conns.insert`, which leaves an entry that is there, and `_conns.erase`.
unfoldable pub find : List (ℕ × ConnPtr) → ℕ → Option ConnPtr
find [] id = none
find ((k, c) ∷ m) id = if k == id then some c else find m id

unfoldable pub insert : List (ℕ × ConnPtr) → ℕ → ConnPtr → List (ℕ × ConnPtr)
insert [] id conn = (id, conn) ∷ []
insert ((k, c) ∷ m) id conn = if k == id then (k, c) ∷ m else (k, c) ∷ insert m id conn

unfoldable pub erase : List (ℕ × ConnPtr) → ℕ → List (ℕ × ConnPtr)
erase [] id = []
erase ((k, c) ∷ m) id = let rest = erase m id in if k == id then rest else (k, c) ∷ rest

-- The connection keeps its id as an `int`; this is that `int` as a `uint64_t` again.
unfoldable pub through_int : ℕ → ℕ
through_int id = let low = id % 2 ^ 32 in if ltb low (2 ^ 31) then low else 2 ^ 64 - 2 ^ 32 + low

pub record TcpSever (F : Type 0) : Type 0 where
  pub timeout : ℕ
  pub is_able_delay_del : Bool
  pub thread_cnt : ℕ
  pub conn_id : ℕ
  pub pool : LoopThreadPool
  pub conns : List (ℕ × ConnPtr)
  pub posts : List (ℕ × Post F)

module _ {F : Type 0} where
  -- The constructor, with the number of its own loop.
  unfoldable pub init : ℕ → TcpSever F
  unfolding LoopPool.init
  init base = record {
    timeout = 0;
    is_able_delay_del = false;
    thread_cnt = 0;
    conn_id = 0;
    pool = LoopPool.init base;
    conns = [];
    posts = [];
  }

  unfoldable pub set_slave_thread_cnt : TcpSever F → ℕ → TcpSever F
  set_slave_thread_cnt s cnt = record s { thread_cnt = cnt }

  unfoldable pub enable_is_delay_del : TcpSever F → ℕ → TcpSever F
  enable_is_delay_del s time = record s { is_able_delay_del = true; timeout = time }

  -- `Start` up to the base loop's own start; `started` gives the loops of the new threads.
  unfoldable pub start : TcpSever F → (ℕ → ℕ) → TcpSever F
  unfolding set_thread_cnt create
  start s started = record s { pool = create (set_thread_cnt s.pool s.thread_cnt) started }

  abbrev pub post : TcpSever F → ℕ → Post F → TcpSever F
  post s loop p = record s { posts = s.posts ++ (loop, p) ∷ [] }

  -- What the loop of a new connection is asked: to set its timer, and to establish it.
  abbrev pub asked : TcpSever F → ConnPtr → List (ℕ × Post F)
  asked s conn =
      if s.is_able_delay_del
      then (conn.loop, enable_timeout_del conn s.timeout) ∷ (conn.loop, established conn) ∷ []
      else (conn.loop, established conn) ∷ []

  -- The rest of `NewConnection` for the new connection.
  unfoldable pub enter : TcpSever F → ℕ → ConnPtr → TcpSever F
  unfolding insert
  enter s id conn = record s { posts = s.posts ++ asked s conn; conns = insert s.conns id conn }

  unfoldable pub new_connection : TcpSever F → ℕ → Option (TcpSever F)
  unfolding enter through_int get_next_event_loop
  new_connection s fd = do
    let id = add64 s.conn_id 1
    (loop, pool) ← get_next_event_loop s.pool
    some (
        enter (record s { conn_id = id; pool = pool }) id
          (record { conn_id = through_int id; fd = fd; loop = loop }))

  unfoldable pub remove_in_loop : TcpSever F → ConnPtr → TcpSever F
  unfolding erase
  remove_in_loop s conn = record s { conns = erase s.conns conn.conn_id }

  -- `RemoveConnection` on the thread of a loop: at once on the base loop.
  unfoldable pub remove_connection : TcpSever F → ℕ → ConnPtr → TcpSever F
  unfolding remove_in_loop
  remove_connection s thread_loop conn =
      if thread_loop == s.pool.base_loop
      then remove_in_loop s conn
      else post s s.pool.base_loop (remove_connection_in_loop conn)

  -- `RunAfterInLoop`: the timers of the base loop share the numbers of the connections.
  unfoldable pub run_after_in_loop : TcpSever F → F → ℕ → TcpSever F
  run_after_in_loop s f delay =
      let id = add64 s.conn_id 1 in
      post (record s { conn_id = id }) s.pool.base_loop (timer_add id delay f)
