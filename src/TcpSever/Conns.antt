-- ===== src/TcpSever/Conns.antt =====
-- The map of connections: fresh ids, and what a sequence of calls leaves in it.
use high_concurrency_server.Common.{
  ℕ, ◌+◌, ◌^◌, ◌<◌, ◌≡◌, ◌∙◌, refl, false, none, some, List, [], ◌∷◌, ◌++◌, ◌==◌, if◌then◌else◌,
  add64, add64_lem, arith,
}
use high_concurrency_server.LoopPool.Rounds.{Deals, IsPoolLoop, get_next_event_loop-IsPoolLoop}
use high_concurrency_server.TcpSever.{
  TcpSever, ConnPtr, find, insert, erase, through_int, enter, asked, new_connection,
}

pub find-erase :
    (m : List (ℕ × ConnPtr)) (i j : ℕ) → find (erase m i) j ≡ (if i == j then none else find m j)
unfolding find erase
find-erase [] i j = ground arith
find-erase ((k, c) ∷ m) i j = ground (arith, find-erase m i j)

-- Under a key that is not there `insert` enters its value.
pub find-insert :
    (m : List (ℕ × ConnPtr)) (i j : ℕ) (c : ConnPtr)
    → find m i ≡ none
    → find (insert m i c) j ≡ (if i == j then some c else find m j)
unfolding find insert
find-insert [] i j c h = refl
find-insert ((k, d) ∷ m) i j c h = ground (arith, find-insert m i j c)

-- Ids below 2 ^ 31 survive the `int` of the connection.
pub through_int_small : (id : ℕ) → id < 2 ^ 31 → through_int id ≡ id
unfolding through_int
through_int_small id h = ground arith

module _ {F : Type 0} where
  -- The pool hands out loops, no connection has an id that is still to be given, and each knows the
  -- id that it is kept under.
  pub record IsValid (s : TcpSever F) : Type 0 where
    pub deals : Deals s.pool
    pub fresh : (id : ℕ) → s.conn_id < id → find s.conns id ≡ none
    pub keyed : (id : ℕ) (conn : ConnPtr) → find s.conns id ≡ some conn → conn.conn_id ≡ id

  -- The connection that `NewConnection` makes.
  abbrev pub made : TcpSever F → ℕ → ℕ → ConnPtr
  made s fd loop = record { conn_id = through_int (s.conn_id + 1); fd = fd; loop = loop }

  -- The server that `NewConnection` leaves when the pool returns `loop`.
  abbrev pub grown : TcpSever F → ℕ → ℕ → ℕ → TcpSever F
  grown s fd loop next =
      enter (record s { conn_id = s.conn_id + 1; pool = record s.pool { next_event_loop = next } })
        (s.conn_id + 1) (made s fd loop)

  pub new_connection-grown :
      (s : TcpSever F) (fd : ℕ)
      → Deals s.pool
      → s.conn_id + 1 < 2 ^ 64
      → (loop : ℕ) × (next : ℕ) × (new_connection s fd ≡ some (grown s fd loop next))
        × IsPoolLoop s.pool loop
        × Deals (record s.pool { next_event_loop = next })
  unfolding new_connection
  new_connection-grown s fd d h =
      let (loop, next, e, own, deals) = get_next_event_loop-IsPoolLoop s.pool d in
      let id : add64 s.conn_id 1 ≡ s.conn_id + 1 = add64_lem s.conn_id 1 h in
      (loop, next, rw (e, id), own, deals)

  pub grown-find :
      (s : TcpSever F) (fd loop next : ℕ)
      → IsValid s
      → (j : ℕ)
      → find (grown s fd loop next).conns j
        ≡ (if s.conn_id + 1 == j then some (made s fd loop) else find s.conns j)
  unfolding enter
  grown-find s fd loop next v j =
      find-insert s.conns (s.conn_id + 1) j (made s fd loop) (v.fresh (s.conn_id + 1) (omega arith))

  grown-fresh :
      (s : TcpSever F) (fd loop next : ℕ)
      → IsValid s
      → (j : ℕ) → s.conn_id + 1 < j
      → find (grown s fd loop next).conns j ≡ none
  grown-fresh s fd loop next v j l =
      let off : (s.conn_id + 1 == j) ≡ false = ground arith in
      grown-find s fd loop next v j ∙ rw off (v.fresh j (omega arith))

  grown-keyed :
      (s : TcpSever F) (fd loop next : ℕ)
      → IsValid s
      → s.conn_id + 1 < 2 ^ 31
      → (j : ℕ) (conn : ConnPtr) → find (grown s fd loop next).conns j ≡ some conn
      → conn.conn_id ≡ j
  grown-keyed s fd loop next v h j conn e =
      ground
        (arith, grown-find s fd loop next v j, through_int_small (s.conn_id + 1) h, v.keyed j conn)

  -- What `NewConnection` leaves: a connection with the next id and a loop of the pool, which that
  -- loop is asked for, and no other entry changed.
  pub record Opened (s : TcpSever F) (fd : ℕ) (s' : TcpSever F) : Type 0 where
    pub valid : IsValid s'
    pub counted : s'.conn_id ≡ s.conn_id + 1
    pub conn : ConnPtr
    pub own_id : conn.conn_id ≡ s.conn_id + 1
    pub own_fd : conn.fd ≡ fd
    pub own_loop : IsPoolLoop s.pool conn.loop
    pub told : s'.posts ≡ s.posts ++ asked s conn
    pub entered :
        (j : ℕ) → find s'.conns j ≡ (if s.conn_id + 1 == j then some conn else find s.conns j)

  -- `NewConnection` succeeds on a valid server that has given fewer than 2 ^ 31 - 1 ids: it enters a
  -- connection with the descriptor, the next id and a loop of the pool, asks that loop to set the
  -- connection's timer, if there are time-outs, and to establish it, and changes no other entry.
  pub new_connection-Opened :
      (s : TcpSever F) (fd : ℕ)
      → IsValid s
      → s.conn_id + 1 < 2 ^ 31
      → (s' : TcpSever F) × (new_connection s fd ≡ some s') × Opened s fd s'
  unfolding enter
  new_connection-Opened s fd v h =
      let (loop, next, e, own, deals) = new_connection-grown s fd v.deals (omega arith) in
      (
        grown s fd loop next,
        e,
        record {
          valid = record {
            deals = deals;
            fresh = grown-fresh s fd loop next v;
            keyed = grown-keyed s fd loop next v h;
          };
          counted = refl;
          conn = made s fd loop;
          own_id = through_int_small (s.conn_id + 1) h;
          own_fd = refl;
          own_loop = own;
          told = refl;
          entered = grown-find s fd loop next v;
        },
      )
