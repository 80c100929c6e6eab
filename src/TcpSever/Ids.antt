-- ===== src/TcpSever/Ids.antt =====
-- Ids of connections from 2 ^ 31 on: the map holds the `uint64_t`, the connection an `int`.
use high_concurrency_server.Common.{ℕ, ◌+◌, ◌^◌, ◌≤◌, ◌<◌, ◌≡◌, ◌≢◌, ◌∙◌, false, some, ◌==◌, arith}
use high_concurrency_server.TcpSever.{
  TcpSever, ConnPtr, find, through_int, new_connection, remove_in_loop,
}
use high_concurrency_server.TcpSever.Conns.{
  IsValid, made, grown, grown-find, find-erase, new_connection-grown,
}

through_int_large : (id : ℕ) → 2 ^ 31 ≤ id → id < 2 ^ 32 → through_int id ≢ id
unfolding through_int
through_int_large id h l = ground arith

module _ {F : Type 0} where
  -- On a valid server, a connection that gets an id from 2 ^ 31 on, and below 2 ^ 32, is entered under
  -- the id, and its removal leaves it in the map.
  pub remove_in_loop-new_connection :
      (s : TcpSever F) (fd : ℕ)
      → IsValid s
      → 2 ^ 31 ≤ s.conn_id + 1
      → s.conn_id + 1 < 2 ^ 32
      → (s' : TcpSever F) × (conn : ConnPtr) × (new_connection s fd ≡ some s')
        × (find s'.conns (s.conn_id + 1) ≡ some conn)
        × (find (remove_in_loop s' conn).conns (s.conn_id + 1) ≡ some conn)
  unfolding remove_in_loop
  remove_in_loop-new_connection s fd v h l =
      let (loop, next, e, own, deals) = new_connection-grown s fd v.deals (omega arith) in
      let large : (through_int (s.conn_id + 1) == s.conn_id + 1) ≡ false =
        ground (arith, through_int_large (s.conn_id + 1) h l) in
      let there : find (grown s fd loop next).conns (s.conn_id + 1) ≡ some (made s fd loop) =
        ground (arith, grown-find s fd loop next v (s.conn_id + 1)) in
      (
        grown s fd loop next,
        made s fd loop,
        e,
        there,
        find-erase (grown s fd loop next).conns (through_int (s.conn_id + 1)) (s.conn_id + 1)
            ∙ rw large there,
      )
