-- ===== src/TcpSever/Runs.antt =====
-- Sequences of calls on a TcpSever, against a map from ids to descriptors.
use high_concurrency_server.Common.{
  ℕ, ◌+◌, ◌^◌, ◌≤◌, ◌<◌, ◌≡◌, ◌∙◌, refl, sym, ap, Option, none, some, List, [], ◌∷◌, length, ◌==◌,
  if◌then◌else◌, ◌>>=◌, add64, add64_lem, arith,
}
use mathlib.Core.Path.{fun_ext}
use high_concurrency_server.TcpSever.{
  TcpSever, ConnPtr, find, new_connection, remove_in_loop, run_after_in_loop,
}
use high_concurrency_server.TcpSever.Conns.{IsValid, Opened, find-erase, new_connection-Opened}

-- A call on the base loop's thread: `accept` has returned a descriptor, a closed connection is
-- forgotten, a task is to run later.
pub data ServerCall (F : Type 0) : Type 0 where
  accepted : ℕ → ServerCall F
  forget : ConnPtr → ServerCall F
  after : F → ℕ → ServerCall F

module _ {F : Type 0} where
  unfoldable pub step : TcpSever F → ServerCall F → Option (TcpSever F)
  step s (accepted fd) = new_connection s fd
  step s (forget conn) = some (remove_in_loop s conn)
  step s (after f delay) = some (run_after_in_loop s f delay)

  unfoldable pub run : TcpSever F → List (ServerCall F) → Option (TcpSever F)
  unfolding step
  run s [] = some s
  run s (call ∷ calls) = do s' ← step s call; run s' calls

  -- The descriptor under an id.
  abbrev pub fd_at : TcpSever F → ℕ → Option ℕ
  fd_at s id = elim (find s.conns id) [ none ↦ none | some conn ↦ some conn.fd ]

  -- The map of descriptors that the calls describe; `n` ids have been given.
  unfoldable pub replay : ℕ → (ℕ → Option ℕ) → List (ServerCall F) → ℕ → Option ℕ
  replay n m [] = m
  replay n m (accepted fd ∷ calls) =
      replay (n + 1) (λ id. if n + 1 == id then some fd else m id) calls
  replay n m (forget conn ∷ calls) =
      replay n (λ id. if conn.conn_id == id then none else m id) calls
  replay n m (after f delay ∷ calls) = replay (n + 1) m calls

  -- What one call does to the map, and that it keeps the server valid.
  record Stepped (s s' : TcpSever F) (call : ServerCall F) : Type 0 where
    valid : IsValid s'
    ids : s'.conn_id ≤ s.conn_id + 1
    replays :
        (calls : List (ServerCall F))
        → replay s.conn_id (fd_at s) (call ∷ calls) ≡ replay s'.conn_id (fd_at s') calls

  entered-fd_at :
      (s s' : TcpSever F) (fd : ℕ)
      → Opened s fd s'
      → (λ id. if s.conn_id + 1 == id then some fd else fd_at s id) ≡ fd_at s'
  entered-fd_at s s' fd o = fun_ext (λ id. ground (arith, o.entered id, o.own_fd))

  erased-fd_at :
      (s : TcpSever F) (conn : ConnPtr)
      → (λ id. if conn.conn_id == id then none else fd_at s id) ≡ fd_at (remove_in_loop s conn)
  unfolding remove_in_loop
  erased-fd_at s conn = fun_ext (λ id. ground (arith, find-erase s.conns conn.conn_id id))

  step-Stepped :
      (s : TcpSever F) (call : ServerCall F)
      → IsValid s
      → s.conn_id + 1 < 2 ^ 31
      → (s' : TcpSever F) × (step s call ≡ some s') × Stepped s s' call
  unfolding step replay remove_in_loop run_after_in_loop
  step-Stepped s (accepted fd) v h =
      let (s', e, o) = new_connection-Opened s fd v h in
      (
        s',
        e,
        record {
          valid = o.valid;
          ids = omega (arith, o.counted);
          replays = λ calls.
              ap (λ n. replay n (λ id. if s.conn_id + 1 == id then some fd else fd_at s id) calls)
                (sym o.counted)
              ∙ ap (λ m. replay s'.conn_id m calls) (entered-fd_at s s' fd o);
        },
      )
  step-Stepped s (forget conn) v h = (
    remove_in_loop s conn,
    refl,
    record {
      valid = record {
        deals = v.deals;
        fresh = λ id l. ground (arith, find-erase s.conns conn.conn_id id, v.fresh id);
        keyed = λ id c e. ground (arith, find-erase s.conns conn.conn_id id, v.keyed id c);
      };
      ids = omega arith;
      replays = λ calls. ap (λ m. replay s.conn_id m calls) (erased-fd_at s conn);
    },
  )
  step-Stepped s (after f delay) v h =
      let counted : add64 s.conn_id 1 ≡ s.conn_id + 1 = add64_lem s.conn_id 1 (omega arith) in
      (
        run_after_in_loop s f delay,
        refl,
        record {
          valid = record {
            deals = v.deals;
            fresh = λ id l. v.fresh id (omega (arith, counted));
            keyed = v.keyed;
          };
          ids = omega (arith, counted);
          replays = λ calls. ap (λ n. replay n (fd_at s) calls) (sym counted);
        },
      )

  -- Any sequence of calls that stays below 2 ^ 31 ids runs to its end from a valid server. It leaves
  -- a valid server, whose map has under each id the descriptor that the calls describe.
  pub run-replay :
      (s : TcpSever F) (calls : List (ServerCall F))
      → IsValid s
      → s.conn_id + length calls < 2 ^ 31
      → (s' : TcpSever F) × (run s calls ≡ some s')
        × IsValid s'
        × ((id : ℕ) → fd_at s' id ≡ replay s.conn_id (fd_at s) calls id)
  unfolding run replay
  run-replay s [] v h = (s, refl, v, λ id. refl)
  run-replay s (call ∷ calls) v h =
      let (s1, e, st) = step-Stepped s call v (omega arith) in
      let (s', r, w, same) = run-replay s1 calls st.valid (omega (arith, st.ids)) in
      (s', rw (e) r, w, λ id. same id ∙ ap (λ m. m id) (sym (st.replays calls)))
