-- ===== src/Connection/Life.antt =====
-- What a connection does behind its end.
use high_concurrency_server.Common.{
  ◌+◌, ◌≡◌, ◌∙◌, refl, ap, false, Option, some, [], inl, inr, Bool-cases, ◌++◌, ◌∷◌,
}
use high_concurrency_server.Buffer.{current_enable_read_space_size}
use high_concurrency_server.Wheel.{has_timer}
use high_concurrency_server.Connection.{
  Connection, ConnStatus, release, release_inloop, disable_timeout_del_in_loop, deliver, finish,
  shut_down_in_loop, close, server_closed,
}

-- `ReleaseInloop` ends the connection: it is disconnected, out of the poller and closed, its timer
-- is cancelled, and the close callback and the server's callback are called, in this order.
pub record Released (c c' : Connection) : Type 0 where
  pub status : c'.status ≡ ConnStatus.disconnected
  pub watched : c'.watched ≡ false
  pub socket : c'.socket_open ≡ false
  pub events : c'.events ≡ (c.events ++ close ∷ []) ++ server_closed ∷ []
  pub buffers : (c'.inbuffer ≡ c.inbuffer) × (c'.outbuffer ≡ c.outbuffer) × (c'.pending ≡ c.pending)

pub release_inloop-Released : (c : Connection) → Released c (release_inloop c)
unfolding release_inloop disable_timeout_del_in_loop
release_inloop-Released c = elim (Bool-cases (has_timer c.wheel c.timer_id)) [
  | inl timed ↦ rw timed (record {
    status = refl;
    watched = refl;
    socket = refl;
    events = refl;
    buffers = (refl, refl, refl);
  })
  | inr untimed ↦ rw untimed (record {
    status = refl;
    watched = refl;
    socket = refl;
    events = refl;
    buffers = (refl, refl, refl);
  })
]

quiet_shut :
    (on_msg : Connection → Option Connection) (c : Connection)
    → current_enable_read_space_size c.inbuffer ≡ 0
    → current_enable_read_space_size c.outbuffer ≡ 0
    → shut_down_in_loop on_msg c
      ≡ some (record c { status = ConnStatus.disconnecting; pending = c.pending + 1 })
unfolding shut_down_in_loop deliver finish release
quiet_shut on_msg c i o = rw (i, o, o)

-- `ShutDownInLoop` does not look whether the connection has ended: with nothing to read or to send,
-- it takes a connection that `ReleaseInloop` has closed back to DISCONNECTING and queues its
-- release again, which calls the close callbacks a second time.
pub shut_down_in_loop_twice :
    (on_msg : Connection → Option Connection) (c : Connection)
    → current_enable_read_space_size c.inbuffer ≡ 0
    → current_enable_read_space_size c.outbuffer ≡ 0
    → (c' : Connection) × (shut_down_in_loop on_msg (release_inloop c) ≡ some c')
      × (c'.status ≡ ConnStatus.disconnecting)
      × (c'.pending ≡ c.pending + 1)
      × ((release_inloop c').events
          ≡ (((c.events ++ close ∷ []) ++ server_closed ∷ []) ++ close ∷ []) ++ server_closed ∷ [])
shut_down_in_loop_twice on_msg c i o =
    let r = release_inloop-Released c in
    let in_size = ap current_enable_read_space_size r.buffers.0 ∙ i in
    let out_size = ap current_enable_read_space_size r.buffers.1 ∙ o in
    let c' = record (release_inloop c) {
      status = ConnStatus.disconnecting;
      pending = (release_inloop c).pending + 1;
    } in
    (
      c',
      quiet_shut on_msg (release_inloop c) in_size out_size,
      refl,
      ap (λ n. n + 1) r.buffers.2,
      (release_inloop-Released c').events
          ∙ ap (λ ev. (ev ++ close ∷ []) ++ server_closed ∷ []) r.events,
    )
