-- ===== src/Connection/Protocol.antt =====
-- The callbacks and the context of a Connection, which its user sets. A callback is a number, and a
-- context a value of the Any; `none` is a callback, or a context, that is not set.
use high_concurrency_server.Common.{ℕ, ◌≡◌, refl, Option, some}

pub record Protocol (D : Type 0) : Type 0 where
  pub context : Option D
  pub connect_cb : Option ℕ
  pub write_cb : Option ℕ
  pub close_cb : Option ℕ
  pub event_cb : Option ℕ
  pub msg_cb : Option ℕ
  pub server_closed_callback : Option ℕ

module _ {D : Type 0} where
  unfoldable pub set_context : Protocol D → D → Protocol D
  set_context p context = record p { context = some context }

  unfoldable pub set_conn_connect_callback : Protocol D → ℕ → Protocol D
  set_conn_connect_callback p cb = record p { connect_cb = some cb }

  unfoldable pub set_conn_write_callback : Protocol D → ℕ → Protocol D
  set_conn_write_callback p cb = record p { write_cb = some cb }

  unfoldable pub set_conn_close_callback : Protocol D → ℕ → Protocol D
  set_conn_close_callback p cb = record p { close_cb = some cb }

  unfoldable pub set_conn_event_callback : Protocol D → ℕ → Protocol D
  set_conn_event_callback p cb = record p { event_cb = some cb }

  unfoldable pub set_msg_callback : Protocol D → ℕ → Protocol D
  set_msg_callback p cb = record p { msg_cb = some cb }

  unfoldable pub set_server_callback : Protocol D → ℕ → Protocol D
  set_server_callback p cb = record p { server_closed_callback = some cb }

  -- `ChangeProtocal` on the loop's thread, with the new context and callbacks.
  unfoldable pub change_protocal_in_loop : Protocol D → Protocol D → Protocol D
  change_protocal_in_loop p new = record p {
    context = new.context;
    connect_cb = new.connect_cb;
    write_cb = new.write_cb;
    close_cb = new.close_cb;
    msg_cb = new.msg_cb;
  }

  -- Changes of the protocol, of the context and of the message callback.
  pub data ProtocolRun (p : Protocol D) : Protocol D → Type 0 where
    here : ProtocolRun p p
    change :
        {q : Protocol D} (new : Protocol D)
        → ProtocolRun p q
        → ProtocolRun p (change_protocal_in_loop q new)
    context : {q : Protocol D} (d : D) → ProtocolRun p q → ProtocolRun p (set_context q d)
    message : {q : Protocol D} (cb : ℕ) → ProtocolRun p q → ProtocolRun p (set_msg_callback q cb)

  -- None of these changes replaces the event callback.
  pub ProtocolRun-event_cb : {p q : Protocol D} → ProtocolRun p q → q.event_cb ≡ p.event_cb
  unfolding change_protocal_in_loop set_context set_msg_callback
  ProtocolRun-event_cb here = refl
  ProtocolRun-event_cb (change new r) = ProtocolRun-event_cb r
  ProtocolRun-event_cb (context d r) = ProtocolRun-event_cb r
  ProtocolRun-event_cb (message cb r) = ProtocolRun-event_cb r
