-- ===== src/Connection/Runs.antt =====
-- Sequences of handlers and in-loop functions of a connection.
use high_concurrency_server.Common.{
  ℕ, suc, ◌+◌, ◌≤◌, ◌<◌, ◌≡◌, refl, true, false, Option, none, some, Bytes, length, ltb, arith, inl,
  inr, Bool-cases, Option-cases,
}
use high_concurrency_server.Buffer.{Buffer, write_and_add, current_enable_read_space_size, max_size}
use high_concurrency_server.Buffer.Inv.{IsValid, init-IsValid, contents}
use high_concurrency_server.Channel.{fd_is_write}
use high_concurrency_server.Wheel.{TimeTaskWheel}
use high_concurrency_server.Connection.{
  Connection, ConnStatus, is_disconnected, release, send_in_loop, hander_write, is_connected,
  established_in_loop, hander_read, hander_event, hander_close, shut_down_in_loop, deliver,
  enable_timeout_del_in_loop, disable_timeout_del_in_loop, release_inloop, init,
}
use high_concurrency_server.Connection.Waits.{
  Waits, is_waiting, carried, failed, finish-Waits, established-Waits, write-Waits, event-Waits,
  send-Waits, enable-Waits, disable-Waits, release_inloop-Waits, nothing_waits, nothing_watched,
  not_connected,
}

module _ (on_msg : Connection → Option Connection) where
  -- What the loop may call on a connection, in any order: it reads and shuts down only before the
  -- connection has ended, and `SendNoBlock` takes at most what it is given.
  pub data ConnStep (c : Connection) : Connection → Type 0 where
    establish : ConnStep c (established_in_loop c)
    readable :
        {c' : Connection} (ret : Option Bytes)
        → is_disconnected c.status ≡ false
        → hander_read on_msg c ret ≡ some c'
        → ConnStep c c'
    unwritable : {c' : Connection} → hander_write on_msg c none ≡ some c' → ConnStep c c'
    writable :
        {c' : Connection} (n : ℕ)
        → n ≤ length (contents c.outbuffer)
        → hander_write on_msg c (some n) ≡ some c'
        → ConnStep c c'
    closed : {c' : Connection} → hander_close on_msg c ≡ some c' → ConnStep c c'
    event : {c' : Connection} → hander_event c ≡ some c' → ConnStep c c'
    send :
        {c' : Connection} (b : Buffer)
        → IsValid b
        → c.outbuffer.write_index + length (contents b) ≤ max_size
        → send_in_loop c b ≡ some c'
        → ConnStep c c'
    shut_down :
        {c' : Connection}
        → is_disconnected c.status ≡ false
        → shut_down_in_loop on_msg c ≡ some c'
        → ConnStep c c'
    enable :
        {c' : Connection} (sec : ℕ) → enable_timeout_del_in_loop c sec ≡ some c' → ConnStep c c'
    disable : ConnStep c (disable_timeout_del_in_loop c)
    task : (n : ℕ) → c.pending ≡ suc n → ConnStep c (release_inloop (record c { pending = n }))

  pub data ConnRun (c : Connection) : Connection → Type 0 where
    here : ConnRun c c
    next : {d e : Connection} → ConnRun c d → ConnStep d e → ConnRun c e

module _ (on_msg : Connection → Option Connection)
    (keep : (c c' : Connection) → Waits c → on_msg c ≡ some c' → Waits c') where
  deliver-Waits : (c c' : Connection) → Waits c → deliver on_msg c ≡ some c' → Waits c'
  unfolding deliver
  deliver-Waits c c' v e = elim (Bool-cases (ltb 0 (current_enable_read_space_size c.inbuffer))) [
    | inl more ↦ keep c c' v (rw more at e)
    | inr no_more ↦ carried v (rw no_more at e)
  ]

  shut_down-Waits :
      (c c' : Connection)
      → Waits c
      → is_disconnected c.status ≡ false
      → shut_down_in_loop on_msg c ≡ some c'
      → Waits c'
  unfolding shut_down_in_loop
  shut_down-Waits c c' v alive e =
      let ending : Waits (record c { status = ConnStatus.disconnecting }) = record {
        valid = v.valid;
        waits = λ l a. v.waits l alive;
        seen = λ a on. v.seen alive on;
        never = λ q. cc;
      } in
      elim (Option-cases (deliver on_msg (record c { status = ConnStatus.disconnecting }))) [
        | inl fails ↦ failed (rw fails at e)
        | inr (d, done) ↦
            carried
              (finish-Waits
                (deliver-Waits (record c { status = ConnStatus.disconnecting }) d ending done))
              (rw done at e)
      ]

  close-Waits : (c c' : Connection) → Waits c → hander_close on_msg c ≡ some c' → Waits c'
  unfolding hander_close release
  close-Waits c c' v e = elim (Option-cases (deliver on_msg c)) [
    | inl fails ↦ failed (rw fails at e)
    | inr (d, done) ↦
        carried (is_waiting (deliver-Waits c d v done) refl refl refl refl) (rw done at e)
  ]

  read-Waits :
      (c c' : Connection) (ret : Option Bytes)
      → Waits c
      → is_disconnected c.status ≡ false
      → hander_read on_msg c ret ≡ some c'
      → Waits c'
  unfolding hander_read
  read-Waits c c' none v alive e = shut_down-Waits c c' v alive e
  read-Waits c c' (some d) v alive e = elim (Option-cases (write_and_add c.inbuffer d)) [
    | inl fails ↦ failed (rw fails at e)
    | inr (b, done) ↦
        deliver-Waits (record c { inbuffer = b }) c' (is_waiting v refl refl refl refl)
          (rw done at e)
  ]

  -- Every step keeps `Waits`.
  step-Waits : {c c' : Connection} → ConnStep on_msg c c' → Waits c → Waits c'
  unfolding hander_write
  step-Waits {c} establish v = established-Waits c v
  step-Waits {c} {c'} (readable ret alive e) v = read-Waits c c' ret v alive e
  step-Waits {c} {c'} (unwritable e) v = close-Waits c c' v e
  step-Waits {c} {c'} (writable n h e) v = write-Waits on_msg c c' n v h e
  step-Waits {c} {c'} (closed e) v = close-Waits c c' v e
  step-Waits {c} {c'} (event e) v = event-Waits c c' v e
  step-Waits {c} {c'} (send b w h e) v = send-Waits c c' b v w h e
  step-Waits {c} {c'} (shut_down alive e) v = shut_down-Waits c c' v alive e
  step-Waits {c} {c'} (enable sec e) v = enable-Waits c c' sec v e
  step-Waits {c} disable v = disable-Waits c v
  step-Waits {c} (task n p) v = release_inloop-Waits c n v

  run-Waits : {c c' : Connection} → ConnRun on_msg c c' → Waits c → Waits c'
  run-Waits here v = v
  run-Waits (next r st) v = step-Waits st (run-Waits r v)

  -- In every run of a connection from its start, with a message callback that keeps `Waits`, with
  -- reads and shut-downs only before its end, and with sends that stay below `max_size()`, the output
  -- buffer stays valid, `Connected()` is never true, and while bytes wait in the output buffer, unless
  -- the connection is disconnected, the interest in writing is set and the descriptor is in the
  -- poller.
  pub ConnRun-Waits :
      (conn_id sockfd : ℕ) (wheel : TimeTaskWheel ℕ) {c : Connection}
      → ConnRun on_msg (init conn_id sockfd wheel) c
      → IsValid c.outbuffer
        × (0 < length (contents c.outbuffer)
            → is_disconnected c.status ≡ false
            → (fd_is_write c.channel ≡ true) × (c.watched ≡ true))
        × (is_connected c ≡ false)
  unfolding init
  ConnRun-Waits conn_id sockfd wheel {c} r =
      let v = run-Waits r (record {
        valid = init-IsValid;
        waits = λ l a. absurd (omega (arith, nothing_waits));
        seen = λ a on. absurd (let off = nothing_watched sockfd in cc);
        never = λ q. cc;
      }) in
      (v.valid, λ l a. (v.waits l a, v.seen a (v.waits l a)), not_connected c v.never)
