-- ===== src/Connection.antt =====
-- Connection of Sever_final/Sever.hpp, with what its handlers and in-loop functions change. They
-- run on the loop's thread, so the timer calls of the loop are the operations of its wheel, whose
-- tasks are the ids of the connections to release. `pending` counts the calls of `ReleaseInloop`
-- in the loop's task queue. The user's and the server's callbacks are set, and `events` lists those
-- that were called; the message
-- callback is `on_msg`, a function of the connection. `none` is a failed assertion, or what the
-- wheel and the buffers fail with.
pub mod Output
pub mod Life
pub mod Receive
pub mod Protocol
pub mod Runs
pub mod Waits
mod Tests
use high_concurrency_server.Common.{
  ℕ, suc, ◌+◌, ◌*◌, Bool, true, false, not, Option, none, some, List, [], ◌∷◌, ◌++◌, Bytes, ltb,
  ◌==◌, if◌then◌else◌, ◌>>=◌,
}
use high_concurrency_server.Buffer.{
  Buffer, current_enable_read_space_size, move_read_position, write_and_add,
  write_as_buffer_and_add,
}
use high_concurrency_server.Buffer
use high_concurrency_server.Wheel.{
  TimeTaskWheel, set_time_task, flush_time_task, remove_time_task, has_timer,
}
use high_concurrency_server.Channel.{
  Channel, fd_is_write, fd_add_read, fd_add_write, fd_delete_write,
}
use high_concurrency_server.Channel

pub data ConnStatus : Type 0 where
  disconnected connecting connected disconnecting : ConnStatus

-- The callbacks of the user and of the server.
pub data ConnEvent : Type 0 where
  connect close event server_closed : ConnEvent

pub record Connection : Type 0 where
  pub conn_id : ℕ
  pub timer_id : ℕ
  pub status : ConnStatus
  pub is_enable_time_del : Bool
  pub channel : Channel ℕ
  -- the descriptor is in the poller, and the socket is open
  pub watched : Bool
  pub socket_open : Bool
  pub inbuffer : Buffer
  pub outbuffer : Buffer
  pub wheel : TimeTaskWheel ℕ
  pub pending : ℕ
  pub events : List ConnEvent

abbrev pub is_disconnected : ConnStatus → Bool
is_disconnected ConnStatus.disconnected = true
is_disconnected _ = false

abbrev pub is_connecting : ConnStatus → Bool
is_connecting ConnStatus.connecting = true
is_connecting _ = false

abbrev pub is_disconnecting : ConnStatus → Bool
is_disconnecting ConnStatus.disconnecting = true
is_disconnecting _ = false

-- The constructor on a loop with this wheel.
unfoldable pub init : ℕ → ℕ → TimeTaskWheel ℕ → Connection
unfolding Buffer.init Channel.init
init conn_id sockfd wheel = record {
  conn_id = conn_id;
  timer_id = conn_id;
  status = ConnStatus.connecting;
  is_enable_time_del = false;
  channel = Channel.init sockfd;
  watched = false;
  socket_open = true;
  inbuffer = Buffer.init;
  outbuffer = Buffer.init;
  wheel = wheel;
  pending = 0;
  events = [];
}

-- A callback is called.
abbrev pub notify : ConnEvent → Connection → Connection
notify e c = record c { events = c.events ++ e ∷ [] }

-- `Connected()`
unfoldable pub is_connected : Connection → Bool
is_connected c = elim c.status [
  | ConnStatus.disconnected ↦ false
  | ConnStatus.connecting ↦ false
  | ConnStatus.connected ↦ true
  | ConnStatus.disconnecting ↦ false
]

-- `Release` queues `ReleaseInloop`.
unfoldable pub release : Connection → Connection
release c = record c { pending = c.pending + 1 }

unfoldable pub disable_timeout_del_in_loop : Connection → Connection
disable_timeout_del_in_loop c =
    if has_timer c.wheel c.timer_id
    then record c { is_enable_time_del = false; wheel = remove_time_task c.wheel c.timer_id }
    else record c { is_enable_time_del = false }

unfoldable pub enable_timeout_del_in_loop : Connection → ℕ → Option Connection
enable_timeout_del_in_loop c sec = do
  w ← if has_timer c.wheel c.timer_id then flush_time_task c.wheel c.timer_id else some c.wheel
  w' ← set_time_task w c.timer_id sec c.conn_id
  some (record c { is_enable_time_del = true; wheel = w' })

-- A task of `Release` that the loop has taken from its queue.
unfoldable pub release_inloop : Connection → Connection
unfolding disable_timeout_del_in_loop
release_inloop c =
    let c1 = record c { status = ConnStatus.disconnected; watched = false; socket_open = false } in
    let c2 = if has_timer c1.wheel c1.timer_id then disable_timeout_del_in_loop c1 else c1 in
    notify ConnEvent.server_closed (notify ConnEvent.close c2)

unfoldable pub established_in_loop : Connection → Connection
established_in_loop c =
    if is_connecting c.status
    then notify ConnEvent.connect (record c { channel = fd_add_read c.channel; watched = true })
    else c

-- `Fd_Add_Write` unless it is on.
unfoldable pub watch_write : Connection → Connection
watch_write c =
    if not (fd_is_write c.channel)
    then record c { channel = fd_add_write c.channel; watched = true }
    else c

unfoldable pub send_in_loop : Connection → Buffer → Option Connection
unfolding watch_write
send_in_loop c b = if is_disconnected c.status then some c else (do
  out ← write_as_buffer_and_add c.outbuffer b
  some (watch_write (record c { outbuffer = out })))

-- `Send` on the loop's thread.
unfoldable pub send : Connection → Bytes → Option Connection
unfolding send_in_loop
send c data_ = write_and_add Buffer.init data_ >>= λ b. send_in_loop c b

unfoldable pub hander_event : Connection → Option Connection
hander_event c = do
  w ← if c.is_enable_time_del then flush_time_task c.wheel c.timer_id else some c.wheel
  some (notify ConnEvent.event (record c { wheel = w }))

-- The rest of `ShutDownInLoop`, behind the message callback.
unfoldable pub finish : Connection → Connection
unfolding watch_write release
finish c =
    let c1 = if ltb 0 (current_enable_read_space_size c.outbuffer) then watch_write c else c in
    if current_enable_read_space_size c1.outbuffer == 0 then release c1 else c1

-- The rest of `HanderWrite` behind `MoveReadPosition`.
unfoldable pub sent_some : Connection → Connection
unfolding release
sent_some c =
    let c1 = record c { channel = fd_delete_write c.channel; watched = true } in
    if current_enable_read_space_size c.outbuffer == 0
    then (if is_disconnecting c1.status then release c1 else c1)
    else c

module _ (on_msg : Connection → Option Connection) where
  -- `if (_Inbuffer.CurrentEnableReadSpaceSize() > 0) _Msg_Cb(…)`
  unfoldable pub deliver : Connection → Option Connection
  deliver c = if ltb 0 (current_enable_read_space_size c.inbuffer) then on_msg c else some c

  unfoldable pub shut_down_in_loop : Connection → Option Connection
  unfolding deliver finish
  shut_down_in_loop c = do
    c' ← deliver (record c { status = ConnStatus.disconnecting })
    some (finish c')

  -- `ret` is what `RecvNoBlock` received, or `none` when it returned a negative number.
  unfoldable pub hander_read : Connection → Option Bytes → Option Connection
  unfolding shut_down_in_loop deliver
  hander_read c none = shut_down_in_loop c
  hander_read c (some d) = do b ← write_and_add c.inbuffer d; deliver (record c { inbuffer = b })

  unfoldable pub hander_close : Connection → Option Connection
  unfolding deliver release
  hander_close c = do c' ← deliver c; some (release c')

  -- `ret` is how many bytes `SendNoBlock` sent, or `none` when it returned a negative number.
  unfoldable pub hander_write : Connection → Option ℕ → Option Connection
  unfolding hander_close sent_some
  hander_write c none = hander_close c
  hander_write c (some n) = do
    b ← move_read_position c.outbuffer n
    some (sent_some (record c { outbuffer = b }))
