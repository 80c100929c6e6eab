-- ===== src/Connection/Tests.antt =====
-- A connection with bytes to send.
use high_concurrency_server.Common.{
  ℕ, ◌+◌, ◌<◌, length, ◌≡◌, refl, false, true, Option, some, none, List, [], ◌∷◌, ◌++◌, codes,
  arith, Bytes,
}
use high_concurrency_server.Buffer.{Buffer, current_enable_read_space_size}
use high_concurrency_server.Buffer.Inv.{IsValid, init-IsValid, contents, read_size}
use high_concurrency_server.Wheel
use high_concurrency_server.Channel.{fd_is_write}
use high_concurrency_server.Connection.{
  Connection, ConnStatus, init, established_in_loop, is_disconnected, is_connected, release_inloop,
  send_in_loop, hander_write, shut_down_in_loop, close, server_closed,
}
use high_concurrency_server.Connection.Output.{Queued, Sent, send_in_loop-Queued, hander_write-Sent}
use high_concurrency_server.Connection.Receive.{receive, receive_end}
use high_concurrency_server.Connection.Runs.{ConnStep, ConnRun, ConnRun-Waits}
use high_concurrency_server.Connection.Waits.{carried}
use high_concurrency_server.Connection.Life.{shut_down_in_loop_twice}

abbrev waiting : Buffer
waiting = record { buffer = codes "xhello."; read_index = 1; write_index = 6 }

waiting-IsValid : IsValid waiting
waiting-IsValid = record { ordered = omega arith; within = omega arith; bounded = omega arith }

abbrev ending : Connection
ending = record (init 3 9 Wheel.init) { outbuffer = waiting; status = ConnStatus.disconnecting }

-- A message callback that reads nothing.
abbrev ignore : Connection → Option Connection
ignore c = some c

hander_write-Sent_example :
    (c' : Connection) × (hander_write ignore ending (some 5) ≡ some c') × Sent ending 5 c'
hander_write-Sent_example = hander_write-Sent ignore ending 5 waiting-IsValid (omega arith)

-- Both buffers are empty.
abbrev idle : Connection
idle = record ending {
  inbuffer = record { buffer = []; read_index = 0; write_index = 0 };
  outbuffer = record { buffer = []; read_index = 0; write_index = 0 };
}

shut_down_in_loop_twice_example :
    (c' : Connection) × (shut_down_in_loop ignore (release_inloop idle) ≡ some c')
    × (c'.status ≡ ConnStatus.disconnecting)
    × (c'.pending ≡ idle.pending + 1)
    × ((release_inloop c').events
        ≡ (((idle.events ++ close ∷ []) ++ server_closed ∷ []) ++ close ∷ []) ++ server_closed ∷ [])
shut_down_in_loop_twice_example =
    shut_down_in_loop_twice ignore idle
      (unfold current_enable_read_space_size high_concurrency_server.Common.Words.sub64 in refl)
      (unfold current_enable_read_space_size high_concurrency_server.Common.Words.sub64 in refl)

-- A new connection that is established, and then sends "hello".
abbrev opened : Connection
opened = established_in_loop (init 3 9 Wheel.init)

hello :
    (c' : Connection) × (send_in_loop opened waiting ≡ some c') × Queued opened (codes "hello") c'
unfolding established_in_loop init high_concurrency_server.Buffer.init
hello = send_in_loop-Queued opened waiting refl init-IsValid waiting-IsValid (omega arith)

hello-ConnRun : ConnRun ignore (init 3 9 Wheel.init) hello.0
unfolding established_in_loop init high_concurrency_server.Buffer.init
hello-ConnRun =
    ConnRun.next (ConnRun.next ConnRun.here ConnStep.establish)
      (ConnStep.send waiting waiting-IsValid (omega arith) hello.1)

ConnRun-Waits_example :
    IsValid hello.0.outbuffer
    × (0 < length (contents hello.0.outbuffer)
        → is_disconnected hello.0.status ≡ false
        → (fd_is_write hello.0.channel ≡ true) × (hello.0.watched ≡ true))
    × (is_connected hello.0 ≡ false)
ConnRun-Waits_example = ConnRun-Waits ignore (λ c c' v e. carried v e) 3 9 Wheel.init hello-ConnRun

empty_size : current_enable_read_space_size high_concurrency_server.Buffer.init ≡ 0
unfolding high_concurrency_server.Buffer.init
empty_size = read_size high_concurrency_server.Buffer.init init-IsValid

receive_end_example :
    receive ignore ending (record { ret = some 0; errno = 11 }) (λ n. []) ≡ some ending
receive_end_example =
    receive_end ignore ending 11 (unfold init in init-IsValid) (unfold init in empty_size)
