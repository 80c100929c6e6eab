-- ===== src/Connection/Receive.antt =====
-- `HanderRead` of a connection on what `recv` returned, through `Socket::Recv`.
use high_concurrency_server.Common.{
  ℕ, ◌≡◌, Bytes, Option, none, some, [], inl, inr, Bool-cases, ◌==◌, ◌||◌, if◌then◌else◌,
}
use high_concurrency_server.Buffer.{current_enable_read_space_size}
use high_concurrency_server.Buffer.Inv.{IsValid}
use high_concurrency_server.Buffer.Write.{write_and_add_nothing}
use high_concurrency_server.Socket.{IoResult, transfer, eagain, eintr}
use high_concurrency_server.Connection.{Connection, hander_read, deliver, shut_down_in_loop}

-- `taken` gives the bytes that `recv` wrote, by their number.
unfoldable pub receive :
    (Connection → Option Connection) → Connection → IoResult → (ℕ → Bytes) → Option Connection
receive on_msg c r taken =
    hander_read on_msg c (elim (transfer r) [ none ↦ none | some n ↦ some (taken n) ])

-- When `recv` returns 0, which is the end of the stream, and the valid input buffer is empty,
-- `HanderRead` asks `errno`: where that still has EAGAIN or EINTR of an earlier call, the connection
-- stays as it is, else it is shut down.
pub receive_end :
    (on_msg : Connection → Option Connection) (c : Connection) (errno : ℕ)
    → IsValid c.inbuffer
    → current_enable_read_space_size c.inbuffer ≡ 0
    → receive on_msg c (record { ret = some 0; errno = errno }) (λ n. [])
      ≡ (if (errno == eagain) || (errno == eintr) then some c else shut_down_in_loop on_msg c)
unfolding receive transfer hander_read deliver
receive_end on_msg c errno v e = elim (Bool-cases ((errno == eagain) || (errno == eintr))) [
  | inl stale ↦ rw (stale, write_and_add_nothing c.inbuffer v, e)
  | inr other ↦ rw other
]
