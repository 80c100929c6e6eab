-- ===== src/Channel/Dispatch.antt =====
-- Which callbacks `HanderEvent` calls.
use high_concurrency_server.Common.{ℕ, ◌≡◌}
use high_concurrency_server.Channel.{
  Channel, epoll_in, epoll_pri, epoll_out, epoll_err, epoll_hup, epoll_rdhup, has_bit, set_bit,
}

-- Events with a hang-up and an error added.
abbrev pub with_hup_err : ℕ → ℕ
with_hup_err r = set_bit (set_bit r epoll_hup) epoll_err

-- The other bits stay as they are.
record SameBits (r : ℕ) : Type 0 where
  in_bit : has_bit (with_hup_err r) epoll_in ≡ has_bit r epoll_in
  pri_bit : has_bit (with_hup_err r) epoll_pri ≡ has_bit r epoll_pri
  out_bit : has_bit (with_hup_err r) epoll_out ≡ has_bit r epoll_out
  rdhup_bit : has_bit (with_hup_err r) epoll_rdhup ≡ has_bit r epoll_rdhup
