-- ===== src/Channel/Tests.antt =====
-- A channel that watches its descriptor for reading.
use high_concurrency_server.Common.{ℕ, ◌≡◌, ◌+◌, refl, none, some}
use high_concurrency_server.Channel.{Channel, set_bit}
use high_concurrency_server.Channel.Dispatch.{with_hup_err}

-- Reading is watched.
abbrev reading : Channel ℕ
reading = record {
  fd = 5;
  event = 1;
  revent = 4;
  read_callback = some 0;
  write_callback = some 1;
  err_callback = some 2;
  close_callback = some 3;
  event_callback = none;
}

hup_and_err : with_hup_err 4 ≡ 4 + (16 + 8)
unfolding set_bit
hup_and_err = refl
