-- ===== src/Channel.antt =====
-- Channel of Sever_final/Sever.hpp: a file descriptor, the events that are watched on it, and the
-- callbacks for those that came. A callback is any value; an unset one is `none`. What a handler
-- does is the list of the callbacks that it calls, in order.
pub mod Bits
pub mod Dispatch
mod Tests
use high_concurrency_server.Common.{
  ℕ, ◌+◌, ◌-◌, ◌/◌, ◌%◌, ◌^◌, Bool, true, false, ◌||◌, Option, none, some, List, [], ◌∷◌, ◌++◌,
  ◌==◌, if◌then◌else◌,
}

-- The bits of <sys/epoll.h>, by their exponents.
abbrev pub epoll_in : ℕ
epoll_in = 0

abbrev pub epoll_pri : ℕ
epoll_pri = 1

abbrev pub epoll_out : ℕ
epoll_out = 2

abbrev pub epoll_err : ℕ
epoll_err = 3

abbrev pub epoll_hup : ℕ
epoll_hup = 4

abbrev pub epoll_rdhup : ℕ
epoll_rdhup = 13

-- `e & (1 << k)`, `e |= 1 << k` and `e &= ~(1 << k)`.
unfoldable pub has_bit : ℕ → ℕ → Bool
has_bit e k = e / 2 ^ k % 2 == 1

unfoldable pub set_bit : ℕ → ℕ → ℕ
unfolding has_bit
set_bit e k = if has_bit e k then e else e + 2 ^ k

unfoldable pub clear_bit : ℕ → ℕ → ℕ
unfolding has_bit
clear_bit e k = if has_bit e k then e - 2 ^ k else e

pub record Channel (F : Type 0) : Type 0 where
  pub fd : ℕ
  pub event : ℕ
  pub revent : ℕ
  pub read_callback : Option F
  pub write_callback : Option F
  pub close_callback : Option F
  pub err_callback : Option F
  pub event_callback : Option F

-- A callback that is set is called.
abbrev pub call : {F : Type 0} → Option F → List F
call none = []
call (some f) = f ∷ []

module _ {F : Type 0} where
  unfoldable pub init : ℕ → Channel F
  init fd = record {
    fd = fd;
    event = 0;
    revent = 0;
    read_callback = none;
    write_callback = none;
    close_callback = none;
    err_callback = none;
    event_callback = none;
  }

  unfoldable pub fd_is_read : Channel F → Bool
  unfolding has_bit
  fd_is_read c = has_bit c.event epoll_in

  unfoldable pub fd_is_write : Channel F → Bool
  unfolding has_bit
  fd_is_write c = has_bit c.event epoll_out

  unfoldable pub set_revent : Channel F → ℕ → Channel F
  set_revent c event = record c { revent = event }

  -- These five are followed by `unpate()`, the loop's `UpdateEvent`: see Poller.
  unfoldable pub fd_add_write : Channel F → Channel F
  unfolding set_bit
  fd_add_write c = record c { event = set_bit c.event epoll_out }

  unfoldable pub fd_add_read : Channel F → Channel F
  unfolding set_bit
  fd_add_read c = record c { event = set_bit c.event epoll_in }

  unfoldable pub fd_delete_write : Channel F → Channel F
  unfolding clear_bit
  fd_delete_write c = record c { event = clear_bit c.event epoll_out }

  unfoldable pub fd_delete_read : Channel F → Channel F
  unfolding clear_bit
  fd_delete_read c = record c { event = clear_bit c.event epoll_in }

  unfoldable pub fd_delete_all_event : Channel F → Channel F
  fd_delete_all_event c = record c { event = 0 }

  unfoldable pub hander_event : Channel F → List F
  unfolding has_bit
  hander_event c =
      (if has_bit c.revent epoll_in || (has_bit c.revent epoll_rdhup || has_bit c.revent epoll_pri)
        then call c.read_callback
        else [])
      ++ ((if has_bit c.revent epoll_out
            then call c.write_callback
            else if has_bit c.revent epoll_hup
            then call c.close_callback
            else if has_bit c.revent epoll_err
            then call c.err_callback
            else [])
          ++ call c.event_callback)
