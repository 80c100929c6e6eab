-- ===== src/Poller/Kernel.antt =====
-- The kernel's side of epoll, as <sys/epoll.h> documents it: a set of descriptors with their events.
-- `epoll_ctl` may fail, with `none`: on a descriptor that is not open or not pollable, for want of
-- room, and by `EPOLL_CTL_ADD` on one that is there or `EPOLL_CTL_MOD` on one that is not. The laws
-- say what it has done when it succeeds.
use high_concurrency_server.Common.{ℕ, ◌≡◌, Option, none, some, ◌==◌, if◌then◌else◌}

pub data CtlOp : Type 0 where
  ctl_add ctl_mod ctl_del : CtlOp

pub record Epoll : Type 1 where
  pub State : Type 0
  pub ctl : State → CtlOp → ℕ → ℕ → Option State
  -- the events that are watched on a descriptor
  pub interest : State → ℕ → Option ℕ
  pub add_lem :
      (s s' : State) (fd events j : ℕ)
      → interest s fd ≡ none
      → ctl s CtlOp.ctl_add fd events ≡ some s'
      → interest s' j ≡ (if fd == j then some events else interest s j)
  pub mod_lem :
      (s s' : State) (fd old events j : ℕ)
      → interest s fd ≡ some old
      → ctl s CtlOp.ctl_mod fd events ≡ some s'
      → interest s' j ≡ (if fd == j then some events else interest s j)
  pub del_lem :
      (s s' : State) (fd events j : ℕ)
      → ctl s CtlOp.ctl_del fd events ≡ some s'
      → interest s' j ≡ (if fd == j then none else interest s j)
