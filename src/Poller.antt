-- ===== src/Poller.antt =====
-- Poller of Sever_final/Sever.hpp, and the calls by which a Channel reaches it. A `Channel *` is
-- an index into `heap`. The kernel's side of epoll is the interface Poller/Kernel; `epoll_wait`
-- gives a list of descriptors with their events. `none` is a failed assertion or a dangling
-- pointer.
pub mod Kernel
pub mod Ready
pub mod Tracks
pub mod Removes
mod Tests
use high_concurrency_server.Common.{
  ℕ, zero, suc, Bool, true, false, Option, none, some, List, [], ◌∷◌, ◌++◌, get_elem?, set, ◌==◌,
  if◌then◌else◌, ◌>>=◌,
}
use high_concurrency_server.Channel.{Channel, set_revent}
use high_concurrency_server.Poller.Kernel.{Epoll, CtlOp}

-- `_channels.find(fd)` and `_channels.erase(fd)`, on pairs of a descriptor and a pointer.
unfoldable pub find : List (ℕ × ℕ) → ℕ → Option ℕ
find [] fd = none
find ((k, p) ∷ m) fd = if k == fd then some p else find m fd

unfoldable pub erase : List (ℕ × ℕ) → ℕ → List (ℕ × ℕ)
erase [] fd = []
erase ((k, p) ∷ m) fd = let rest = erase m fd in if k == fd then rest else (k, p) ∷ rest

module _ (os : Epoll) (F : Type 0) where
  open os use {State, ctl}

  pub record Poller : Type 0 where
    pub kernel : State
    pub channels : List (ℕ × ℕ)
    pub heap : List (Channel F)

  unfoldable pub fd_is_exist : Poller → Channel F → Bool
  unfolding find
  fd_is_exist p ch = elim (find p.channels ch.fd) [ none ↦ false | some q ↦ true ]

  -- A failing `epoll_ctl` is logged only, and the caller goes on.
  unfoldable pub epoll_opr : Poller → Channel F → CtlOp → Poller
  epoll_opr p ch opr = elim (ctl p.kernel opr ch.fd ch.event) [
    | none ↦ p
    | some k ↦ record p { kernel = k }
  ]

  unfoldable pub update_event : Poller → ℕ → Channel F → Poller
  unfolding fd_is_exist epoll_opr
  update_event p ptr ch =
      if fd_is_exist p ch
      then epoll_opr p ch CtlOp.ctl_mod
      else record (epoll_opr p ch CtlOp.ctl_add) { channels = (ch.fd, ptr) ∷ p.channels }

  unfoldable pub remove_event : Poller → Channel F → Poller
  unfolding epoll_opr erase
  remove_event p ch = epoll_opr (record p { channels = erase p.channels ch.fd }) ch CtlOp.ctl_del

  -- An operation on the interest of a channel, such as `Fd_Add_Read`, with its `unpate()`.
  unfoldable pub change : (Channel F → Channel F) → Poller → ℕ → Option Poller
  unfolding update_event
  change f p ptr = do
    ch ← get_elem? p.heap ptr
    some (update_event (record p { heap = set p.heap ptr (f ch) }) ptr (f ch))

  -- `Channel::Remove`
  unfoldable pub remove : Poller → ℕ → Option Poller
  unfolding remove_event
  remove p ptr = do ch ← get_elem? p.heap ptr; some (remove_event p ch)

  -- The loop of `Poll` over what `epoll_wait` reported, with the pointers pushed so far.
  unfoldable pub poll : Poller → List (ℕ × ℕ) → List ℕ → Option (Poller × List ℕ)
  unfolding find set_revent
  poll p [] ret = some (p, ret)
  poll p ((fd, events) ∷ ready) ret = do
    ptr ← find p.channels fd
    ch ← get_elem? p.heap ptr
    poll (record p { heap = set p.heap ptr (set_revent ch events) }) ready (ret ++ ptr ∷ [])
