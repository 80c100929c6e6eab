-- ===== src/Poller/Tests.antt =====
-- A poller on a kernel that keeps its set as a function.
use high_concurrency_server.Common.{
  ℕ, ◌≡◌, refl, sym, ap, Bool, true, false, ltb, some-cancel, Option, some, none, [], ◌∷◌, ◌==◌,
  if◌then◌else◌, inl, inr, arith, Bool-cases,
}
use high_concurrency_server.Channel.{Channel, fd_add_write}
use high_concurrency_server.Poller.Kernel.{Epoll, CtlOp}
use high_concurrency_server.Poller.{Poller, find, change}
use high_concurrency_server.Poller.Tracks.{Tracks, Changed, change-Tracks}

abbrev answer : Bool → (ℕ → Option ℕ) → Option (ℕ → Option ℕ)
answer true s = some s
answer false s = none

-- Descriptors below 1024 can be open.
abbrev ctl : (ℕ → Option ℕ) → CtlOp → ℕ → ℕ → Option (ℕ → Option ℕ)
ctl s CtlOp.ctl_add fd events = answer (ltb fd 1024) (λ j. if fd == j then some events else s j)
ctl s CtlOp.ctl_mod fd events = answer (ltb fd 1024) (λ j. if fd == j then some events else s j)
ctl s CtlOp.ctl_del fd events = answer (ltb fd 1024) (λ j. if fd == j then none else s j)

answer_lem : (b : Bool) (s s' : ℕ → Option ℕ) (j : ℕ) → answer b s ≡ some s' → s' j ≡ s j
answer_lem true s s' j e = ap (λ f. f j) (sym (some-cancel e))
answer_lem false s s' j e = absurd cc

abbrev kernel : Epoll
kernel = record {
  State = ℕ → Option ℕ;
  ctl = ctl;
  interest = λ s. s;
  add_lem = λ s s' fd events j e d. answer_lem (ltb fd 1024) _ s' j d;
  mod_lem = λ s s' fd old events j e d. answer_lem (ltb fd 1024) _ s' j d;
  del_lem = λ s s' fd events j d. answer_lem (ltb fd 1024) _ s' j d;
}

-- Descriptor 5 is watched for reading.
abbrev channel5 : Channel ℕ
channel5 = record {
  fd = 5;
  event = 1;
  revent = 0;
  read_callback = some 0;
  write_callback = some 1;
  err_callback = none;
  close_callback = none;
  event_callback = none;
}

abbrev poller : Poller kernel ℕ
poller = record {
  kernel = λ j. if 5 == j then some 1 else none;
  channels = (5, 0) ∷ [];
  heap = channel5 ∷ [];
}

poller-Tracks : Tracks kernel ℕ poller
unfolding find
poller-Tracks = record {
  entries = λ fd. elim (Bool-cases (5 == fd)) [
    | inl same ↦ rw same (channel5, refl, ground arith, rw same)
    | inr other ↦ rw other (rw other)
  ];
}

change-Tracks_example :
    (p' : Poller kernel ℕ) × (change kernel ℕ fd_add_write poller 0 ≡ some p')
    × Changed kernel ℕ poller 0 (fd_add_write channel5) p'
change-Tracks_example =
    change-Tracks kernel ℕ fd_add_write poller 0 channel5 (λ c. unfold fd_add_write in refl)
      poller-Tracks refl (inr (unfold find in refl))

-- `epoll_ctl` fails on a channel without a descriptor of the system, and the map has it all the same.
abbrev adrift : Poller kernel ℕ
adrift = record poller { heap = channel5 ∷ record channel5 { fd = 4096 } ∷ [] }

adrift_added :
    change kernel ℕ fd_add_write adrift 1
    ≡ some (record adrift {
      channels = (4096, 1) ∷ (5, 0) ∷ [];
      heap = channel5 ∷ fd_add_write (record channel5 { fd = 4096 }) ∷ [];
    })
unfolding change fd_add_write
adrift_added = refl
