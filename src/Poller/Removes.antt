-- ===== src/Poller/Removes.antt =====
-- A Channel that leaves the Poller.
use high_concurrency_server.Common.{
  ℕ, ◌≡◌, ◌∙◌, ap, refl, inl, inr, none, some, List, [], ◌∷◌, get_elem?, ◌==◌, ==_refl,
  if◌then◌else◌, arith, Bool-cases,
}
use high_concurrency_server.Channel.{Channel}
use high_concurrency_server.Poller.Kernel.{Epoll, CtlOp}
use high_concurrency_server.Poller.{Poller, find, erase, remove_event, remove}
use high_concurrency_server.Poller.Tracks.{Entry, Tracks, same-Entry, epoll_opr_done}

find-erase : (m : List (ℕ × ℕ)) (i j : ℕ) → find (erase m i) j ≡ (if i == j then none else find m j)
unfolding find erase
find-erase [] i j = ground arith
find-erase ((k, r) ∷ m) i j = ground (arith, find-erase m i j)

module _ (os : Epoll) (F : Type 0) where
  open os use {State, ctl, interest, del_lem}

  removed :
      (p p' : Poller os F) (fd j : ℕ)
      → find p'.channels j ≡ (if fd == j then none else find p.channels j)
      → interest p'.kernel j ≡ (if fd == j then none else interest p.kernel j)
      → p'.heap ≡ p.heap
      → Entry os F p j (find p.channels j)
      → Entry os F p' j (find p'.channels j)
  removed p p' fd j map watch hp e = elim (Bool-cases (fd == j)) [
    | inl same ↦ rw (map, same) (watch ∙ rw same)
    | inr other ↦
        rw (map, other) (same-Entry os F p p' j (watch ∙ rw other) hp (find p.channels j) e)
  ]

  -- `Channel::Remove`, when its `epoll_ctl` succeeds, takes the descriptor out of the map and out of
  -- the kernel's set, and the other descriptors stay watched as they were.
  pub remove-Tracks :
      (p : Poller os F) (ptr : ℕ) (ch : Channel F) (k : State)
      → Tracks os F p
      → get_elem? p.heap ptr ≡ some ch
      → ctl p.kernel CtlOp.ctl_del ch.fd ch.event ≡ some k
      → (p' : Poller os F) × (remove os F p ptr ≡ some p')
        × Tracks os F p'
        × (find p'.channels ch.fd ≡ none)
        × ((j : ℕ) → interest p'.kernel j ≡ (if ch.fd == j then none else interest p.kernel j))
  unfolding remove remove_event
  remove-Tracks p ptr ch k t g done =
      let p' : Poller os F = record {
        kernel = k;
        channels = erase p.channels ch.fd;
        heap = p.heap;
      } in
      (
        p',
        rw g (
            ap some (
              epoll_opr_done os F (record p { channels = erase p.channels ch.fd }) ch CtlOp.ctl_del
                k done)),
        record {
          entries = λ j.
              removed p p' ch.fd j (find-erase p.channels ch.fd j)
                (del_lem p.kernel k ch.fd ch.event j done) refl (t.entries j);
        },
        find-erase p.channels ch.fd ch.fd ∙ rw (==_refl ch.fd),
        λ j. del_lem p.kernel k ch.fd ch.event j done,
      )
