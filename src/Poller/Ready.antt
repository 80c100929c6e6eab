-- ===== src/Poller/Ready.antt =====
-- What `Poll` does with the descriptors that `epoll_wait` reports.
use native.Mathlib.Decide.{ℕ_discrete}
use high_concurrency_server.Common.{
  ℕ, ◌+◌, ◌≡◌, ◌∙◌, sym, ap, refl, Option, none, some, List, [], ◌∷◌, ◌++◌, length, get_elem?, set,
  arith, some-cancel, get_elem?-set_self, get_elem?-set_ne, lt_of_get_elem?, length-append,
}
use high_concurrency_server.Channel.{Channel, set_revent}
use high_concurrency_server.Poller.Kernel.{Epoll}
use high_concurrency_server.Poller.{Poller, find, poll}
use high_concurrency_server.Poller.Tracks.{Entry, Tracks}

module _ (os : Epoll) (F : Type 0) where
  open os use {State, ctl, interest}

  -- What `epoll_wait` reports is watched.
  abbrev pub AllWatched : Poller os F → List (ℕ × ℕ) → Type 0
  AllWatched p [] = Unit {0}
  AllWatched p ((fd, events) ∷ ready) =
      ((e : ℕ) × (interest p.kernel fd ≡ some e)) × AllWatched p ready

  -- `Set_Revent` on the channel of a descriptor changes no event that is watched.
  revent-Entry :
      (p : Poller os F) (ptr ev j : ℕ) (ch : Channel F)
      → get_elem? p.heap ptr ≡ some ch
      → (o : Option ℕ) → Entry os F p j o
      → Entry os F (record p { heap = set p.heap ptr (set_revent ch ev) }) j o
  unfolding set_revent
  revent-Entry p ptr ev j ch g none e = e
  revent-Entry p ptr ev j ch g (some q) (c, at, fd, k) = elim (ℕ_discrete ptr q) [
    | yes same ↦
        let one : ch ≡ c = some-cancel (sym g ∙ ap (get_elem? p.heap) same ∙ at) in
        (
          record ch { revent = ev },
          rw (← same) (
              get_elem?-set_self p.heap ptr (record ch { revent = ev })
                (lt_of_get_elem? p.heap ptr g)),
          ap (λ (z : Channel F). z.fd) one ∙ fd,
          k ∙ ap (λ (z : Channel F). some z.event) (sym one),
        )
    | no ne ↦ (c, get_elem?-set_ne p.heap ptr q (record ch { revent = ev }) ne ∙ at, fd, k)
  ]

  watched_found :
      (p : Poller os F) (fd e : ℕ) (o : Option ℕ)
      → Entry os F p fd o
      → interest p.kernel fd ≡ some e
      → (ptr : ℕ) × (o ≡ some ptr) × ((ch : Channel F) × (get_elem? p.heap ptr ≡ some ch))
  watched_found p fd e none q k = cc
  watched_found p fd e (some ptr) (c, at, own, watch) k = (ptr, refl, (c, at))

  watched_still :
      (ready : List (ℕ × ℕ)) (p p' : Poller os F)
      → p'.kernel ≡ p.kernel
      → AllWatched p ready
      → AllWatched p' ready
  watched_still [] p p' e h = tt
  watched_still ((fd, events) ∷ ready) p p' e h =
      ((h.0.0, rw e h.0.1), watched_still ready p p' e h.1)

  -- When `epoll_wait` reports watched descriptors only, the assertion of `Poll` holds for each, one
  -- channel is pushed for each, and the map and the kernel still agree.
  pub poll-Tracks :
      (ready : List (ℕ × ℕ)) (p : Poller os F) (ret : List ℕ)
      → Tracks os F p
      → AllWatched p ready
      → (p' : Poller os F) × (ret' : List ℕ) × (poll os F p ready ret ≡ some (p', ret'))
        × Tracks os F p'
        × (length ret' ≡ length ret + length ready)
  unfolding poll
  poll-Tracks [] p ret t h = (p, ret, refl, t, omega arith)
  poll-Tracks ((fd, events) ∷ ready) p ret t h =
      let (ptr, e, (ch, g)) = watched_found p fd h.0.0 (find p.channels fd) (t.entries fd) h.0.1 in
      let p1 : Poller os F = record p { heap = set p.heap ptr (set_revent ch events) } in
      let t1 : Tracks os F p1 = record {
        entries = λ j. revent-Entry p ptr events j ch g (find p.channels j) (t.entries j);
      } in
      let (p', ret', done, t', size) =
        poll-Tracks ready p1 (ret ++ ptr ∷ []) t1 (watched_still ready p p1 refl h.1) in
      (p', ret', rw (e, g) done, t', omega (arith, size, length-append ret (ptr ∷ [])))
