-- ===== src/Poller/Tracks.antt =====
-- The map of a Poller and the kernel's set hold the same descriptors, with the events of the
-- channels.
use native.Mathlib.Decide.{ℕ_discrete}
use mathlib.Core.Path.{subst}
use high_concurrency_server.Common.{
  ℕ, ◌≡◌, ◌≢◌, ◌∙◌, sym, ap, refl, ◌⊎◌, inl, inr, false, Option, none, some, List, ◌∷◌, get_elem?,
  set, ◌==◌, ==_refl, if◌then◌else◌, arith, Option-cases, some-cancel, get_elem?-set_self,
  get_elem?-set_ne, lt_of_get_elem?,
}
use high_concurrency_server.Channel.{Channel}
use high_concurrency_server.Poller.Kernel.{Epoll, CtlOp}
use high_concurrency_server.Poller.{Poller, find, fd_is_exist, epoll_opr, update_event, change}

known_entry :
    (m : List (ℕ × ℕ)) (fd ptr j : ℕ)
    → find m fd ≡ some ptr
    → find m j ≡ (if fd == j then some ptr else find m j)
known_entry m fd ptr j e = elim (ℕ_discrete fd j) [
  | yes same ↦ rw (← same, ==_refl fd) e
  | no ne ↦ let off : (fd == j) ≡ false = ground arith in rw off
]

module _ (os : Epoll) (F : Type 0) where
  open os use {State, ctl, interest, add_lem, mod_lem, del_lem}

  -- Each descriptor of the map belongs to a channel that has it, and is watched for the events of
  -- that channel; no other descriptor is watched.
  abbrev pub Entry : Poller os F → ℕ → Option ℕ → Type 0
  Entry p fd none = interest p.kernel fd ≡ none
  Entry p fd (some ptr) =
      (ch : Channel F) × (get_elem? p.heap ptr ≡ some ch)
      × (ch.fd ≡ fd)
      × (interest p.kernel fd ≡ some ch.event)

  pub record Tracks (p : Poller os F) : Type 0 where
    pub entries : (fd : ℕ) → Entry p fd (find p.channels fd)

  -- The channel that the map has for the descriptor of a channel is that channel.
  abbrev pub IsOwn : Poller os F → ℕ → Channel F → Type 0
  IsOwn p ptr ch = (find p.channels ch.fd ≡ none) ⊎ (find p.channels ch.fd ≡ some ptr)

  -- The entries of the other descriptors are not affected.
  other-Entry :
      (p p' : Poller os F) (ptr j : ℕ) (ch ch' : Channel F)
      → get_elem? p.heap ptr ≡ some ch
      → ch.fd ≢ j
      → p'.heap ≡ set p.heap ptr ch'
      → interest p'.kernel j ≡ interest p.kernel j
      → (o : Option ℕ) → Entry p j o
      → Entry p' j o
  other-Entry p p' ptr j ch ch' g ne hp k none e = k ∙ e
  other-Entry p p' ptr j ch ch' g ne hp k (some q) (c, at, fd, ev) =
      (c, rw hp (get_elem?-set_ne p.heap ptr q ch' apart ∙ at), fd, k ∙ ev)
    where
      apart : ptr ≢ q
      apart same = ne (
          ap (λ (z : Channel F). z.fd) (some-cancel (sym g ∙ ap (get_elem? p.heap) same ∙ at)) ∙ fd)

  pub same-Entry :
      (p p' : Poller os F) (j : ℕ)
      → interest p'.kernel j ≡ interest p.kernel j
      → p'.heap ≡ p.heap
      → (o : Option ℕ) → Entry p j o
      → Entry p' j o
  same-Entry p p' j k hp none e = k ∙ e
  same-Entry p p' j k hp (some q) (c, at, fd, ev) = (c, rw hp at, fd, k ∙ ev)

  own-Entry :
      (p' : Poller os F) (heap : List (Channel F)) (ptr : ℕ) (ch ch' : Channel F)
      → get_elem? heap ptr ≡ some ch
      → p'.heap ≡ set heap ptr ch'
      → interest p'.kernel ch'.fd ≡ some ch'.event
      → Entry p' ch'.fd (some ptr)
  own-Entry p' heap ptr ch ch' g hp k =
      (ch', rw hp (get_elem?-set_self heap ptr ch' (lt_of_get_elem? heap ptr g)), refl, k)

  -- Where a stale entry would be: this one is found at its own descriptor only.
  step_entries :
      (p p' : Poller os F) (ptr : ℕ) (ch ch' : Channel F)
      → Tracks p
      → get_elem? p.heap ptr ≡ some ch
      → ch'.fd ≡ ch.fd
      → p'.heap ≡ set p.heap ptr ch'
      → ((j : ℕ) → find p'.channels j ≡ (if ch'.fd == j then some ptr else find p.channels j))
      → ((j : ℕ)
          → interest p'.kernel j ≡ (if ch'.fd == j then some ch'.event else interest p.kernel j))
      → Tracks p'
  step_entries p p' ptr ch ch' t g fd hp map watch = record {
    entries = λ j. elim (ℕ_discrete ch'.fd j) [
      | yes same ↦
          subst (λ k. Entry p' k (find p'.channels k)) same
            (rw (map ch'.fd, ==_refl ch'.fd)
              (own-Entry p' p.heap ptr ch ch' g hp (watch ch'.fd ∙ rw (==_refl ch'.fd))))
      | no ne ↦
          let off : (ch'.fd == j) ≡ false = ground arith in
          rw (map j, off)
            (other-Entry p p' ptr j ch ch' g (λ e. ne (fd ∙ e)) hp (watch j ∙ rw off)
              (find p.channels j) (t.entries j))
    ];
  }

  -- The call of `epoll_ctl` behind a change of a channel: `EPOLL_CTL_MOD` for a descriptor of the
  -- map, else `EPOLL_CTL_ADD`.
  abbrev pub asked : Poller os F → Channel F → Option State
  asked p ch =
      ctl p.kernel (elim (find p.channels ch.fd) [ none ↦ CtlOp.ctl_add | some q ↦ CtlOp.ctl_mod ])
        ch.fd ch.event

  -- What a change of a channel to `ch` has done: the kernel knows its events and the map has the
  -- channel, or `epoll_ctl` failed, the kernel's set is as it was, and the map has the channel all
  -- the same.
  abbrev pub Changed : Poller os F → ℕ → Channel F → Poller os F → Type 0
  Changed p ptr ch p' =
      ((k : State) × (asked p ch ≡ some k) × Tracks p' × (interest p'.kernel ch.fd ≡ some ch.event))
      ⊎ ((asked p ch ≡ none) × (p'.kernel ≡ p.kernel) × (find p'.channels ch.fd ≡ some ptr))

  epoll_opr_fails :
      (p : Poller os F) (ch : Channel F) (opr : CtlOp)
      → ctl p.kernel opr ch.fd ch.event ≡ none
      → epoll_opr os F p ch opr ≡ p
  unfolding epoll_opr
  epoll_opr_fails p ch opr e = ground arith

  pub epoll_opr_done :
      (p : Poller os F) (ch : Channel F) (opr : CtlOp) (k : State)
      → ctl p.kernel opr ch.fd ch.event ≡ some k
      → epoll_opr os F p ch opr ≡ record p { kernel = k }
  unfolding epoll_opr
  epoll_opr_done p ch opr k e = ground arith

  abbrev with_channels : List (ℕ × ℕ) → Poller os F → Poller os F
  with_channels m p = record p { channels = m }

  change_fresh :
      (p : Poller os F) (ptr : ℕ) (ch ch' : Channel F)
      → ch'.fd ≡ ch.fd
      → Tracks p
      → get_elem? p.heap ptr ≡ some ch
      → find p.channels ch'.fd ≡ none
      → (p' : Poller os F) × (update_event os F (record p { heap = set p.heap ptr ch' }) ptr ch'
          ≡ p')
        × Changed p ptr ch' p'
  unfolding update_event fd_is_exist find
  change_fresh p ptr ch ch' keeps t g new =
      let quiet = subst (Entry p ch'.fd) new (t.entries ch'.fd) in
      elim (Option-cases (ctl p.kernel CtlOp.ctl_add ch'.fd ch'.event)) [
        | inl fails ↦ (
          record p { channels = (ch'.fd, ptr) ∷ p.channels; heap = set p.heap ptr ch' },
          rw (fd_is_exist, new)
              (ap (with_channels ((ch'.fd, ptr) ∷ p.channels))
                (epoll_opr_fails (record p { heap = set p.heap ptr ch' }) ch' CtlOp.ctl_add fails)),
          inr (rw (asked, new) fails, refl, rw (==_refl ch'.fd) refl),
        )
        | inr (k, done) ↦
            let p' : Poller os F = record {
              kernel = k;
              channels = (ch'.fd, ptr) ∷ p.channels;
              heap = set p.heap ptr ch';
            } in
            let watch : (j : ℕ)
                → interest k j ≡ (if ch'.fd == j then some ch'.event else interest p.kernel j) =
              λ j. add_lem p.kernel k ch'.fd ch'.event j quiet done in
            (
              p',
              rw (fd_is_exist, new)
                  (ap (with_channels ((ch'.fd, ptr) ∷ p.channels)) (
                    epoll_opr_done (record p { heap = set p.heap ptr ch' }) ch' CtlOp.ctl_add k
                      done)),
              inl (
                k,
                rw (asked, new) done,
                step_entries p p' ptr ch ch' t g keeps refl (λ j. refl) watch,
                watch ch'.fd ∙ rw (==_refl ch'.fd),
              ),
            )
      ]

  change_known :
      (p : Poller os F) (ptr : ℕ) (ch ch' : Channel F)
      → ch'.fd ≡ ch.fd
      → Tracks p
      → get_elem? p.heap ptr ≡ some ch
      → find p.channels ch'.fd ≡ some ptr
      → (p' : Poller os F) × (update_event os F (record p { heap = set p.heap ptr ch' }) ptr ch'
          ≡ p')
        × Changed p ptr ch' p'
  unfolding update_event fd_is_exist
  change_known p ptr ch ch' keeps t g old =
      let seen = subst (Entry p ch'.fd) old (t.entries ch'.fd) in
      elim (Option-cases (ctl p.kernel CtlOp.ctl_mod ch'.fd ch'.event)) [
        | inl fails ↦ (
          record p { heap = set p.heap ptr ch' },
          rw (fd_is_exist, old)
              (epoll_opr_fails (record p { heap = set p.heap ptr ch' }) ch' CtlOp.ctl_mod fails),
          inr (rw (asked, old) fails, refl, old),
        )
        | inr (k, done) ↦
            let p' : Poller os F = record {
              kernel = k;
              channels = p.channels;
              heap = set p.heap ptr ch';
            } in
            let watch : (j : ℕ)
                → interest k j ≡ (if ch'.fd == j then some ch'.event else interest p.kernel j) =
              λ j. mod_lem p.kernel k ch'.fd seen.0.event ch'.event j seen.3 done in
            (
              p',
              rw (fd_is_exist, old)
                  (epoll_opr_done (record p { heap = set p.heap ptr ch' }) ch' CtlOp.ctl_mod k
                    done),
              inl (
                k,
                rw (asked, old) done,
                step_entries p p' ptr ch ch' t g keeps refl
                    (λ j. known_entry p.channels ch'.fd ptr j old) watch,
                watch ch'.fd ∙ rw (==_refl ch'.fd),
              ),
            )
      ]

  -- A change of a channel's interest, for a channel whose descriptor the map does not have or has for
  -- this channel, so not one whose descriptor was used again while the map held another channel. When
  -- `epoll_ctl` succeeds, the change reaches the kernel: afterwards exactly the descriptors of the map
  -- are watched, each for the events of its channel, and this channel's for its new events. When
  -- `epoll_ctl` fails, the kernel's set is as it was, and the map has the channel all the same.
  pub change-Tracks :
      (f : Channel F → Channel F) (p : Poller os F) (ptr : ℕ) (ch : Channel F)
      → ((c : Channel F) → (f c).fd ≡ c.fd)
      → Tracks p
      → get_elem? p.heap ptr ≡ some ch
      → IsOwn p ptr ch
      → (p' : Poller os F) × (change os F f p ptr ≡ some p') × Changed p ptr (f ch) p'
  unfolding change
  change-Tracks f p ptr ch keeps t g (inl fresh) =
      let (p', e, c) = change_fresh p ptr ch (f ch) (keeps ch) t g (rw (keeps ch) fresh) in
      (p', rw (g, e), c)
  change-Tracks f p ptr ch keeps t g (inr known) =
      let (p', e, c) = change_known p ptr ch (f ch) (keeps ch) t g (rw (keeps ch) known) in
      (p', rw (g, e), c)
