-- ===== src/LoopPool/Rounds.antt =====
-- The pool hands its loops out in turn.
use high_concurrency_server.Common.{
  ◌⊎◌, inl, inr, add-zero, ℕ, zero, suc, ◌+◌, ◌%◌, ◌<◌, ◌≡◌, ◌∙◌, refl, sym, ap, false, Option,
  some, List, [], ◌∷◌, get_elem?, length, ◌==◌, ◌>>=◌, arith, get_elem?_lt, lt→ltb,
}
use native.Mathlib.Nat.{mod-lt, mod-add-mod}
use high_concurrency_server.LoopPool.{
  LoopThreadPool, init, get_next_event_loop, set_thread_cnt, collect, create,
}

-- The pool has a loop for each thread.
pub record IsStarted (p : LoopThreadPool) : Type 0 where
  pub some_threads : 0 < p.thread_cnt
  pub all_loops : length p.slave_event_loops ≡ p.thread_cnt

length-collect : (n : ℕ) (started : ℕ → ℕ) (i : ℕ) → length (collect n started i) ≡ n
unfolding collect
length-collect zero started i = refl
length-collect (suc n) started i = ap suc (length-collect n started (i + 1))

-- `Create` starts a loop for each of the threads that were set.
pub create-IsStarted :
    (base n : ℕ) (started : ℕ → ℕ)
    → 0 < n
    → IsStarted (create (set_thread_cnt (init base) n) started)
unfolding create set_thread_cnt init
create-IsStarted base n started h =
    rw (lt→ltb 0 n h) (record { some_threads = h; all_loops = length-collect n started 0 })

-- Without threads every connection goes to the base loop.
pub get_next_event_loop_base :
    (p : LoopThreadPool) → p.thread_cnt ≡ 0 → get_next_event_loop p ≡ some (p.base_loop, p)
unfolding get_next_event_loop
get_next_event_loop_base p h = ground arith

round :
    (p : LoopThreadPool)
    → IsStarted p
    → (loop : ℕ) × (get_elem? p.slave_event_loops ((p.next_event_loop + 1) % p.thread_cnt)
        ≡ some loop)
      × (get_next_event_loop p
          ≡ some (loop, record p { next_event_loop = (p.next_event_loop + 1) % p.thread_cnt }))
unfolding get_next_event_loop
round p s =
    let lt : (p.next_event_loop + 1) % p.thread_cnt < length p.slave_event_loops =
      omega (arith, mod-lt (p.next_event_loop + 1) s.some_threads, s.all_loops) in
    let (loop, e) = get_elem?_lt p.slave_event_loops ((p.next_event_loop + 1) % p.thread_cnt) lt in
    let many : (p.thread_cnt == 0) ≡ false = ground (arith, s.some_threads) in
    (loop, e, rw (many, e))

-- `k` further calls, with the loops that they return.
unfoldable pub get_loops : ℕ → LoopThreadPool → Option (List ℕ × LoopThreadPool)
get_loops zero p = some ([], p)
get_loops (suc k) p = do
  (loop, p') ← get_next_event_loop p
  (loops, p'') ← get_loops k p'
  some (loop ∷ loops, p'')

-- The first call takes the next slave, and the others go on from there.
in_turn :
    (p : LoopThreadPool) (loop : ℕ) (loops : List ℕ) (k : ℕ)
    → get_elem? p.slave_event_loops ((p.next_event_loop + 1) % p.thread_cnt) ≡ some loop
    → ((i : ℕ)
        → i < k
        → get_elem? loops i
          ≡ get_elem? p.slave_event_loops
              (((p.next_event_loop + 1) % p.thread_cnt + 1 + i) % p.thread_cnt))
    → (i : ℕ) → i < suc k
    → get_elem? (loop ∷ loops) i
      ≡ get_elem? p.slave_event_loops ((p.next_event_loop + 1 + i) % p.thread_cnt)
in_turn p loop loops k at turn zero h =
    sym at
    ∙ ap (λ n. get_elem? p.slave_event_loops (n % p.thread_cnt))
        (sym (add-zero (p.next_event_loop + 1)))
in_turn p loop loops k at turn (suc i) h =
    turn i (omega arith) ∙ ap (get_elem? p.slave_event_loops) same
  where
    same :
        ((p.next_event_loop + 1) % p.thread_cnt + 1 + i) % p.thread_cnt
        ≡ (p.next_event_loop + 1 + suc i) % p.thread_cnt
    same =
        let a : (p.next_event_loop + 1) % p.thread_cnt + 1 + i
            ≡ (p.next_event_loop + 1) % p.thread_cnt + (1 + i) =
          omega arith in
        let b : p.next_event_loop + 1 + (1 + i) ≡ p.next_event_loop + 1 + suc i = omega arith in
        ap (λ n. n % p.thread_cnt) a
        ∙ mod-add-mod (p.next_event_loop + 1) p.thread_cnt (1 + i)
        ∙ ap (λ n. n % p.thread_cnt) b

-- With `n` slave loops, consecutive calls return the slaves in turn: the call behind `i` others
-- returns the slave number `(next + 1 + i) mod n`.
pub get_loops_round_robin :
    (k : ℕ) (p : LoopThreadPool)
    → IsStarted p
    → (loops : List ℕ) × (p' : LoopThreadPool) × (get_loops k p ≡ some (loops, p'))
      × (length loops ≡ k)
      × ((i : ℕ)
          → i < k
          → get_elem? loops i
            ≡ get_elem? p.slave_event_loops ((p.next_event_loop + 1 + i) % p.thread_cnt))
unfolding get_loops
get_loops_round_robin zero p s = ([], p, refl, refl, λ i h. absurd (omega arith))
get_loops_round_robin (suc k) p s =
    let (loop, at, e) = round p s in
    let p1 : LoopThreadPool = record p {
      next_event_loop = (p.next_event_loop + 1) % p.thread_cnt;
    } in
    let (loops, p2, rest, size, turn) =
      get_loops_round_robin k p1
        (record { some_threads = s.some_threads; all_loops = s.all_loops }) in
    (loop ∷ loops, p2, rw (e, rest), ap suc size, in_turn p loop loops k at turn)

-- The pool hands loops out: it has no threads, or a loop for each.
abbrev pub Deals : LoopThreadPool → Type 0
Deals p = (p.thread_cnt ≡ 0) ⊎ IsStarted p

-- The loop is the base loop of a pool without threads, or one of the slaves.
abbrev pub IsPoolLoop : LoopThreadPool → ℕ → Type 0
IsPoolLoop p loop =
    ((p.thread_cnt ≡ 0) × (loop ≡ p.base_loop))
    ⊎ ((i : ℕ) × (i < p.thread_cnt) × (get_elem? p.slave_event_loops i ≡ some loop))

-- The next call on a pool that deals returns a loop of the pool, within the bounds of its vector,
-- and changes only whose turn it is.
pub get_next_event_loop-IsPoolLoop :
    (p : LoopThreadPool)
    → Deals p
    → (loop : ℕ) × (next : ℕ) × (get_next_event_loop p
        ≡ some (loop, record p { next_event_loop = next }))
      × IsPoolLoop p loop
      × Deals (record p { next_event_loop = next })
get_next_event_loop-IsPoolLoop p (inl e) =
    (p.base_loop, p.next_event_loop, get_next_event_loop_base p e, inl (e, refl), inl e)
get_next_event_loop-IsPoolLoop p (inr s) =
    let (loop, at, e) = round p s in
    (
      loop,
      (p.next_event_loop + 1) % p.thread_cnt,
      e,
      inr (
        (p.next_event_loop + 1) % p.thread_cnt,
        mod-lt (p.next_event_loop + 1) s.some_threads,
        at,
      ),
      inr (record { some_threads = s.some_threads; all_loops = s.all_loops }),
    )
