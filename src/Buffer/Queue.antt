-- ===== src/Buffer/Queue.antt =====
-- A run of public calls on a Buffer against the same run on a plain byte queue.
use mathlib.Core.Option
use high_concurrency_server.Common.{
  ℕ, suc, ◌+◌, ◌≤◌, ◌≡◌, refl, inl, inr, ◌⊎◌, Option, some, none, List, [], ◌∷◌, ◌++◌, Bytes,
  length, take, drop, arith, leb, if◌then◌else◌, ◌>>=◌, Bool-cases, Option-cases, leb→le,
  leb_false→lt,
}
use high_concurrency_server.Buffer.{
  Buffer, max_size, lf, memchr, write_and_add, rd_string_and_pop, get_line_and_add, clear,
}
use high_concurrency_server.Buffer.Inv.{IsValid, contents}
use high_concurrency_server.Buffer.Write.{write_and_add-Appends}
use high_concurrency_server.Buffer.Read.{rd_string_and_pop-Pops, rd_string_and_pop_fails}
use high_concurrency_server.Buffer.Line.{get_line_and_add_found, get_line_and_add_absent}

-- A public call, with what its caller passes.
pub data Call : Type 0 where
  append : Bytes → Call
  pop : ℕ → Call
  line : Call
  reset : Call

-- A call on the buffer, with the string that it returns (empty for `WriteAndAdd` and `clear`).
unfoldable pub step : Buffer → Call → Option (Bytes × Buffer)
step b (append d) = write_and_add b d >>= λ b'. some ([], b')
step b (pop n) = rd_string_and_pop b n
step b line = get_line_and_add b
step b reset = some ([], clear b)

unfoldable pub run : Buffer → List Call → Option (List Bytes × Buffer)
run b [] = some ([], b)
run b (c ∷ cs) = do (out, b') ← step b c; (outs, b'') ← run b' cs; some (out ∷ outs, b'')

-- The bytes up to and with the one at the offset, and those behind it.
abbrev split_line : Bytes → Option ℕ → Option (Bytes × Bytes)
split_line q none = some ([], q)
split_line q (some n) = some (take (suc n) q, drop (suc n) q)

-- The same calls on a queue of bytes.
unfoldable pub queue_step : Bytes → Call → Option (Bytes × Bytes)
queue_step q (append d) = some ([], q ++ d)
queue_step q (pop n) = if leb n (length q) then some (take n q, drop n q) else none
queue_step q line = split_line q (memchr q lf)
queue_step q reset = some ([], [])

unfoldable pub queue_run : Bytes → List Call → Option (List Bytes × Bytes)
queue_run q [] = some ([], q)
queue_run q (c ∷ cs) = do
  (out, q') ← queue_step q c
  (outs, q'') ← queue_run q' cs
  some (out ∷ outs, q'')

-- The bytes that a call writes, and those of a run.
abbrev pub written : Call → ℕ
written (append d) = length d
written (pop n) = 0
written line = 0
written reset = 0

abbrev pub written_all : List Call → ℕ
written_all [] = 0
written_all (c ∷ cs) = written c + written_all cs

-- Both fail, or both return the same string and the buffer still holds the queue.
abbrev Agree : Buffer → Call → Type 0
Agree b c =
    ((step b c ≡ none) × (queue_step (contents b) c ≡ none))
    ⊎ ((out : Bytes) × (b' : Buffer) × (step b c ≡ some (out, b'))
        × (queue_step (contents b) c ≡ some (out, contents b'))
        × IsValid b'
        × (b'.write_index ≤ b.write_index + written c))

step-Agree : (b : Buffer) (c : Call) → IsValid b → b.write_index + written c ≤ max_size → Agree b c
unfolding step queue_step
step-Agree b (append d) v h =
    let (b', e, a) = write_and_add-Appends b d v h in
    inr ([], b', rw e, rw a.appended, a.valid, a.fits)
step-Agree b (pop n) v h = elim (Bool-cases (leb n (length (contents b)))) [
  | inl fits ↦
      let (b', e, p) = rd_string_and_pop-Pops b n v (leb→le n _ fits) in
      inr (take n (contents b), b', e, rw (fits, p.rest), p.valid, omega (arith, p.fits))
  | inr over ↦ inl (rd_string_and_pop_fails b n v (leb_false→lt n _ over), rw over)
]
step-Agree b line v h = elim (Option-cases (memchr (contents b) lf)) [
  | inl e ↦ inr ([], b, get_line_and_add_absent b v e, rw e, v, omega arith)
  | inr (n, e) ↦
      let (b', r, p) = get_line_and_add_found b n v e in
      inr (take (suc n) (contents b), b', r, rw (e, p.rest), p.valid, omega (arith, p.fits))
]
step-Agree b reset v h = inr (
  [],
  clear b,
  refl,
  unfold clear in refl,
  unfold clear in record { ordered = omega arith; within = omega arith; bounded = v.bounded },
  unfold clear in omega arith,
)

-- A run of calls on a valid buffer returns the strings that the same run on the queue of its
-- contents returns, ends with those contents, and fails exactly when that one fails, as long as
-- the bytes written do not take the write index past `max_size()`.
pub run_refines :
    (cs : List Call) (b : Buffer)
    → IsValid b
    → b.write_index + written_all cs ≤ max_size
    → Option.map (λ (r : List Bytes × Buffer). (r.0, contents r.1)) (run b cs)
      ≡ queue_run (contents b) cs
unfolding run queue_run
run_refines [] b v h = refl
run_refines (c ∷ cs) b v h = elim (step-Agree b c v (omega arith)) [
  | inl (e, q) ↦ rw (e, q)
  | inr (out, b', e, q, v', w) ↦ rw (e, q, ← run_refines cs b' v' (omega arith)) (ground arith)
]
