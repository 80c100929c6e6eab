-- ===== src/Buffer/Read.antt =====
-- The reading operations of Buffer: each takes its bytes from the front of the contents.
use high_concurrency_server.Common.{
  ℕ, ◌+◌, ◌-◌, ◌≤◌, ◌<◌, ◌≡◌, refl, some, none, length, take, drop, arith, add64_lem, drop-take,
  drop-drop, le→leb, leb-false, take-take, add-zero,
}
use high_concurrency_server.Buffer.{
  copy_from, Buffer, move_read_position, read, read_as_string, read_and_pop, rd_string_and_pop,
}
use high_concurrency_server.Buffer.Inv.{IsValid, contents, read_size, length-contents}

-- A valid buffer that has lost its first `n` readable bytes and nothing else.
pub record Pops (b : Buffer) (n : ℕ) (b' : Buffer) : Type 0 where
  pub valid : IsValid b'
  pub rest : contents b' ≡ drop n (contents b)
  pub storage : b'.buffer ≡ b.buffer
  pub fits : b'.write_index ≡ b.write_index

abbrev moved : Buffer → ℕ → Buffer
moved b n = record b { read_index = b.read_index + n }

-- `MoveReadPosition` by at most the readable size drops that many bytes from the contents.
pub move_read_position-Pops :
    (b : Buffer) (n : ℕ)
    → IsValid b
    → n ≤ length (contents b)
    → (b' : Buffer) × (move_read_position b n ≡ some b') × Pops b n b'
unfolding move_read_position
move_read_position-Pops b n v h = (
  moved b n,
  rw (
    read_size b v,
    le→leb n (b.write_index - b.read_index) (omega (arith, length-contents b v)),
    add64_lem b.read_index n (omega (arith, length-contents b v, v.within, v.bounded)),
  ),
  record {
    valid = record {
      ordered = omega (arith, length-contents b v, v.ordered);
      within = v.within;
      bounded = v.bounded;
    };
    rest = dropped;
    storage = refl;
    fits = refl;
  },
)
  where
    dropped : contents (moved b n) ≡ drop n (contents b)
    dropped =
        let e : b.write_index - (b.read_index + n) ≡ b.write_index - b.read_index - n =
          omega arith in
        rw (
          drop-take n (b.write_index - b.read_index) (drop b.read_index b.buffer)
              (omega (arith, length-contents b v)),
          drop-drop n b.read_index b.buffer,
          e,
        )

-- `MoveReadPosition` past the readable bytes fails its assertion.
pub move_read_position_fails :
    (b : Buffer) (n : ℕ) → IsValid b → length (contents b) < n → move_read_position b n ≡ none
unfolding move_read_position
move_read_position_fails b n v h =
    rw (
      read_size b v,
      leb-false n (b.write_index - b.read_index) (omega (arith, length-contents b v)),
    )

pub move_read_zero : (b : Buffer) → IsValid b → move_read_position b 0 ≡ some b
unfolding move_read_position
move_read_zero b v = rw (
  read_size b v,
  le→leb 0 (b.write_index - b.read_index) (omega arith),
  add64_lem b.read_index 0 (omega (arith, v.ordered, v.within, v.bounded)),
  add-zero b.read_index,
)

-- The first `n` readable bytes, as `std::copy` from the read position gives them.
pub copy_prefix :
    (b : Buffer) (n : ℕ)
    → IsValid b
    → n ≤ length (contents b)
    → copy_from b.buffer b.read_index n ≡ some (take n (contents b))
copy_prefix b n v h = rw (
  le→leb (b.read_index + n) (length b.buffer)
      (omega (arith, length-contents b v, v.ordered, v.within)),
  take-take n (b.write_index - b.read_index) (drop b.read_index b.buffer)
      (omega (arith, length-contents b v)),
)

pub read_prefix :
    (b : Buffer) (n : ℕ)
    → IsValid b
    → n ≤ length (contents b)
    → read_as_string b n ≡ some (take n (contents b))
unfolding read_as_string read
read_prefix b n v h = rw (
  read_size b v,
  le→leb n (b.write_index - b.read_index) (omega (arith, length-contents b v)),
  le→leb (b.read_index + n) (length b.buffer)
      (omega (arith, length-contents b v, v.ordered, v.within)),
  take-take n (b.write_index - b.read_index) (drop b.read_index b.buffer)
      (omega (arith, length-contents b v)),
)

-- `RdStringAndPop(n)` with `n` readable bytes returns the first `n` bytes of the contents and
-- removes them.
pub rd_string_and_pop-Pops :
    (b : Buffer) (n : ℕ)
    → IsValid b
    → n ≤ length (contents b)
    → (b' : Buffer) × (rd_string_and_pop b n ≡ some (take n (contents b), b')) × Pops b n b'
unfolding rd_string_and_pop
rd_string_and_pop-Pops b n v h =
    let (b', e, p) = move_read_position-Pops b n v h in
    (
      b',
      rw (
        read_size b v,
        le→leb n (b.write_index - b.read_index) (omega (arith, length-contents b v)),
        read_prefix b n v h,
        e,
      ),
      p,
    )

pub rd_string_and_pop_fails :
    (b : Buffer) (n : ℕ) → IsValid b → length (contents b) < n → rd_string_and_pop b n ≡ none
unfolding rd_string_and_pop
rd_string_and_pop_fails b n v h =
    rw (
      read_size b v,
      leb-false n (b.write_index - b.read_index) (omega (arith, length-contents b v)),
    )

-- `ReadAndPop` gives the caller's array the bytes that `RdStringAndPop` returns.
pub read_and_pop-rd_string : (b : Buffer) (n : ℕ) → read_and_pop b n ≡ rd_string_and_pop b n
unfolding read_and_pop rd_string_and_pop read_as_string
read_and_pop-rd_string b n = ground arith
