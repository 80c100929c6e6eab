-- ===== src/Buffer/Room.antt =====
-- `EnsureWriteSpaceSize` of Buffer: the three ways to make room, and what each one keeps.
use high_concurrency_server.Common.{
  ℕ, ◌+◌, ◌-◌, ◌≤◌, ◌<◌, ◌≡◌, refl, inl, inr, some, ◌++◌, Bytes, length, take, drop, replicate,
  arith, leb, add64, add64_lem, length-take, length-append, length-replicate, length-drop, take_all,
  take-append_le, take-append_length, drop-append_le, Bool-cases, le→leb, leb→le, leb_false→lt,
}
use high_concurrency_server.Buffer.{
  Buffer, max_size, compact, grow, ensure_write_space_size, get_head_idle_space_size,
}
use high_concurrency_server.Buffer.Inv.{IsValid, contents, tail_size, read_size, length-contents}

-- What a call that makes room leaves: a valid buffer with the same contents and `len` free bytes.
pub record HasRoom (b : Buffer) (len : ℕ) (b' : Buffer) : Type 0 where
  pub valid : IsValid b'
  pub kept : contents b' ≡ contents b
  pub room : b'.write_index + len ≤ length b'.buffer
  pub fits : b'.write_index ≤ b.write_index

abbrev compacted : Buffer → Buffer
compacted b = record {
  buffer = contents b ++ drop (0 + length (contents b)) b.buffer;
  read_index = 0;
  write_index = b.write_index - b.read_index;
}

compact_lem : (b : Buffer) → IsValid b → compact b ≡ some (compacted b)
unfolding compact
compact_lem b v = rw (
  read_size b v,
  le→leb (b.read_index + (b.write_index - b.read_index)) (length b.buffer)
      (omega (arith, v.ordered, v.within)),
  le→leb (0 + length (contents b)) (length b.buffer)
      (omega (arith, length-contents b v, v.ordered, v.within)),
)

compacted-HasRoom :
    (b : Buffer) (len : ℕ)
    → IsValid b
    → len ≤ (length b.buffer - b.write_index) + b.read_index
    → HasRoom b len (compacted b)
compacted-HasRoom b len v h = record {
  valid = record {
    ordered = omega arith;
    within = omega (arith, size);
    bounded = omega (arith, size);
  };
  kept =
      take-append_length (b.write_index - b.read_index - 0) (contents b) _
        (omega (arith, length-contents b v));
  room = omega (arith, size, v.ordered, v.within);
  fits = omega arith;
}
  where
    size : length (compacted b).buffer ≡ length b.buffer
    size = omega (
      arith,
      length-append (contents b) (drop (0 + length (contents b)) b.buffer),
      length-drop (0 + length (contents b)) b.buffer,
      length-contents b v,
      v.ordered,
      v.within,
    )

abbrev grown : Buffer → ℕ → Buffer
grown b len = record b {
  buffer =
      take (b.write_index + len) b.buffer ++ replicate (b.write_index + len - length b.buffer) 0;
}

grow_lem : (b : Buffer) (len : ℕ) → b.write_index + len ≤ max_size → grow b len ≡ some (grown b len)
unfolding grow
grow_lem b len h =
    rw (add64_lem b.write_index len (omega arith), le→leb (b.write_index + len) max_size h)

grown-HasRoom :
    (b : Buffer) (len : ℕ)
    → IsValid b
    → length b.buffer < b.write_index + len
    → b.write_index + len ≤ max_size
    → HasRoom b len (grown b len)
grown-HasRoom b len v h k = record {
  valid = record {
    ordered = v.ordered;
    within = omega (arith, size);
    bounded = omega (arith, size);
  };
  kept = rw (take_all (b.write_index + len) b.buffer (omega arith)) (
      rw (drop-append_le b.read_index b.buffer zeros (omega (arith, v.ordered, v.within))) (
        take-append_le (b.write_index - b.read_index) (drop b.read_index b.buffer) zeros
          (omega (arith, length-drop b.read_index b.buffer, v.within))));
  room = omega (arith, size);
  fits = omega arith;
}
  where
    zeros : Bytes
    zeros = replicate (b.write_index + len - length b.buffer) 0

    size : length (grown b len).buffer ≡ b.write_index + len
    size = omega (
      arith,
      length-append (take (b.write_index + len) b.buffer) zeros,
      length-take (b.write_index + len) b.buffer,
      length-replicate {A = ℕ} (b.write_index + len - length b.buffer) 0,
    )

-- `EnsureWriteSpaceSize` succeeds on a valid buffer that stays below `max_size()`: afterwards `len`
-- bytes are free behind the write position, and the readable bytes are the same.
pub ensure_write_space_size-HasRoom :
    (b : Buffer) (len : ℕ)
    → IsValid b
    → b.write_index + len ≤ max_size
    → (b' : Buffer) × (ensure_write_space_size b len ≡ some b') × HasRoom b len b'
unfolding ensure_write_space_size get_head_idle_space_size
ensure_write_space_size-HasRoom b len v h =
    elim (Bool-cases (leb len (length b.buffer - b.write_index))) [
      | inl fits ↦ (
        b,
        rw (tail_size b v, fits),
        record {
          valid = v;
          kept = refl;
          room = omega (arith, leb→le _ _ fits, v.within);
          fits = omega arith;
        },
      )
      | inr full ↦ elim (Bool-cases (leb len (length b.buffer - b.write_index + b.read_index))) [
        | inl fits ↦ (
          compacted b,
          rw (tail_size b v, full, sum, fits) (compact_lem b v),
          compacted-HasRoom b len v (leb→le _ _ fits),
        )
        | inr full' ↦ (
          grown b len,
          rw (tail_size b v, full, sum, full') (grow_lem b len h),
          grown-HasRoom b len v (omega (arith, leb_false→lt _ _ full)) h,
        )
      ]
    ]
  where
    sum :
        add64 (length b.buffer - b.write_index) b.read_index
        ≡ length b.buffer - b.write_index + b.read_index
    sum = add64_lem _ _ (omega (arith, v.bounded, v.ordered, v.within))
