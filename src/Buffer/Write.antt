-- ===== src/Buffer/Write.antt =====
-- The writing operations of Buffer: each appends its bytes to the contents.
use high_concurrency_server.Common.{
  ◌+◌, ◌-◌, ◌≤◌, ◌≡◌, ◌≢◌, add-zero, ◌∙◌, sym, ap, refl, some, [], ◌∷◌, ◌++◌, Bytes, length, take,
  drop, arith, add64_lem, length-take, length-append, length-drop, take-append_length,
  drop-append_le, drop-take, append_assoc, append-nil, le→leb,
}
use high_concurrency_server.Buffer.{
  Buffer, max_size, copy_from, current_enable_read_space_size, ensure_write_space_size, write,
  write_and_add, move_write_position, write_as_string, wt_string_and_add, write_as_buffer,
  write_as_buffer_and_add,
}
use high_concurrency_server.Buffer.Inv.{IsValid, contents, tail_size, read_size, length-contents}
use high_concurrency_server.Buffer.Room.{ensure_write_space_size-HasRoom}

-- A valid buffer whose contents are those of `b` with `d` behind them.
pub record Appends (b : Buffer) (d : Bytes) (b' : Buffer) : Type 0 where
  pub valid : IsValid b'
  pub appended : contents b' ≡ contents b ++ d
  pub fits : b'.write_index ≤ b.write_index + length d

-- The vector after `std::copy` at the write position.
abbrev filled : Buffer → Bytes → Bytes
filled b d = take b.write_index b.buffer ++ (d ++ drop (b.write_index + length d) b.buffer)

length-filled :
    (b : Buffer) (d : Bytes)
    → b.write_index + length d ≤ length b.buffer
    → length (filled b d) ≡ length b.buffer
length-filled b d h = omega (
  arith,
  length-append (take b.write_index b.buffer) (d ++ drop (b.write_index + length d) b.buffer),
  length-append d (drop (b.write_index + length d) b.buffer),
  length-take b.write_index b.buffer,
  length-drop (b.write_index + length d) b.buffer,
)

contents-filled :
    (b : Buffer) (d : Bytes)
    → IsValid b
    → b.write_index + length d ≤ length b.buffer
    → take (b.write_index + length d - b.read_index) (drop b.read_index (filled b d))
      ≡ contents b ++ d
contents-filled b d v h =
    rw
      (
        drop-append_le b.read_index (take b.write_index b.buffer) rest
            (omega (arith, length-take b.write_index b.buffer, v.ordered, v.within)),
        drop-take b.read_index b.write_index b.buffer v.ordered,
        ← append_assoc (contents b) d (drop (b.write_index + length d) b.buffer),
      )
      (take-append_length (b.write_index + length d - b.read_index) (contents b ++ d) _
        (omega (arith, length-append (contents b) d, length-contents b v, v.ordered)))
  where
    rest : Bytes
    rest = d ++ drop (b.write_index + length d) b.buffer

-- Writing into a buffer that has room.
module _ (b : Buffer) (d : Bytes) (v : IsValid b)
    (room : b.write_index + length d ≤ length b.buffer) where
  abbrev advanced : Buffer
  advanced = record b { buffer = filled b d; write_index = b.write_index + length d }

  advanced-IsValid : IsValid advanced
  advanced-IsValid = record {
    ordered = omega (arith, v.ordered);
    within = omega (arith, length-filled b d room);
    bounded = omega (arith, length-filled b d room, v.bounded);
  }

  move_filled : move_write_position (record b { buffer = filled b d }) (length d) ≡ some advanced
  unfolding move_write_position
  move_filled = rw (
    tail_size (record b { buffer = filled b d })
        (record {
          ordered = v.ordered;
          within = omega (arith, length-filled b d room);
          bounded = omega (arith, length-filled b d room, v.bounded);
        }),
    le→leb (length d) (length (filled b d) - b.write_index) (omega (arith, length-filled b d room)),
    add64_lem b.write_index (length d) (omega (arith, v.bounded)),
  )

write_room :
    (b b' : Buffer) (d : Bytes)
    → length d ≢ 0
    → ensure_write_space_size b (length d) ≡ some b'
    → b'.write_index + length d ≤ length b'.buffer
    → write b d ≡ some (record b' { buffer = filled b' d })
unfolding write
write_room b b' d ne e room =
    ground (arith, le→leb (b'.write_index + length d) (length b'.buffer) room)

move_zero : (b : Buffer) → IsValid b → move_write_position b 0 ≡ some b
unfolding move_write_position
move_zero b v = rw (
  tail_size b v,
  le→leb 0 (length b.buffer - b.write_index) (omega arith),
  add64_lem b.write_index 0 (omega (arith, v.within, v.bounded)),
  add-zero b.write_index,
)

pub write_and_add_nothing : (b : Buffer) → IsValid b → write_and_add b [] ≡ some b
unfolding write_and_add write
write_and_add_nothing b v = move_zero b v

-- `WriteAndAdd` on a valid buffer that stays below `max_size()` succeeds, keeps the buffer valid
-- and appends exactly the given bytes to its contents, whether the bytes fit behind the write
-- position, fit after the contents are moved to the front, or make the vector grow.
pub write_and_add-Appends :
    (b : Buffer) (d : Bytes)
    → IsValid b
    → b.write_index + length d ≤ max_size
    → (b' : Buffer) × (write_and_add b d ≡ some b') × Appends b d b'
unfolding write_and_add write
write_and_add-Appends b [] v h = (
  b,
  move_zero b v,
  record { valid = v; appended = sym (append-nil (contents b)); fits = omega arith },
)
write_and_add-Appends b (x ∷ d) v h =
    let (b', e, r) = ensure_write_space_size-HasRoom b (length (x ∷ d)) v h in
    (
      advanced b' (x ∷ d) r.valid r.room,
      rw (write_room b b' (x ∷ d) (omega arith) e r.room) (move_filled b' (x ∷ d) r.valid r.room),
      record {
        valid = advanced-IsValid b' (x ∷ d) r.valid r.room;
        appended = contents-filled b' (x ∷ d) r.valid r.room ∙ ap (λ c. c ++ x ∷ d) r.kept;
        fits = omega (arith, r.fits);
      },
    )

-- `WtStringAndAdd` is `WriteAndAdd` on the bytes of the string.
wt_string_and_add-write : (b : Buffer) (s : Bytes) → wt_string_and_add b s ≡ write_and_add b s
unfolding wt_string_and_add write_and_add write_as_string
wt_string_and_add-write b s = refl

pub wt_string_and_add-Appends :
    (b : Buffer) (s : Bytes)
    → IsValid b
    → b.write_index + length s ≤ max_size
    → (b' : Buffer) × (wt_string_and_add b s ≡ some b') × Appends b s b'
wt_string_and_add-Appends b s v h = rw (wt_string_and_add-write b s) (write_and_add-Appends b s v h)

-- The bytes that are copied out of the other buffer are its contents.
pub copied_contents :
    (o : Buffer)
    → IsValid o
    → copy_from o.buffer o.read_index (current_enable_read_space_size o) ≡ some (contents o)
copied_contents o v = rw (
  read_size o v,
  le→leb (o.read_index + (o.write_index - o.read_index)) (length o.buffer)
      (omega (arith, v.ordered, v.within)),
)

write_as_buffer_and_add-write :
    (b o : Buffer) → IsValid o → write_as_buffer_and_add b o ≡ write_and_add b (contents o)
unfolding write_as_buffer_and_add write_as_buffer write_and_add
write_as_buffer_and_add-write b o v = rw (copied_contents o v, read_size o v, length-contents o v)

-- `WriteAsBufferAndAdd` of a valid buffer appends that buffer's contents.
pub write_as_buffer_and_add-Appends :
    (b o : Buffer)
    → IsValid b
    → IsValid o
    → b.write_index + length (contents o) ≤ max_size
    → (b' : Buffer) × (write_as_buffer_and_add b o ≡ some b') × Appends b (contents o) b'
write_as_buffer_and_add-Appends b o v w h =
    rw (write_as_buffer_and_add-write b o w) (write_and_add-Appends b (contents o) v h)
