-- ===== src/Buffer/Inv.antt =====
-- The representation invariant of `Buffer`, and what its size queries return under it.
use high_concurrency_server.Common.{
  ◌-◌, ◌≤◌, ◌≡◌, Bytes, length, take, drop, arith, sub64_lem, length-take, length-drop,
}
use high_concurrency_server.Buffer.{
  Buffer, max_size, get_tail_idle_space_size, current_enable_read_space_size, init,
}

pub record IsValid (b : Buffer) : Type 0 where
  pub ordered : b.read_index ≤ b.write_index
  pub within : b.write_index ≤ length b.buffer
  pub bounded : length b.buffer ≤ max_size

-- The readable bytes.
abbrev pub contents : Buffer → Bytes
contents b = take (b.write_index - b.read_index) (drop b.read_index b.buffer)

pub tail_size :
    (b : Buffer) → IsValid b → get_tail_idle_space_size b ≡ length b.buffer - b.write_index
unfolding get_tail_idle_space_size
tail_size b v = sub64_lem (length b.buffer) b.write_index v.within (omega arith)

pub read_size :
    (b : Buffer) → IsValid b → current_enable_read_space_size b ≡ b.write_index - b.read_index
unfolding current_enable_read_space_size
read_size b v = sub64_lem b.write_index b.read_index v.ordered (omega arith)

pub length-contents : (b : Buffer) → IsValid b → length (contents b) ≡ b.write_index - b.read_index
length-contents b v = omega (
  arith,
  length-take (b.write_index - b.read_index) (drop b.read_index b.buffer),
  length-drop b.read_index b.buffer,
)

pub init-IsValid : IsValid init
unfolding init
init-IsValid = omega arith
