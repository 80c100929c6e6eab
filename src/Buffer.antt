-- ===== src/Buffer.antt =====
-- Buffer_Module::Buffer of Sever_final/Sever.hpp: a growing byte vector with a read and a write
-- index. `none` is a failed `assert`, an access outside the vector, or a `resize` past
-- `max_size()`; `std::copy` and `memchr` are written out over lists. A pointer into the vector is
-- its index, and a source `(data, len)` is the list of its `len` bytes.
pub mod Inv
pub mod Room
pub mod Write
pub mod Read
pub mod Line
pub mod Queue
mod Tests
use high_concurrency_server.Common.{
  ℕ, zero, ◌+◌, ◌-◌, ◌^◌, suc, Option, none, some, List, [], ◌∷◌, ◌++◌, Bytes, length, take, drop,
  replicate, ltb, leb, ◌==◌, if◌then◌else◌, ◌>>=◌, ◌>>◌, assert, add64, sub64,
}

-- BUFFERSIZE
abbrev pub buffer_size : ℕ
buffer_size = 1024

-- `std::vector<char>::max_size()`
abbrev pub max_size : ℕ
max_size = 2 ^ 63 - 1

-- '\n'
abbrev pub lf : ℕ
lf = 10

pub record Buffer : Type 0 where
  pub buffer : Bytes
  pub read_index : ℕ
  pub write_index : ℕ

-- `std::copy(first, first + len, …)`: the bytes read, if they lie inside the vector.
abbrev pub copy_from : Bytes → ℕ → ℕ → Option Bytes
copy_from v first len =
    if leb (first + len) (length v) then some (take len (drop first v)) else none

-- `std::copy(…, dest)`: the vector with `d` written from `dest` on, if it lies inside.
abbrev pub copy_to : Bytes → ℕ → Bytes → Option Bytes
copy_to v dest d =
    if leb (dest + length d) (length v)
    then some (take dest v ++ (d ++ drop (dest + length d) v))
    else none

-- `std::vector::resize`: new bytes are 0; it throws past `max_size()`.
abbrev pub resize : Bytes → ℕ → Option Bytes
resize v n = if leb n max_size then some (take n v ++ replicate (n - length v) 0) else none

-- `memchr`: the offset of the first `c`.
unfoldable pub memchr : Bytes → ℕ → Option ℕ
memchr [] c = none
memchr (x ∷ xs) c = if x == c then some 0 else (memchr xs c >>= λ n. some (suc n))

unfoldable pub init : Buffer
init = record { buffer = replicate buffer_size 0; read_index = 0; write_index = 0 }

unfoldable pub get_tail_idle_space_size : Buffer → ℕ
get_tail_idle_space_size b = sub64 (length b.buffer) b.write_index

unfoldable pub get_head_idle_space_size : Buffer → ℕ
get_head_idle_space_size b = b.read_index

unfoldable pub current_enable_read_space_size : Buffer → ℕ
current_enable_read_space_size b = sub64 b.write_index b.read_index

unfoldable pub move_write_position : Buffer → ℕ → Option Buffer
move_write_position b len = do
  assert (leb len (get_tail_idle_space_size b))
  some (record b { write_index = add64 b.write_index len })

unfoldable pub move_read_position : Buffer → ℕ → Option Buffer
move_read_position b len = do
  assert (leb len (current_enable_read_space_size b))
  some (record b { read_index = add64 b.read_index len })

-- The branch that moves the readable bytes to the front.
unfoldable pub compact : Buffer → Option Buffer
compact b = do
  let n = current_enable_read_space_size b
  kept ← copy_from b.buffer b.read_index n
  v ← copy_to b.buffer 0 kept
  some (record { buffer = v; read_index = 0; write_index = n })

-- The branch that grows the vector.
unfoldable pub grow : Buffer → ℕ → Option Buffer
grow b len = do v ← resize b.buffer (add64 b.write_index len); some (record b { buffer = v })

unfoldable pub ensure_write_space_size : Buffer → ℕ → Option Buffer
ensure_write_space_size b len =
    if leb len (get_tail_idle_space_size b)
    then some b
    else if leb len (add64 (get_tail_idle_space_size b) (get_head_idle_space_size b))
    then compact b
    else grow b len

unfoldable pub write : Buffer → Bytes → Option Buffer
write b d = if length d == 0 then some b else (do
  b' ← ensure_write_space_size b (length d)
  v ← copy_to b'.buffer b'.write_index d
  some (record b' { buffer = v }))

unfoldable pub read : Buffer → ℕ → Option Bytes
read b len = do
  assert (leb len (current_enable_read_space_size b))
  copy_from b.buffer b.read_index len

unfoldable pub write_as_string : Buffer → Bytes → Option Buffer
write_as_string b s = write b s

-- The argument is another buffer, as it is at every call.
unfoldable pub write_as_buffer : Buffer → Buffer → Option Buffer
write_as_buffer b other = do
  d ← copy_from other.buffer other.read_index (current_enable_read_space_size other)
  write b d

unfoldable pub read_as_string : Buffer → ℕ → Option Bytes
read_as_string b len = do assert (leb len (current_enable_read_space_size b)); read b len

-- `GetCRLF`: the offset of the line feed from the read position; `some none` is `nullptr`.
unfoldable pub get_crlf : Buffer → Option (Option ℕ)
get_crlf b = do
  d ← copy_from b.buffer b.read_index (current_enable_read_space_size b)
  some (memchr d lf)

-- `ReadAsString(LF - GetCurrentReadPosition() + 1)`, or the empty string.
unfoldable pub line_upto : Buffer → Option ℕ → Option Bytes
line_upto b none = some []
line_upto b (some n) = read_as_string b (add64 n 1)

unfoldable pub get_line : Buffer → Option Bytes
get_line b = do at ← get_crlf b; line_upto b at

unfoldable pub get_line_and_add : Buffer → Option (Bytes × Buffer)
get_line_and_add b = do ret ← get_line b; b' ← move_read_position b (length ret); some (ret, b')

unfoldable pub write_as_buffer_and_add : Buffer → Buffer → Option Buffer
write_as_buffer_and_add b other = do
  b' ← write_as_buffer b other
  move_write_position b' (current_enable_read_space_size other)

unfoldable pub read_and_pop : Buffer → ℕ → Option (Bytes × Buffer)
read_and_pop b len = do
  assert (leb len (current_enable_read_space_size b))
  d ← read b len
  b' ← move_read_position b len
  some (d, b')

unfoldable pub write_and_add : Buffer → Bytes → Option Buffer
write_and_add b d = do b' ← write b d; move_write_position b' (length d)

unfoldable pub wt_string_and_add : Buffer → Bytes → Option Buffer
wt_string_and_add b s = do b' ← write_as_string b s; move_write_position b' (length s)

unfoldable pub rd_string_and_pop : Buffer → ℕ → Option (Bytes × Buffer)
rd_string_and_pop b len = do
  assert (leb len (current_enable_read_space_size b))
  ret ← read_as_string b len
  b' ← move_read_position b len
  some (ret, b')

unfoldable pub clear : Buffer → Buffer
clear b = record b { read_index = 0; write_index = 0 }
