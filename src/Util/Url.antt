-- ===== src/Util/Url.antt =====
-- Uitl::UrlEnCode, CONV and UrlDecode of Http/Http.hpp. `char` is the value of the byte; an `int`
-- is kept modulo 2^32, so -1 is 2^32 - 1.
pub mod Laws
mod Tests
use high_concurrency_server.Common.{
  ℕ, ◌+◌, ◌-◌, ◌*◌, ◌/◌, ◌%◌, ◌^◌, Bool, ◌&&◌, ◌||◌, [], ◌∷◌, ◌++◌, Bytes, ltb, leb, ◌==◌,
  if◌then◌else◌,
}

-- A test for a range of bytes.
abbrev pub between : ℕ → ℕ → ℕ → Bool
between lo hi c = leb lo c && leb c hi

-- `isalnum` of the C locale
abbrev pub is_alnum : ℕ → Bool
is_alnum c = between b'0' b'9' c || (between b'a' b'z' c || between b'A' b'Z' c)

-- The bytes that are never encoded.
abbrev pub is_plain : ℕ → Bool
is_plain e = (e == b'-') || ((e == b'_') || ((e == b'~') || ((e == b'.') || is_alnum e)))

-- A digit of `%X`
abbrev pub hex_digit : ℕ → ℕ
hex_digit n = if ltb n 10 then b'0' + n else b'A' + (n - 10)

-- What one round of the loop appends.
unfoldable pub encode_char : ℕ → Bool → Bytes
encode_char e is_space_to_plus =
    if is_plain e
    then e ∷ []
    else if is_space_to_plus && (e == b' ')
    then b'+' ∷ []
    else b'%' ∷ hex_digit (e / 16) ∷ hex_digit (e % 16) ∷ []

unfoldable pub url_en_code : Bytes → Bool → Bytes
unfolding encode_char
url_en_code [] is_space_to_plus = []
url_en_code (e ∷ src) is_space_to_plus =
    encode_char e is_space_to_plus ++ url_en_code src is_space_to_plus

unfoldable pub conv : ℕ → ℕ
conv a =
    if between b'0' b'9' a
    then a - b'0'
    else if between b'a' b'z' a
    then a - b'a' + 10
    else if between b'A' b'Z' a
    then a - b'A' + 10
    else 2 ^ 32 - 1

-- `(first << 4) + second`, cut to a `char` by `ret += tmp`.
unfoldable pub decode_pair : ℕ → ℕ → ℕ
unfolding conv
decode_pair a b = (conv a * 16 + conv b) % 2 ^ 32 % 256

-- `i + 2 >= src.size()` holds when fewer than two bytes follow.
unfoldable pub url_decode : Bytes → Bool → Bytes
unfolding decode_pair
url_decode [] is_space_to_plus = []
url_decode (c ∷ []) is_space_to_plus =
    if (c == b'+') && is_space_to_plus then b' ' ∷ [] else if c == b'%' then [] else c ∷ []
url_decode (c ∷ a ∷ []) is_space_to_plus =
    let rest = url_decode (a ∷ []) is_space_to_plus in
    if (c == b'+') && is_space_to_plus then b' ' ∷ rest else if c == b'%' then [] else c ∷ rest
url_decode (c ∷ a ∷ b ∷ src) is_space_to_plus =
    let rest = url_decode (a ∷ b ∷ src) is_space_to_plus in
    let behind = url_decode src is_space_to_plus in
    if (c == b'+') && is_space_to_plus
    then b' ' ∷ rest
    else if c == b'%'
    then decode_pair a b ∷ behind
    else c ∷ rest
