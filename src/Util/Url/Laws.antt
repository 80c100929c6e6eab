-- ===== src/Util/Url/Laws.antt =====
-- Decoding undoes encoding, and what encoding writes is safe in a URL.
use high_concurrency_server.Common.{
  ℕ, ◌/◌, ◌%◌, ◌<◌, ◌≡◌, ◌≢◌, refl, ap, ◌∙◌, Bool, true, false, ◌&&◌, ◌||◌, [], ◌∷◌, ◌++◌, Bytes,
  ◌==◌, arith, Bool-cases, inl, inr, All, All-append,
}
use high_concurrency_server.Util.Url.{
  is_plain, hex_digit, encode_char, url_en_code, conv, decode_pair, url_decode,
}

-- A `char` as its value.
abbrev pub IsByte : ℕ → Type 0
IsByte c = c < 256

conv-hex_digit : (n : ℕ) → n < 16 → conv (hex_digit n) ≡ n
unfolding conv
conv-hex_digit n h = ground arith

decode_pair_lem : (e : ℕ) → e < 256 → decode_pair (hex_digit (e / 16)) (hex_digit (e % 16)) ≡ e
unfolding decode_pair
decode_pair_lem e h =
    rw (conv-hex_digit (e / 16) (omega arith), conv-hex_digit (e % 16) (omega arith)) (omega arith)

-- A byte that is neither `%` nor a `+` to be turned into a space is copied.
copied :
    (c : ℕ) (rest : Bytes) (b : Bool)
    → c ≢ b'%'
    → (c == b'+') && b ≡ false
    → url_decode (c ∷ rest) b ≡ c ∷ url_decode rest b
unfolding url_decode
copied c [] b h k = ground arith
copied c (x ∷ []) b h k = ground arith
copied c (x ∷ y ∷ rest) b h k = ground arith

spaced : (rest : Bytes) → url_decode (b'+' ∷ rest) true ≡ b' ' ∷ url_decode rest true
unfolding url_decode
spaced [] = refl
spaced (x ∷ []) = refl
spaced (x ∷ y ∷ rest) = refl

escaped :
    (h l : ℕ) (rest : Bytes) (b : Bool)
    → url_decode (b'%' ∷ h ∷ l ∷ rest) b ≡ decode_pair h l ∷ url_decode rest b
unfolding url_decode
escaped h l rest b = refl

plain_not_special : (e : ℕ) → is_plain e ≡ true → (e ≢ b'%') × (e ≢ b'+')
plain_not_special e h = ground arith

space_case : (e : ℕ) (b : Bool) → b && (e == b' ') ≡ true → (b ≡ true) × (e ≡ b' ')
space_case e b h = ground arith

decode-encode_char :
    (e : ℕ) (rest : Bytes) (b : Bool)
    → e < 256
    → url_decode (encode_char e b ++ rest) b ≡ e ∷ url_decode rest b
unfolding encode_char
decode-encode_char e rest b h = elim (Bool-cases (is_plain e)) [
  | inl plain ↦
      rw plain
        (copied e rest b (plain_not_special e plain).0 (ground (arith, plain_not_special e plain)))
  | inr special ↦ elim (Bool-cases (b && (e == b' '))) [
    | inl space ↦
        let (on, same) = space_case e b space in rw (special, space, on, same) (spaced rest)
    | inr other ↦ rw (
      special,
      other,
      escaped (hex_digit (e / 16)) (hex_digit (e % 16)) rest b,
      decode_pair_lem e h,
    )
  ]
]

-- `UrlDecode` gives back every byte string that `UrlEnCode` encoded, when both treat spaces the
-- same way.
pub url_decode-url_en_code :
    (src : Bytes) (b : Bool) → All IsByte src → url_decode (url_en_code src b) b ≡ src
unfolding url_en_code
url_decode-url_en_code [] b h = unfold url_decode in refl
url_decode-url_en_code (e ∷ src) b h =
    decode-encode_char e (url_en_code src b) b h.0
    ∙ ap (λ r. e ∷ r) (url_decode-url_en_code src b h.1)

-- A byte that may stand in a URL component.
abbrev pub IsUrlSafe : ℕ → Type 0
IsUrlSafe c = (is_plain c || ((c == b'%') || (c == b'+'))) ≡ true

hex_digit-safe : (n : ℕ) → n < 16 → IsUrlSafe (hex_digit n)
hex_digit-safe n h = ground arith

encode_char-safe : (e : ℕ) (b : Bool) → e < 256 → All IsUrlSafe (encode_char e b)
unfolding encode_char
encode_char-safe e b h = elim (Bool-cases (is_plain e)) [
  | inl plain ↦ rw plain (ground arith, tt)
  | inr special ↦ elim (Bool-cases (b && (e == b' '))) [
    | inl space ↦ rw (special, space) (refl, tt)
    | inr other ↦
        rw (special, other)
          (
            refl,
            (hex_digit-safe (e / 16) (omega arith), (hex_digit-safe (e % 16) (omega arith), tt)),
          )
  ]
]

-- `UrlEnCode` writes letters, digits, `-`, `_`, `~`, `.`, `%` and `+` only.
pub url_en_code-IsUrlSafe :
    (src : Bytes) (b : Bool) → All IsByte src → All IsUrlSafe (url_en_code src b)
unfolding url_en_code
url_en_code-IsUrlSafe [] b h = tt
url_en_code-IsUrlSafe (e ∷ src) b h =
    All-append IsUrlSafe (encode_char e b) (url_en_code src b) (encode_char-safe e b h.0)
      (url_en_code-IsUrlSafe src b h.1)
