-- ===== src/TcpClient/Encoding.antt =====
-- encode_utf8 of src/clients/tcp_client.c, and the bytes that it writes into a buffer of
-- `length * 2 + 1`. A `char` is signed, so a byte of 128 or more is negative before its shift.
use shelter_server.Prelude.{
  ℕ, ◌+◌, ◌*◌, ◌-◌, ◌/◌, ◌%◌, ◌^◌, ◌≤◌, ◌<◌, ◌≡◌, ◌↔◌, refl, ap, Bytes, [], ◌∷◌, ◌++◌,
  if◌then◌else◌, ltb, leb, ◌&&◌, ◌||◌, length, length-append, arith,
}

-- `(input[i] >> n) & (2 ^ m - 1)` of a negative char, extended to 32 bits.
unfoldable pub shifted : ℕ → ℕ → ℕ → ℕ
shifted b n m = ((2 ^ 32 - 256 + b) / 2 ^ n) % 2 ^ m

-- What one byte of the input writes.
unfoldable pub encode_byte : ℕ → Bytes
unfolding shifted
encode_byte b =
    if ltb b 0x80
    then b ∷ []
    else if leb 0xc0 b && ltb b 0xe0
    then (0xc0 + shifted b 6 5) ∷ (0x80 + b % 2 ^ 6) ∷ []
    else if leb 0xe0 b && ltb b 0xf0
    then (0xe0 + shifted b 12 4) ∷ (0x80 + b % 2 ^ 6) ∷ (0x80 + b % 2 ^ 6) ∷ []
    else []

unfoldable pub encode_utf8 : Bytes → Bytes
unfolding encode_byte
encode_utf8 [] = []
encode_utf8 (b ∷ input) = encode_byte b ++ encode_utf8 input

-- The size that malloc is asked for.
unfoldable pub allocated : Bytes → ℕ
allocated input = length input * 2 + 1

-- All bytes are below 0x80.
abbrev pub IsAscii : Bytes → Type 0
IsAscii [] = Unit
IsAscii (b ∷ s) = (b < 0x80) × IsAscii s

-- The bytes from 0xe0 to 0xef, those below 0x80, and those that are dropped.
abbrev pub triples : Bytes → ℕ
triples [] = 0
triples (b ∷ s) = (if leb 0xe0 b && ltb b 0xf0 then 1 else 0) + triples s

abbrev pub singles : Bytes → ℕ
singles [] = 0
singles (b ∷ s) = (if ltb b 0x80 then 1 else 0) + singles s

abbrev pub dropped : Bytes → ℕ
dropped [] = 0
dropped (b ∷ s) = (if (leb 0x80 b && ltb b 0xc0) || leb 0xf0 b then 1 else 0) + dropped s

ascii_byte : (b : ℕ) → b < 0x80 → encode_byte b ≡ b ∷ []
unfolding encode_byte
ascii_byte b h = ground arith

-- A text of ASCII bytes is its own encoding.
pub encode_utf8_ascii : (input : Bytes) → IsAscii input → encode_utf8 input ≡ input
unfolding encode_utf8
encode_utf8_ascii [] h = refl
encode_utf8_ascii (b ∷ s) h = rw (ascii_byte b h.0) (ap (◌∷◌ b) (encode_utf8_ascii s h.1))

byte_count :
    (b : ℕ)
    → length (encode_byte b)
        + (if ltb b 0x80 then 1 else 0)
        + 2 * (if (leb 0x80 b && ltb b 0xc0) || leb 0xf0 b then 1 else 0)
      ≡ 2 + (if leb 0xe0 b && ltb b 0xf0 then 1 else 0)
unfolding encode_byte
byte_count b = ground arith

count :
    (input : Bytes)
    → length (encode_utf8 input) + singles input + 2 * dropped input
      ≡ 2 * length input + triples input
unfolding encode_utf8
count [] = refl
count (b ∷ s) = omega (arith, byte_count b, count s, length-append (encode_byte b) (encode_utf8 s))

-- The encoding and its terminating zero fit the buffer exactly when the bytes from 0xe0 to 0xef,
-- which are written as three, are not more than those below 0x80 and twice the dropped ones.
pub encode_utf8_fits :
    (input : Bytes)
    → (length (encode_utf8 input) + 1 ≤ allocated input)
      ↔ (triples input ≤ singles input + 2 * dropped input)
unfolding allocated
encode_utf8_fits input = (λ h. omega (arith, count input), λ h. omega (arith, count input))
