-- ===== src/Bytes/Hex.antt =====
-- Bytes as hexadecimal text: hex.EncodeToString and hex.DecodeString of the standard library.
use multiplayer.Prelude.{
  All, List, Option, [], arith, if◌then◌else◌, leb, ltb, none, refl, some, ℕ, ◌%◌, ◌&&◌, ◌*◌, ◌+◌,
  ◌-◌, ◌/◌, ◌<◌, ◌∷◌, ◌≡◌,
}
use multiplayer.Bytes.{IsByte}

unfoldable pub hex_digit : ℕ → ℕ
hex_digit n = if ltb n 10 then n + 48 else n + 87

unfoldable pub encode_to_string : List ℕ → List ℕ
unfolding hex_digit
encode_to_string [] = []
encode_to_string (b ∷ s) = hex_digit (b / 16) ∷ hex_digit (b % 16) ∷ encode_to_string s

-- The digits of either case; `none` is the error.
unfoldable pub from_hex_char : ℕ → Option ℕ
from_hex_char c =
    if leb 48 c && leb c 57
    then some (c - 48)
    else if leb 97 c && leb c 102
    then some (c - 87)
    else if leb 65 c && leb c 70
    then some (c - 55)
    else none

-- Two digits, and what follows.
unfoldable pub decode_pair : Option ℕ → Option ℕ → Option (List ℕ) → Option (List ℕ)
decode_pair (some high) (some low) (some rest) = some ((high * 16 + low) ∷ rest)
decode_pair (some high) (some low) none = none
decode_pair (some high) none rest = none
decode_pair none low rest = none

unfoldable pub decode_string : List ℕ → Option (List ℕ)
unfolding from_hex_char decode_pair
decode_string [] = some []
decode_string (c ∷ []) = none
decode_string (c ∷ d ∷ s) = decode_pair (from_hex_char c) (from_hex_char d) (decode_string s)

from_hex_char-hex_digit : (n : ℕ) → n < 16 → from_hex_char (hex_digit n) ≡ some n
unfolding from_hex_char hex_digit
from_hex_char-hex_digit n h = ground arith

-- What has been encoded decodes to itself.
pub decode_string-encode_to_string :
    (s : List ℕ) → All IsByte s → decode_string (encode_to_string s) ≡ some s
unfolding decode_string encode_to_string decode_pair
decode_string-encode_to_string [] h = refl
decode_string-encode_to_string (b ∷ s) (l, h) =
    let high = from_hex_char-hex_digit (b / 16) (omega (arith, l)) in
    let low = from_hex_char-hex_digit (b % 16) (omega arith) in
    let whole : (b / 16) * 16 + b % 16 ≡ b = omega arith in
    rw (high, low, decode_string-encode_to_string s h, whole) refl
