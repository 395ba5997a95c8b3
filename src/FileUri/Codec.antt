-- ===== src/FileUri/Codec.antt =====
-- UTF-8 and URL-safe base64, as `str.encode`, `bytes.decode` and the base64 module have them.
use ferumind.Common.{
  ℕ, ◌+◌, ◌-◌, ◌*◌, ◌/◌, ◌%◌, ◌<◌, ◌≡◌, refl, ap, ap₂, Bool, ◌&&◌, ◌||◌, Option, none, some, List,
  [], ◌∷◌, ◌++◌, arith, ltb, leb, ◌==◌, if◌then◌else◌,
}
use ferumind.Text.{Text}

-- The bytes of a character.
abbrev pub utf8_bytes : ℕ → List ℕ
utf8_bytes c =
    if ltb c 128
    then c ∷ []
    else if ltb c 2048
    then (192 + c / 64) ∷ (128 + c % 64) ∷ []
    else if ltb c 65536
    then (224 + c / 4096) ∷ (128 + c / 64 % 64) ∷ (128 + c % 64) ∷ []
    else (240 + c / 262144) ∷ (128 + c / 4096 % 64) ∷ (128 + c / 64 % 64) ∷ (128 + c % 64) ∷ []

-- path.encode("utf-8")
unfoldable pub encode_utf8 : Text → List ℕ
encode_utf8 [] = []
encode_utf8 (c ∷ cs) = utf8_bytes c ++ encode_utf8 cs

-- Between two characters, or `count` bytes before the end of one: its value so far, and the range
-- of the next byte.
pub data Decoder : Type 0 where
  idle : Decoder
  inside : (count value lowest highest : ℕ) → Decoder

-- The first byte of a character that has more than one.
abbrev pub lead : ℕ → Option Decoder
lead b =
    if leb 194 b && leb b 223
    then some (inside 1 (b - 192) 128 191)
    else if b == 224
    then some (inside 2 0 160 191)
    else if b == 237
    then some (inside 2 13 128 159)
    else if leb 225 b && leb b 239
    then some (inside 2 (b - 224) 128 191)
    else if b == 240
    then some (inside 3 0 144 191)
    else if leb 241 b && leb b 243
    then some (inside 3 (b - 240) 128 191)
    else if b == 244
    then some (inside 3 4 128 143)
    else none

-- One character in front of the later ones.
abbrev pub emit : ℕ → Option Text → Option Text
emit c none = none
emit c (some cs) = some (c ∷ cs)

unfoldable pub decode_from : Decoder → List ℕ → Option Text
decode_from idle [] = some []
decode_from (inside n v lo hi) [] = none
decode_from idle (b ∷ bs) =
    let plain = decode_from idle bs in
    if ltb b 128
    then emit b plain
    else elim (lead b) [ none ↦ none | some state ↦ decode_from state bs ]
decode_from (inside n v lo hi) (b ∷ bs) =
    let last = decode_from idle bs in
    let more = decode_from (inside (n - 1) (v * 64 + (b - 128)) 128 191) bs in
    if leb lo b && leb b hi
    then (if leb n 1 then emit (v * 64 + (b - 128)) last else more)
    else none

-- raw.decode("utf-8"), with `none` for a `UnicodeDecodeError`
unfoldable pub decode_utf8 : List ℕ → Option Text
unfolding decode_from
decode_utf8 bytes = decode_from idle bytes

-- The character of six bits.
abbrev pub sextet_char : ℕ → ℕ
sextet_char n =
    if ltb n 26
    then 65 + n
    else if ltb n 52
    then 71 + n
    else if ltb n 62
    then n - 4
    else if n == 62
    then b'-'
    else b'_'

-- The six bits of a character of the alphabet.
abbrev pub char_sextet : ℕ → ℕ
char_sextet c =
    if c == b'-'
    then 62
    else if c == b'_'
    then 63
    else if leb c b'9'
    then c + 4
    else if leb c b'Z'
    then c - 65
    else c - 71

-- [A-Za-z0-9_-]
unfoldable pub is_base64_char : ℕ → Bool
is_base64_char c =
    (leb b'A' c && leb c b'Z')
    || ((leb b'a' c && leb c b'z') || ((leb b'0' c && leb c b'9') || (c == b'_' || c == b'-')))

-- base64.urlsafe_b64encode(raw).rstrip("=")
unfoldable pub encode_base64 : List ℕ → Text
encode_base64 [] = []
encode_base64 (a ∷ []) = sextet_char (a / 4) ∷ sextet_char (a % 4 * 16) ∷ []
encode_base64 (a ∷ b ∷ []) =
    sextet_char (a / 4) ∷ sextet_char (a % 4 * 16 + b / 16) ∷ sextet_char (b % 16 * 4) ∷ []
encode_base64 (a ∷ b ∷ c ∷ rest) =
    sextet_char (a / 4)
    ∷ sextet_char (a % 4 * 16 + b / 16)
    ∷ sextet_char (b % 16 * 4 + c / 64)
    ∷ sextet_char (c % 64)
    ∷ encode_base64 rest

-- The three bytes of four sextets.
abbrev pub first_byte : ℕ → ℕ → ℕ
first_byte p q = p * 4 + q / 16

abbrev pub second_byte : ℕ → ℕ → ℕ
second_byte q r = q % 16 * 16 + r / 4

abbrev pub third_byte : ℕ → ℕ → ℕ
third_byte r s = r % 4 * 64 + s

-- base64.urlsafe_b64decode of characters of the alphabet with their padding: a single character in
-- the last group is a `binascii.Error`, and the bits behind the last byte are dropped.
unfoldable pub decode_base64 : Text → Option (List ℕ)
decode_base64 [] = some []
decode_base64 (p ∷ []) = none
decode_base64 (p ∷ q ∷ []) = some (first_byte (char_sextet p) (char_sextet q) ∷ [])
decode_base64 (p ∷ q ∷ r ∷ []) =
    some (
      first_byte (char_sextet p) (char_sextet q) ∷ second_byte (char_sextet q) (char_sextet r) ∷ [])
decode_base64 (p ∷ q ∷ r ∷ s ∷ rest) = elim (decode_base64 rest) [
  | none ↦ none
  | some bytes ↦ some (
      first_byte (char_sextet p) (char_sextet q)
      ∷ second_byte (char_sextet q) (char_sextet r)
      ∷ third_byte (char_sextet r) (char_sextet s)
      ∷ bytes)
]

-- All bytes.
abbrev pub AreBytes : List ℕ → Type 0
AreBytes [] = Unit
AreBytes (b ∷ bs) = (b < 256) × AreBytes bs

char_sextet-sextet_char : (n : ℕ) → n < 64 → char_sextet (sextet_char n) ≡ n
char_sextet-sextet_char n h = ground arith

-- The bytes that two sextets share.
first_byte_back : (a b : ℕ) → a < 256 → b < 256 → first_byte (a / 4) (a % 4 * 16 + b / 16) ≡ a
first_byte_back a b h k = omega arith

second_byte_back :
    (a b c : ℕ) → b < 256 → c < 256 → second_byte (a % 4 * 16 + b / 16) (b % 16 * 4 + c / 64) ≡ b
second_byte_back a b c h k = omega arith

third_byte_back : (b c : ℕ) → c < 256 → third_byte (b % 16 * 4 + c / 64) (c % 64) ≡ c
third_byte_back b c h = omega arith

-- Base64 takes back what it writes.
pub decode_base64-encode_base64 :
    (bytes : List ℕ) → AreBytes bytes → decode_base64 (encode_base64 bytes) ≡ some bytes
unfolding decode_base64 encode_base64
decode_base64-encode_base64 [] h = refl
decode_base64-encode_base64 (a ∷ []) (x, h) =
    let p = char_sextet-sextet_char (a / 4) (omega arith) in
    let q = char_sextet-sextet_char (a % 4 * 16) (omega arith) in
    let f : first_byte (a / 4) (a % 4 * 16) ≡ a = omega arith in
    rw (p, q) (ap (λ k. some (k ∷ [])) f)
decode_base64-encode_base64 (a ∷ b ∷ []) (x, (y, h)) =
    let p = char_sextet-sextet_char (a / 4) (omega arith) in
    let q = char_sextet-sextet_char (a % 4 * 16 + b / 16) (omega arith) in
    let r = char_sextet-sextet_char (b % 16 * 4) (omega arith) in
    let f = first_byte_back a b x y in
    let g : second_byte (a % 4 * 16 + b / 16) (b % 16 * 4) ≡ b = omega arith in
    rw (p, q, r) (ap₂ (λ k l. some (k ∷ l ∷ [])) f g)
decode_base64-encode_base64 (a ∷ b ∷ c ∷ rest) (x, (y, (z, h))) =
    let p = char_sextet-sextet_char (a / 4) (omega arith) in
    let q = char_sextet-sextet_char (a % 4 * 16 + b / 16) (omega arith) in
    let r = char_sextet-sextet_char (b % 16 * 4 + c / 64) (omega arith) in
    let t = char_sextet-sextet_char (c % 64) (omega arith) in
    let f = first_byte_back a b x y in
    let g = second_byte_back a b c y z in
    let i = third_byte_back b c z in
    rw (decode_base64-encode_base64 rest h, p, q, r, t)
      (ap₂ (λ k l. some (k ∷ l)) f (ap₂ (λ k l. k ∷ l ∷ rest) g i))
