-- ===== src/FileUri/Utf8.antt =====
-- UTF-8 takes back what it writes.
use ferumind.Common.{
  ℕ, suc, ◌+◌, ◌-◌, ◌*◌, ◌/◌, ◌%◌, ◌≤◌, ◌<◌, ◌≡◌, refl, ◌∙◌, ◌⊎◌, inl, inr, true, false, ◌&&◌, some,
  List, [], ◌∷◌, ◌++◌, arith, ltb, leb, ◌==◌, Bool-cases, length,
}
use ferumind.Text.{Text}
use ferumind.Text.Chars.{utf8_length}
use ferumind.FileUri.Codec.{
  Decoder, utf8_bytes, encode_utf8, idle, inside, lead, emit, decode_from, decode_utf8, AreBytes,
}

-- A code point that is no surrogate.
abbrev pub IsScalar : ℕ → Type 0
IsScalar c = (c < 55296) ⊎ ((57343 < c) × (c < 1114112))

abbrev pub AreScalars : Text → Type 0
AreScalars [] = Unit
AreScalars (c ∷ cs) = IsScalar c × AreScalars cs

-- One step of the decoder: a first byte, a last one, and one between them.
decode_lead :
    (b : ℕ) (bs : List ℕ) (state : Decoder)
    → ltb b 128 ≡ false
    → lead b ≡ some state
    → decode_from idle (b ∷ bs) ≡ decode_from state bs
unfolding decode_from
decode_lead b bs state h e = rw (h, e) refl

decode_last :
    (v lo hi b c : ℕ) (bs : List ℕ)
    → lo ≤ b
    → b ≤ hi
    → v * 64 + (b - 128) ≡ c
    → decode_from (inside 1 v lo hi) (b ∷ bs) ≡ emit c (decode_from idle bs)
unfolding decode_from
decode_last v lo hi b c bs h k e =
    let a : (leb lo b && leb b hi) ≡ true = ground arith in rw (a, e) refl

decode_more :
    (n v lo hi b w : ℕ) (bs : List ℕ)
    → lo ≤ b
    → b ≤ hi
    → v * 64 + (b - 128) ≡ w
    → decode_from (inside (suc (suc n)) v lo hi) (b ∷ bs)
      ≡ decode_from (inside (suc n) w 128 191) bs
unfolding decode_from
decode_more n v lo hi b w bs h k e =
    let a : (leb lo b && leb b hi) ≡ true = ground arith in
    let z : leb (suc (suc n)) 1 ≡ false = ground arith in
    let m : suc (suc n) - 1 ≡ suc n = omega arith in rw (a, e, z, m) refl

-- The state behind the first byte of three, and of four.
lead_three :
    (c : ℕ)
    → IsScalar c
    → 2048 ≤ c
    → c < 65536
    → (lo : ℕ) × (hi : ℕ) × (lead (224 + c / 4096) ≡ some (inside 2 (c / 4096) lo hi))
      × (lo ≤ 128 + c / 64 % 64)
      × (128 + c / 64 % 64 ≤ hi)
lead_three c s h k = elim (Bool-cases (c / 4096 == 0)) [
  | inl e ↦ (160, 191, ground arith, ground arith, ground arith)
  | inr e ↦ elim (Bool-cases (c / 4096 == 13)) [
    | inl f ↦ (128, 159, ground arith, ground arith, ground arith)
    | inr f ↦ (128, 191, ground arith, omega arith, omega arith)
  ]
]

lead_four :
    (c : ℕ)
    → 65536 ≤ c
    → c < 1114112
    → (lo : ℕ) × (hi : ℕ) × (lead (240 + c / 262144) ≡ some (inside 3 (c / 262144) lo hi))
      × (lo ≤ 128 + c / 4096 % 64)
      × (128 + c / 4096 % 64 ≤ hi)
lead_four c h k = elim (Bool-cases (c / 262144 == 0)) [
  | inl e ↦ (144, 191, ground arith, ground arith, ground arith)
  | inr e ↦ elim (Bool-cases (c / 262144 == 4)) [
    | inl f ↦ (128, 143, ground arith, ground arith, ground arith)
    | inr f ↦ (128, 191, ground arith, ground arith, ground arith)
  ]
]

decode_two :
    (c : ℕ) (bs : List ℕ)
    → 128 ≤ c
    → c < 2048
    → decode_from idle ((192 + c / 64) ∷ (128 + c % 64) ∷ bs) ≡ emit c (decode_from idle bs)
decode_two c bs h k =
    decode_lead (192 + c / 64) _ (inside 1 (c / 64) 128 191) (ground arith) ground arith
    ∙ decode_last (c / 64) 128 191 (128 + c % 64) c bs (omega arith) (omega arith) (omega arith)

decode_three :
    (c : ℕ) (bs : List ℕ)
    → IsScalar c
    → 2048 ≤ c
    → c < 65536
    → decode_from idle ((224 + c / 4096) ∷ (128 + c / 64 % 64) ∷ (128 + c % 64) ∷ bs)
      ≡ emit c (decode_from idle bs)
decode_three c bs s h k =
    let (lo, hi, e, l, u) = lead_three c s h k in
    decode_lead (224 + c / 4096) _ (inside 2 (c / 4096) lo hi) (ground arith) e
    ∙ decode_more 0 (c / 4096) lo hi (128 + c / 64 % 64) (c / 64) _ l u (omega arith)
    ∙ decode_last (c / 64) 128 191 (128 + c % 64) c bs (omega arith) (omega arith) (omega arith)

decode_four :
    (c : ℕ) (bs : List ℕ)
    → 65536 ≤ c
    → c < 1114112
    → decode_from idle
        ((240 + c / 262144) ∷ (128 + c / 4096 % 64) ∷ (128 + c / 64 % 64) ∷ (128 + c % 64) ∷ bs)
      ≡ emit c (decode_from idle bs)
decode_four c bs h k =
    let (lo, hi, e, l, u) = lead_four c h k in
    decode_lead (240 + c / 262144) _ (inside 3 (c / 262144) lo hi) (ground arith) e
    ∙ decode_more 1 (c / 262144) lo hi (128 + c / 4096 % 64) (c / 4096) _ l u (omega arith)
    ∙ decode_more 0 (c / 4096) 128 191 (128 + c / 64 % 64) (c / 64) _ (omega arith) (omega arith)
        (omega arith)
    ∙ decode_last (c / 64) 128 191 (128 + c % 64) c bs (omega arith) (omega arith) (omega arith)

decode_one :
    (c : ℕ) (bs : List ℕ)
    → ltb c 128 ≡ true
    → decode_from idle (c ∷ bs) ≡ emit c (decode_from idle bs)
unfolding decode_from
decode_one c bs e = rw e refl

decode_char :
    (c : ℕ) (bs : List ℕ)
    → IsScalar c
    → decode_from idle (utf8_bytes c ++ bs) ≡ emit c (decode_from idle bs)
decode_char c bs h = elim (Bool-cases (ltb c 128)) [
  | inl e ↦ rw e (decode_one c bs e)
  | inr e ↦ elim (Bool-cases (ltb c 2048)) [
    | inl f ↦ rw (e, f) (decode_two c bs (ground arith) (ground arith))
    | inr f ↦ elim (Bool-cases (ltb c 65536)) [
      | inl g ↦ rw (e, f, g) (decode_three c bs h (ground arith) (ground arith))
      | inr g ↦ rw (e, f, g) (decode_four c bs (ground arith) (ground arith))
    ]
  ]
]

utf8_bytes-AreBytes :
    (c : ℕ) (bs : List ℕ) → IsScalar c → AreBytes bs → AreBytes (utf8_bytes c ++ bs)
utf8_bytes-AreBytes c bs h k = ground arith

pub encode_utf8-AreBytes : (t : Text) → AreScalars t → AreBytes (encode_utf8 t)
unfolding encode_utf8
encode_utf8-AreBytes [] h = tt
encode_utf8-AreBytes (c ∷ cs) (s, h) =
    utf8_bytes-AreBytes c (encode_utf8 cs) s (encode_utf8-AreBytes cs h)

pub length-encode_utf8 : (t : Text) → length (encode_utf8 t) ≡ utf8_length t
unfolding encode_utf8 utf8_length
length-encode_utf8 [] = refl
length-encode_utf8 (c ∷ cs) = ground (arith, length-encode_utf8 cs)

decode_from-encode_utf8 : (t : Text) → AreScalars t → decode_from idle (encode_utf8 t) ≡ some t
unfolding encode_utf8 decode_from
decode_from-encode_utf8 [] h = refl
decode_from-encode_utf8 (c ∷ cs) (s, h) =
    rw (decode_char c (encode_utf8 cs) s, decode_from-encode_utf8 cs h) refl

-- UTF-8 takes back what it writes.
pub decode_utf8-encode_utf8 : (t : Text) → AreScalars t → decode_utf8 (encode_utf8 t) ≡ some t
unfolding decode_utf8
decode_utf8-encode_utf8 t h = decode_from-encode_utf8 t h
