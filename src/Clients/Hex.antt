-- ===== src/Clients/Hex.antt =====
-- `cid_to_hex` of client.hpp, and that `cid_from_hex` reads what it writes.
use drone_server.Amf0.Decoding.{reads}
use drone_server.Media.Conversion.{cid_from_hex}
use drone_server.Prelude.{
  Bool-cases, Option, [], ap, arith, if◌then◌else◌, inl, inr, length, ltb, refl, some, suc, tests,
  zero, ℕ, ◌%◌, ◌*◌, ◌+◌, ◌-◌, ◌/◌, ◌<◌, ◌^◌, ◌∙◌, ◌∷◌, ◌≡◌, ◌≤◌, ◌⊎◌,
}
use drone_server.Prelude.Bytes.{Bytes}
use drone_server.Prelude.Outcome.{ok}

-- A digit below 16, in lower case.
abbrev pub hex_digit : ℕ → ℕ
hex_digit d = if ltb d 10 then 0x30 + d else 0x57 + d

unfoldable pub hex_digits : ℕ → ℕ → Bytes
hex_digits zero v = []
hex_digits (suc n) v = hex_digit (v / 16 ^ n % 16) ∷ hex_digits n v

-- `std::setfill('0') << std::setw(sizeof(cid)*2) << std::hex << cid`
unfoldable pub cid_to_hex : ℕ → Bytes
cid_to_hex cid = hex_digits 8 cid

abbrev pub digit_value : ℕ → ℕ
digit_value c = if ltb c 0x40 then c - 0x30 else c - 0x57

abbrev pub hex_value : Bytes → ℕ
hex_value [] = 0
hex_value (c ∷ cs) = digit_value c * 16 ^ length cs + hex_value cs

abbrev pub AreHexDigits : Bytes → Type 0
AreHexDigits [] = Unit {0}
AreHexDigits (c ∷ cs) = (((0x30 ≤ c) × (c ≤ 0x39)) ⊎ ((0x61 ≤ c) × (c ≤ 0x66))) × AreHexDigits cs

-- What `std::stoul` with base 16 does with the prefix 0x and up to eight digits.
abbrev pub ReadsHex : (Bytes → Option ℕ) → Type 0
ReadsHex stoul =
    (c : ℕ) (cs : Bytes)
    → AreHexDigits (c ∷ cs)
    → length cs < 8
    → stoul (0x30 ∷ 0x78 ∷ c ∷ cs) ≡ some (hex_value (c ∷ cs))

digit_value-hex_digit : (d : ℕ) → d < 16 → digit_value (hex_digit d) ≡ d
digit_value-hex_digit d h = ground (arith, h)

hex_digit-AreHexDigits :
    (d : ℕ)
    → d < 16
    → ((0x30 ≤ hex_digit d) × (hex_digit d ≤ 0x39)) ⊎ ((0x61 ≤ hex_digit d) × (hex_digit d ≤ 0x66))
hex_digit-AreHexDigits d h = elim (Bool-cases (ltb d 10)) [
  | inl e ↦ rw e (inl (omega arith, omega (tests, e)))
  | inr e ↦ rw e (inr (ground (arith, e), omega (arith, h)))
]

hex_digits-AreHexDigits : (n v : ℕ) → AreHexDigits (hex_digits n v)
unfolding hex_digits
hex_digits-AreHexDigits zero v = tt
hex_digits-AreHexDigits (suc n) v =
    (hex_digit-AreHexDigits (v / 16 ^ n % 16) (omega arith), hex_digits-AreHexDigits n v)

length-hex_digits : (n v : ℕ) → length (hex_digits n v) ≡ n
unfolding hex_digits
length-hex_digits zero v = refl
length-hex_digits (suc n) v = ap suc (length-hex_digits n v)

nibbles : ℕ → ℕ → ℕ
nibbles zero v = 0
nibbles (suc n) v = v / 16 ^ n % 16 * 16 ^ n + nibbles n v

hex_value-hex_digits : (n v : ℕ) → hex_value (hex_digits n v) ≡ nibbles n v
unfolding hex_digits nibbles
hex_value-hex_digits zero v = refl
hex_value-hex_digits (suc n) v =
    rw
      (
        digit_value-hex_digit (v / 16 ^ n % 16) (omega arith),
        length-hex_digits n v,
        hex_value-hex_digits n v,
      )
      refl

nibbles8 : (v : ℕ) → nibbles 8 v ≡ v % 2 ^ 32
unfolding nibbles
nibbles8 v = omega arith

cid_from_hex-ok :
    (stoul : Bytes → Option ℕ) (hex : Bytes) (v : ℕ)
    → stoul (0x30 ∷ 0x78 ∷ hex) ≡ some v
    → cid_from_hex stoul hex ≡ ok (v % 2 ^ 32)
unfolding cid_from_hex
cid_from_hex-ok stoul hex v e = rw (e, cid_from_hex) refl

-- `cid_from_hex` reads back every number of 32 bits that `cid_to_hex` has written, if `std::stoul` reads
-- hexadecimal digits.
pub cid_from_hex-cid_to_hex :
    (stoul : Bytes → Option ℕ) (cid : ℕ)
    → ReadsHex stoul
    → cid < 2 ^ 32
    → cid_from_hex stoul (cid_to_hex cid) ≡ ok cid
unfolding cid_to_hex hex_digits
cid_from_hex-cid_to_hex stoul cid reads h =
    let read : stoul (0x30 ∷ 0x78 ∷ cid_to_hex cid) ≡ some (hex_value (hex_digits 8 cid)) =
      reads (hex_digit (cid / 16 ^ 7 % 16)) (hex_digits 7 cid) (hex_digits-AreHexDigits 8 cid)
        (omega (arith, length-hex_digits 7 cid)) in
    let value : hex_value (hex_digits 8 cid) % 2 ^ 32 ≡ cid =
      omega (arith, hex_value-hex_digits 8 cid ∙ nibbles8 cid, h) in
    cid_from_hex-ok stoul (cid_to_hex cid) (hex_value (hex_digits 8 cid)) read ∙ ap ok value
