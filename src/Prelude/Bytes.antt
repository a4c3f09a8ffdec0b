-- ===== src/Prelude/Bytes.antt =====
-- Bytes and words. A byte is its pattern, a number below 256, whether the source calls it a `char`,
-- an `int8_t` or a `uint8_t`; a word is its pattern too.
use drone_server.Prelude.{
  ℕ, zero, suc, ◌+◌, ◌*◌, ◌/◌, ◌%◌, ◌^◌, ◌≡◌, refl, ap, Bool, true, false, ◌&&◌, List, [], ◌∷◌,
  arith, ◌==◌, length,
}

abbrev pub Bytes : Type 0
Bytes = List ℕ

-- The byte at place `i` of a word in memory, on a little-endian machine.
abbrev pub byte_at : ℕ → ℕ → ℕ
byte_at v i = v / 256 ^ i % 256

-- The low `n` bytes of a word, the most significant first.
unfoldable pub big_endian : ℕ → ℕ → Bytes
big_endian zero v = []
big_endian (suc n) v = byte_at v n ∷ big_endian n v

pub length-big_endian : (n v : ℕ) → length (big_endian n v) ≡ n
unfolding big_endian
length-big_endian zero v = refl
length-big_endian (suc n) v = ap suc (length-big_endian n v)

-- The number that bytes stand for, the most significant first.
unfoldable pub number_of : Bytes → ℕ
number_of [] = 0
number_of (x ∷ xs) = x * 256 ^ length xs + number_of xs

pub number_of-big_endian2 : (v : ℕ) → number_of (big_endian 2 v) ≡ v % 0x1_0000
unfolding number_of big_endian
number_of-big_endian2 v = omega arith

pub number_of-big_endian3 : (v : ℕ) → number_of (big_endian 3 v) ≡ v % 0x100_0000
unfolding number_of big_endian
number_of-big_endian3 v = omega arith

pub number_of-big_endian4 : (v : ℕ) → number_of (big_endian 4 v) ≡ v % 0x1_0000_0000
unfolding number_of big_endian
number_of-big_endian4 v = omega arith

pub number_of-big_endian8 : (v : ℕ) → number_of (big_endian 8 v) ≡ v % 0x1_0000_0000_0000_0000
unfolding number_of big_endian
number_of-big_endian8 v = omega arith

-- Equality of byte strings, as `std::string` has it.
unfoldable pub bytes_eq : Bytes → Bytes → Bool
bytes_eq [] [] = true
bytes_eq [] (y ∷ ys) = false
bytes_eq (x ∷ xs) [] = false
bytes_eq (x ∷ xs) (y ∷ ys) = (x == y) && bytes_eq xs ys

pub bytes_eq_refl : (xs : Bytes) → bytes_eq xs xs ≡ true
unfolding bytes_eq
bytes_eq_refl [] = refl
bytes_eq_refl (x ∷ xs) = ground (arith, bytes_eq_refl xs)

pub bytes_eq→eq : (xs ys : Bytes) → bytes_eq xs ys ≡ true → xs ≡ ys
unfolding bytes_eq
bytes_eq→eq [] [] h = refl
bytes_eq→eq [] (y ∷ ys) h = cc
bytes_eq→eq (x ∷ xs) [] h = cc
bytes_eq→eq (x ∷ xs) (y ∷ ys) h = ground (arith, bytes_eq→eq xs ys)
