-- ===== src/Buffer.antt =====
-- src/rtmp/src/DDS/rtmp/amf0/simple_buffer.h and simple_buffer.cpp: a growing vector of bytes with a
-- read cursor. The bytes of an `int8_t` are patterns below 256. A read past the end, or a failed
-- `assert`, is a `fault`: the build files never define NDEBUG.
pub mod Cursor
pub mod Words
pub mod Progress
mod Examples
use drone_server.Prelude.{
  Bool, Option, [], drop, get_elem?, if◌then◌else◌, leb, length, none, set, some, suc, take, zero,
  ℕ, ◌%◌, ◌*◌, ◌++◌, ◌+◌, ◌-◌, ◌^◌, ◌∷◌,
}
use drone_server.Prelude.Bytes.{Bytes, byte_at}
use drone_server.Prelude.Int.{negsuc, pos, ℤ}
use drone_server.Prelude.Outcome.{Outcome, fault, ok, ◌>>=◌}

pub record SimpleBuffer : Type 0 where
  pub content : Bytes
  pub pos : ℕ

abbrev pub empty_buffer : SimpleBuffer
empty_buffer = record { content = []; pos = 0 }

-- A run of code that may move the cursor.
abbrev pub Reader {ℓ} : Type ℓ → Type ℓ
Reader A = SimpleBuffer → Outcome (A × SimpleBuffer)

abbrev pub pure {ℓ} : {A : Type ℓ} → A → Reader A
pure a b = ok (a, b)

infixl 5 ◌>>>=◌
abbrev pub ◌>>>=◌ {ℓ κ} : {A : Type ℓ} {B : Type κ} → Reader A → (A → Reader B) → Reader B
◌>>>=◌ m f b = m b >>= λ r. f r.0 r.1

-- Writing.

unfoldable pub write_1byte : ℕ → SimpleBuffer → SimpleBuffer
write_1byte val b = record b { content = b.content ++ val % 256 ∷ [] }

-- `for (int i = n - 1; i >= 0; --i) _data.push_back(p[i]);`
unfoldable pub push_places : ℕ → ℕ → SimpleBuffer → SimpleBuffer
push_places zero val b = b
push_places (suc i) val b =
    push_places i val (record b { content = b.content ++ byte_at val i ∷ [] })

unfoldable pub write_2bytes : ℕ → SimpleBuffer → SimpleBuffer
unfolding push_places
write_2bytes = push_places 2

unfoldable pub write_3bytes : ℕ → SimpleBuffer → SimpleBuffer
unfolding push_places
write_3bytes = push_places 3

unfoldable pub write_4bytes : ℕ → SimpleBuffer → SimpleBuffer
unfolding push_places
write_4bytes = push_places 4

unfoldable pub write_8bytes : ℕ → SimpleBuffer → SimpleBuffer
unfolding push_places
write_8bytes = push_places 8

unfoldable pub write_string : Bytes → SimpleBuffer → SimpleBuffer
write_string val b = record b { content = b.content ++ val }

-- `bytes` is the array that the pointer points to, or `none` for a null pointer.
unfoldable pub append : Option Bytes → ℤ → SimpleBuffer → SimpleBuffer
append none size b = b
append (some bytes) (negsuc n) b = b
append (some bytes) (pos n) b = record b { content = b.content ++ take n bytes }

-- Reading.

-- `_data.size() - _pos` on size_t: it wraps when the cursor is past the end.
unfoldable pub remaining : SimpleBuffer → ℕ
remaining b =
    if leb b.pos (length b.content)
    then length b.content - b.pos
    else 2 ^ 64 - (b.pos - length b.content)

unfoldable pub require : ℤ → Reader Bool
unfolding remaining
require (pos n) b = ok (leb n (remaining b), b)
require (negsuc n) b = fault

unfoldable pub empty : SimpleBuffer → Bool
empty b = leb (length b.content) b.pos

-- `assert(require(n))`
unfoldable pub assert_require : ℕ → Reader (Unit {0})
unfolding require
assert_require n = require (pos n) >>>= λ enough. if enough then pure tt else (λ _. fault)

-- `_data.at(0 + _pos)`, then `_pos++`.
unfoldable pub next_byte : Reader ℕ
next_byte b = elim (get_elem? b.content b.pos) [
  | none ↦ fault
  | some x ↦ ok (x, record b { pos = b.pos + 1 })
]

unfoldable pub read_1byte : Reader ℕ
unfolding assert_require next_byte
read_1byte = assert_require 1 >>>= λ _. next_byte

-- `for (int i = n - 1; i >= 0; --i) { p[i] = _data.at(0 + _pos); _pos++; }`, the word so far in `val`.
unfoldable pub read_places : ℕ → ℕ → Reader ℕ
unfolding next_byte
read_places zero val = pure val
read_places (suc i) val = next_byte >>>= λ x. read_places i (val + x * 256 ^ i)

unfoldable pub read_2bytes : Reader ℕ
unfolding assert_require read_places
read_2bytes = assert_require 2 >>>= λ _. read_places 2 0

unfoldable pub read_3bytes : Reader ℕ
unfolding assert_require read_places
read_3bytes = assert_require 3 >>>= λ _. read_places 3 0

unfoldable pub read_4bytes : Reader ℕ
unfolding assert_require read_places
read_4bytes = assert_require 4 >>>= λ _. read_places 4 0

unfoldable pub read_8bytes : Reader ℕ
unfolding assert_require read_places
read_8bytes = assert_require 8 >>>= λ _. read_places 8 0

-- `std::string val(&_data[0] + _pos, len); _pos += len;`
unfoldable pub take_string : ℕ → Reader Bytes
take_string n b = ok (take n (drop b.pos b.content), record b { pos = b.pos + n })

-- The length is a signed number, and the `assert` refuses a negative one.
unfoldable pub read_string : ℤ → Reader Bytes
unfolding assert_require take_string
read_string (pos n) = assert_require n >>>= λ _. take_string n
read_string (negsuc n) = λ _. fault

unfoldable pub size : SimpleBuffer → ℕ
size b = length b.content

unfoldable pub clear : SimpleBuffer → SimpleBuffer
clear b = record { content = []; pos = 0 }

-- The loop `for (int i = 0; i < len; i++) _data[pos + i] = data[i];` over the bytes to write.
unfoldable pub overwrite : ℕ → Bytes → Bytes → Bytes
overwrite at [] content = content
overwrite at (x ∷ xs) content = overwrite (suc at) xs (set content at x)

unfoldable pub set_data : ℕ → Option Bytes → ℕ → SimpleBuffer → SimpleBuffer
unfolding overwrite
set_data at none len b = b
set_data at (some bytes) len b =
    if leb (at + len) (length b.content)
    then record b { content = overwrite at (take len bytes) b.content }
    else b
