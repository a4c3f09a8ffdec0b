-- ===== src/Amf0/Arrays.antt =====
-- The strict arrays and the long strings of amf0.cpp.
use drone_server.Amf0.{
  Items, Pointer, count_items, marker_ecma_array, marker_strict_array, marker_string, strict_array,
}
use drone_server.Amf0.Decoding.{create-cursor, expect_marker-cursor, require2}
use drone_server.Amf0.Encoding.{AreWritableItems, IsWritable, emit, emit_items, extended, write_lem}
use drone_server.Amf0.Reading.{
  create_amf0data, decode_error, expect_marker, or_null, read_amf0_string, read_by_marker,
  read_properties, read_strict_array,
}
use drone_server.Amf0.Writing.{write}
use drone_server.Buffer.{Reader, SimpleBuffer, require}
use drone_server.Buffer.Cursor.{cursor, read_1byte-cursor, require-cursor_cons}
use drone_server.Buffer.Words.{exhausted, read_2bytes-cursor}
use drone_server.Prelude.{[], arith, refl, ℕ, ◌%◌, ◌++◌, ◌-◌, ◌<◌, ◌∷◌, ◌≡◌, ◌≤◌}
use drone_server.Prelude.Bytes.{Bytes, big_endian}
use drone_server.Prelude.Int.{int16, negsuc}
use drone_server.Prelude.Outcome.{fault, ok, ◌>>=◌}

int16_large : (n : ℕ) → 0x8000 ≤ n → n < 0x1_0000 → (m : ℕ) × (int16 (n % 0x1_0000) ≡ negsuc m)
int16_large n lo hi = (0x1_0000 - n - 1, ground arith)

require_negative : (m : ℕ) (b : SimpleBuffer) → require (negsuc m) b ≡ fault
unfolding require
require_negative m b = refl

read_amf0_string-long :
    (old n : ℕ) (p r : Bytes)
    → 0x8000 ≤ n
    → n < 0x1_0000
    → read_amf0_string old [] (cursor p (0x02 ∷ (big_endian 2 n ++ r))) ≡ fault
unfolding read_amf0_string
read_amf0_string-long old n p r lo hi =
    rw (expect_marker-cursor 0x02 old p (big_endian 2 n ++ r), require2 2 n (p ++ 0x02 ∷ []) r)
      (rw (read_2bytes-cursor n (p ++ 0x02 ∷ []) r, (int16_large n lo hi).1)
        (rw (
          require_negative (int16_large n lo hi).0
            (cursor ((p ++ 0x02 ∷ []) ++ big_endian 2 n) r))))

-- A string whose length field has its top bit set, which is a negative `int16_t`, is a fault
-- whatever follows: the `assert` of `require` fails.
pub create-long_string :
    (fuel n : ℕ) (p r : Bytes)
    → 0x8000 ≤ n
    → n < 0x1_0000
    → create_amf0data fuel (cursor p (0x02 ∷ (big_endian 2 n ++ r))) ≡ fault
unfolding create_amf0data read_by_marker or_null
create-long_string fuel n p r lo hi =
    rw (create-cursor (read_properties fuel) p 0x02 (big_endian 2 n ++ r))
      (rw (read_amf0_string-long marker_string n p r lo hi))

extended-cursor : (bs xs : Bytes) → extended (exhausted bs) xs ≡ cursor bs xs
unfolding cursor
extended-cursor bs xs = refl

expect_marker-strict_array :
    (old : ℕ) (p r : Bytes)
    → expect_marker marker_ecma_array old (cursor p (0x0a ∷ r))
      ≡ ok ((decode_error, 0x0a), cursor (p ++ 0x0a ∷ []) r)
unfolding expect_marker
expect_marker-strict_array old p r =
    rw (require-cursor_cons p 0x0a r) (rw (read_1byte-cursor p 0x0a r))

-- A strict array with the marker of its class (0x0a), as a new one has it, is refused by
-- `Amf0StrictArray::read` after `Amf0StrictArray::write` has written it at the end of a buffer that is
-- read to its end: `read` tests for the marker of an ECMA array. Each value in the array has the marker
-- of its class, and none is a null pointer.
pub read_strict_array-write :
    (create : Reader Pointer) (vs ws : Items) (bs : Bytes) (m : ℕ)
    → AreWritableItems vs
    → (write (strict_array marker_strict_array vs) (exhausted bs) >>= λ b.
        read_strict_array create m ws b)
      ≡ ok (
        (decode_error, strict_array marker_strict_array ws),
        cursor (bs ++ marker_strict_array ∷ []) (big_endian 4 (count_items vs) ++ emit_items vs),
      )
unfolding read_strict_array IsWritable emit
read_strict_array-write create vs ws bs m w =
    rw (write_lem (strict_array marker_strict_array vs) (exhausted bs) (refl, w)) (
      rw (extended-cursor bs (0x0a ∷ (big_endian 4 (count_items vs) ++ emit_items vs)))
        (rw (expect_marker-strict_array m bs (big_endian 4 (count_items vs) ++ emit_items vs))))
