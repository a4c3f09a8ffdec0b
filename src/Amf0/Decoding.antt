-- ===== src/Amf0/Decoding.antt =====
-- The read methods of amf0.cpp on the bytes of an encoded value, whatever follows them.
use drone_server.Amf0.{
  Pointer, Properties, ecma_array, has_key, new_number, new_string, no_properties, object, property,
  put,
}
use drone_server.Amf0.Keys.{append_properties, put_new}
use drone_server.Amf0.Reading.{
  Loop, create_with, expect_marker, peek_1byte, read_amf0_string, read_by_marker, read_ecma_array,
  read_number, read_object, read_object_end, read_properties, read_property, success,
}
use drone_server.Buffer.{Reader, SimpleBuffer, empty, require, ◌>>>=◌}
use drone_server.Buffer.Cursor.{
  cursor, empty-cursor_cons, read_1byte-cursor, read_string-cursor, require-cursor,
  require-cursor_cons,
}
use drone_server.Buffer.Words.{read_2bytes-cursor, read_4bytes-cursor, read_8bytes-cursor}
use drone_server.Prelude.{
  [], append_assoc, arith, false, length, length-append, suc, true, ℕ, ◌%◌, ◌++◌, ◌<◌, ◌==◌, ◌^◌,
  ◌∷◌, ◌≡◌,
}
use drone_server.Prelude.Bytes.{Bytes, big_endian, length-big_endian}
use drone_server.Prelude.Int.{int16, pos}
use drone_server.Prelude.Outcome.{ok}
use native.Mathlib.Nat.{mod-eq_of_lt}

pub require2 :
    (n v : ℕ) (p r : Bytes)
    → require (pos n) (cursor p (big_endian n v ++ r)) ≡ ok (true, cursor p (big_endian n v ++ r))
require2 n v p r =
    rw (require-cursor n p (big_endian n v ++ r))
      (ground (arith, length-append (big_endian n v) r, length-big_endian n v))

pub require-string :
    (s p r : Bytes) → require (pos (length s)) (cursor p (s ++ r)) ≡ ok (true, cursor p (s ++ r))
require-string s p r = rw (require-cursor (length s) p (s ++ r)) (ground (arith, length-append s r))

pub expect_marker-cursor :
    (m old : ℕ) (p r : Bytes)
    → expect_marker m old (cursor p (m ∷ r)) ≡ ok ((success, m), cursor (p ++ m ∷ []) r)
unfolding expect_marker
expect_marker-cursor m old p r =
    rw (require-cursor_cons p m r) (rw (read_1byte-cursor p m r) (ground arith))

pub int16_small : (n : ℕ) → n < 0x8000 → int16 (n % 0x1_0000) ≡ pos n
int16_small n h = ground arith

peek-cursor :
    (p : Bytes) (x : ℕ) (r : Bytes) → peek_1byte (cursor p (x ∷ r)) ≡ ok (x, cursor p (x ∷ r))
unfolding peek_1byte cursor
peek-cursor p x r =
    rw (read_1byte-cursor p x r)
      (ground (arith, length-append p (x ∷ []), append_assoc p (x ∷ []) r))

pub create-cursor :
    (loop : Loop) (p : Bytes) (x : ℕ) (r : Bytes)
    → create_with loop (cursor p (x ∷ r)) ≡ read_by_marker loop x (cursor p (x ∷ r))
unfolding create_with
create-cursor loop p x r = rw (require-cursor_cons p x r) (rw (peek-cursor p x r))

pub ruleset reads = (
  require-cursor_cons, expect_marker-cursor, require2, require-string, read_2bytes-cursor,
  read_4bytes-cursor, read_8bytes-cursor, read_1byte-cursor, read_string-cursor, append_assoc,
)

-- A number is read whatever the object held before.
pub read_number-over :
    (m old v : ℕ) (p r : Bytes)
    → v < 2 ^ 64
    → read_number m old (cursor p (0x00 ∷ (big_endian 8 v ++ r)))
      ≡ ok ((success, new_number v), cursor (p ++ 0x00 ∷ big_endian 8 v) r)
unfolding read_number
read_number-over m old v p r h = simp (reads, mod-eq_of_lt h)

pub read_number-emit :
    (m v : ℕ) (p r : Bytes)
    → v < 2 ^ 64
    → read_number m 0 (cursor p (0x00 ∷ (big_endian 8 v ++ r)))
      ≡ ok ((success, new_number v), cursor (p ++ 0x00 ∷ big_endian 8 v) r)
read_number-emit m v p r h = read_number-over m 0 v p r h

pub read_amf0_string-emit :
    (m : ℕ) (s p r : Bytes)
    → length s < 0x8000
    → read_amf0_string m [] (cursor p (0x02 ∷ (big_endian 2 (length s) ++ (s ++ r))))
      ≡ ok ((success, new_string s), cursor (p ++ 0x02 ∷ (big_endian 2 (length s) ++ s)) r)
unfolding read_amf0_string
read_amf0_string-emit m s p r h = simp (reads, int16_small (length s) h)

read_object_end-cursor :
    (ps : Properties) (p r : Bytes)
    → read_object_end ps (cursor p (0x09 ∷ r)) ≡ ok ((success, ps), cursor (p ++ 0x09 ∷ []) r)
unfolding read_object_end
read_object_end-cursor ps p r = simp reads

require_zero : (b : SimpleBuffer) → require (pos 0) b ≡ ok (true, b)
unfolding require
require_zero b = ground arith

-- An empty name and the end marker stop the loop.
pub read_property-end :
    (create : Reader Pointer) (again : Loop) (ps : Properties) (p r : Bytes)
    → read_property create again ps (cursor p (big_endian 2 0 ++ 0x09 ∷ r))
      ≡ ok ((success, ps), cursor (p ++ (big_endian 2 0 ++ 0x09 ∷ [])) r)
unfolding read_property
read_property-end create again ps p r = rw (require2 2 0 p (0x09 ∷ r)) (
    rw (read_2bytes-cursor 0 p (0x09 ∷ r)) (
      rw (require_zero (cursor (p ++ big_endian 2 0) (0x09 ∷ r)))
        (simp (read_object_end-cursor, append_assoc))))

nonempty-length : (n : ℕ) → 0 < n → n < 0x8000 → (n % 0x1_0000 == 0) ≡ false
nonempty-length n lo hi = ground arith

-- A name is read and the value is put under it.
read_property-name :
    (create : Reader Pointer) (again : Loop) (ps : Properties) (k p r : Bytes)
    → 0 < length k
    → length k < 0x8000
    → read_property create again ps (cursor p (big_endian 2 (length k) ++ (k ++ r)))
      ≡ (create >>>= λ v. again (put k v ps)) (cursor (p ++ (big_endian 2 (length k) ++ k)) r)
unfolding read_property
read_property-name create again ps k p r lo hi =
    simp (reads, int16_small (length k) hi, nonempty-length (length k) lo hi)

pub empty-word : (p r : Bytes) (v : ℕ) → empty (cursor p (big_endian 2 v ++ r)) ≡ false
unfolding big_endian
empty-word p r v = empty-cursor_cons p _ _

pub enough-rest :
    (k v : Bytes) (n f : ℕ) → length (big_endian 2 n ++ (k ++ v)) < suc f → length v < f
enough-rest k v n f h =
    omega (arith, length-append (big_endian 2 n) (k ++ v), length-append k v, length-big_endian 2 n)

pub read_object-emit :
    (loop : Loop) (m : ℕ) (ps : Properties) (p body r : Bytes)
    → loop no_properties (cursor (p ++ 0x03 ∷ []) (body ++ r))
      ≡ ok ((success, ps), cursor ((p ++ 0x03 ∷ []) ++ body) r)
    → read_object loop m no_properties (cursor p (0x03 ∷ (body ++ r)))
      ≡ ok ((success, object 0x03 ps), cursor (p ++ 0x03 ∷ body) r)
unfolding read_object
read_object-emit loop m ps p body r h =
    rw (expect_marker-cursor 0x03 m p (body ++ r)) (rw h (rw (append_assoc p (0x03 ∷ []) body)))

pub read_ecma_array-emit :
    (loop : Loop) (m n : ℕ) (ps : Properties) (p body r : Bytes)
    → loop no_properties (cursor (p ++ 0x08 ∷ big_endian 4 n) (body ++ r))
      ≡ ok ((success, ps), cursor ((p ++ 0x08 ∷ big_endian 4 n) ++ body) r)
    → read_ecma_array loop m no_properties (cursor p (0x08 ∷ (big_endian 4 n ++ (body ++ r))))
      ≡ ok ((success, ecma_array 0x08 ps), cursor (p ++ 0x08 ∷ (big_endian 4 n ++ body)) r)
unfolding read_ecma_array
read_ecma_array-emit loop m n ps p body r h =
    simp (reads, rw (append_assoc p (0x08 ∷ big_endian 4 n) body) at h)

-- What ends an object.
abbrev pub end_of_object : Bytes
end_of_object = big_endian 2 0 ++ 0x09 ∷ []

-- One round of the loop, where a property is read whole and the rest follows.
pub read_properties-step :
    (f : ℕ) (acc acc' : Properties) (k : Bytes) (v : Pointer) (p pv more r : Bytes)
    → 0 < length k
    → length k < 0x8000
    → has_key k acc ≡ false
    → create_with
        (read_properties f)
        (cursor (p ++ (big_endian 2 (length k) ++ k)) (pv ++ (more ++ r)))
      ≡ ok (v, cursor ((p ++ (big_endian 2 (length k) ++ k)) ++ pv) (more ++ r))
    → read_properties f
        (append_properties acc (property k v no_properties))
        (cursor ((p ++ (big_endian 2 (length k) ++ k)) ++ pv) (more ++ r))
      ≡ ok ((success, acc'), cursor (((p ++ (big_endian 2 (length k) ++ k)) ++ pv) ++ more) r)
    → read_properties (suc f) acc (cursor p (big_endian 2 (length k) ++ (k ++ (pv ++ (more ++ r)))))
      ≡ ok ((success, acc'), cursor (((p ++ (big_endian 2 (length k) ++ k)) ++ pv) ++ more) r)
unfolding read_properties
read_properties-step f acc acc' k v p pv more r lo hi new created rest =
    rw (empty-word p (k ++ (pv ++ (more ++ r))) (length k)) (
      rw
        (read_property-name (create_with (read_properties f)) (read_properties f) acc k p
          (pv ++ (more ++ r)) lo hi)
        (rw (created, put_new k v acc new) rest))
