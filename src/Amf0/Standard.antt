-- ===== src/Amf0/Standard.antt =====
-- The AMF0 encoding with length fields that are not cut, and write of amf0.cpp where they suffice.
use drone_server.Amf0.{
  Amf0Data, Items, Pointer, Properties, boolean, count, count_items, ecma_array, item,
  marker_boolean, marker_ecma_array, marker_null, marker_number, marker_object, marker_object_end,
  marker_strict_array, marker_string, marker_undefined, no_items, no_properties, null, null_pointer,
  number, object, object_end, property, strict_array, string, to, undefined,
}
use drone_server.Amf0.Encoding.{
  AreWritable, AreWritableItems, IsWritable, PointsToWritable, emit, emit_items, emit_pointer,
  emit_properties, extended, write_lem,
}
use drone_server.Amf0.Writing.{write}
use drone_server.Buffer.{SimpleBuffer}
use drone_server.Prelude.{
  [], ap, append_assoc, arith, if◌then◌else◌, length, refl, ℕ, ◌%◌, ◌++◌, ◌/◌, ◌<◌, ◌^◌, ◌∙◌, ◌∷◌,
  ◌≡◌,
}
use drone_server.Prelude.Bytes.{Bytes, big_endian}
use drone_server.Prelude.Outcome.{ok}

-- A field of 16, 32 or 64 bits, the most significant byte first; the first byte takes what is left.
abbrev pub two_bytes : ℕ → Bytes
two_bytes n = n / 0x100 ∷ n % 0x100 ∷ []

abbrev pub four_bytes : ℕ → Bytes
four_bytes n = two_bytes (n / 0x1_0000) ++ two_bytes (n % 0x1_0000)

abbrev pub eight_bytes : ℕ → Bytes
eight_bytes n = four_bytes (n / 0x1_0000_0000) ++ four_bytes (n % 0x1_0000_0000)

-- Each type of value with its marker as a numeral. An object and an ECMA array end with an empty name and
-- the marker 9.
unfoldable mutual
  pub encode : Amf0Data → Bytes
  encode (number m v) = 0 ∷ eight_bytes v
  encode (boolean m v) = 1 ∷ (if v then 1 else 0) ∷ []
  encode (string m s) = 2 ∷ (two_bytes (length s) ++ s)
  encode (object m ps) = 3 ∷ encode_properties ps
  encode (object_end m) = 0 ∷ 0 ∷ 9 ∷ []
  encode (null m) = 5 ∷ []
  encode (undefined m) = 6 ∷ []
  encode (ecma_array m ps) = 8 ∷ (four_bytes (count ps) ++ encode_properties ps)
  encode (strict_array m vs) = 10 ∷ (four_bytes (count_items vs) ++ encode_items vs)

  pub encode_pointer : Pointer → Bytes
  encode_pointer null_pointer = []
  encode_pointer (to v) = encode v

  pub encode_properties : Properties → Bytes
  encode_properties no_properties = 0 ∷ 0 ∷ 9 ∷ []
  encode_properties (property k v ps) =
      two_bytes (length k) ++ (k ++ (encode_pointer v ++ encode_properties ps))

  pub encode_items : Items → Bytes
  encode_items no_items = []
  encode_items (item v vs) = encode_pointer v ++ encode_items vs

-- Each object has its class's marker, no pointer is null, and lengths, counts and numbers fit their
-- fields.
unfoldable mutual
  pub IsEncodable : Amf0Data → Type 0
  IsEncodable (number m v) = (m ≡ marker_number) × (v < 2 ^ 64)
  IsEncodable (boolean m v) = m ≡ marker_boolean
  IsEncodable (string m s) = (m ≡ marker_string) × (length s < 2 ^ 16)
  IsEncodable (object m ps) = (m ≡ marker_object) × AreEncodable ps
  IsEncodable (object_end m) = m ≡ marker_object_end
  IsEncodable (null m) = m ≡ marker_null
  IsEncodable (undefined m) = m ≡ marker_undefined
  IsEncodable (ecma_array m ps) = (m ≡ marker_ecma_array) × (count ps < 2 ^ 32) × AreEncodable ps
  IsEncodable (strict_array m vs) =
      (m ≡ marker_strict_array) × (count_items vs < 2 ^ 32) × AreEncodableItems vs

  pub PointsToEncodable : Pointer → Type 0
  PointsToEncodable null_pointer = ⊥
  PointsToEncodable (to v) = IsEncodable v

  pub AreEncodable : Properties → Type 0
  AreEncodable no_properties = Unit {0}
  AreEncodable (property k v ps) = (length k < 2 ^ 16) × PointsToEncodable v × AreEncodable ps

  pub AreEncodableItems : Items → Type 0
  AreEncodableItems no_items = Unit {0}
  AreEncodableItems (item v vs) = PointsToEncodable v × AreEncodableItems vs

field2 : (n : ℕ) → n < 2 ^ 16 → big_endian 2 n ≡ two_bytes n
unfolding big_endian
field2 n h = grind arith

field4 : (n : ℕ) → n < 2 ^ 32 → big_endian 4 n ≡ four_bytes n
unfolding big_endian
field4 n h = grind arith

pub field8 : (n : ℕ) → n < 2 ^ 64 → big_endian 8 n ≡ eight_bytes n
unfolding big_endian
field8 n h = grind arith

mutual
  unfolding IsEncodable IsWritable

  IsEncodable-IsWritable : (d : Amf0Data) → IsEncodable d → IsWritable d
  IsEncodable-IsWritable (number m v) w = w.0
  IsEncodable-IsWritable (boolean m v) w = w
  IsEncodable-IsWritable (string m s) w = w.0
  IsEncodable-IsWritable (object m ps) w = (w.0, AreEncodable-AreWritable ps w.1)
  IsEncodable-IsWritable (object_end m) w = w
  IsEncodable-IsWritable (null m) w = w
  IsEncodable-IsWritable (undefined m) w = w
  IsEncodable-IsWritable (ecma_array m ps) w = (w.0, AreEncodable-AreWritable ps w.2)
  IsEncodable-IsWritable (strict_array m vs) w = (w.0, AreEncodableItems-AreWritableItems vs w.2)

  PointsToEncodable-PointsToWritable : (v : Pointer) → PointsToEncodable v → PointsToWritable v
  PointsToEncodable-PointsToWritable null_pointer w = w
  PointsToEncodable-PointsToWritable (to v) w = IsEncodable-IsWritable v w

  AreEncodable-AreWritable : (ps : Properties) → AreEncodable ps → AreWritable ps
  AreEncodable-AreWritable no_properties w = tt
  AreEncodable-AreWritable (property k v ps) w =
      (PointsToEncodable-PointsToWritable v w.1, AreEncodable-AreWritable ps w.2)

  AreEncodableItems-AreWritableItems : (vs : Items) → AreEncodableItems vs → AreWritableItems vs
  AreEncodableItems-AreWritableItems no_items w = tt
  AreEncodableItems-AreWritableItems (item v vs) w =
      (PointsToEncodable-PointsToWritable v w.0, AreEncodableItems-AreWritableItems vs w.1)

-- The bytes that are written are the encoding.
mutual
  unfolding emit encode IsEncodable

  emit-encode : (d : Amf0Data) → IsEncodable d → emit d ≡ encode d
  emit-encode (number m v) w = ap (◌∷◌ 0) (field8 v w.1)
  emit-encode (boolean m v) w = refl
  emit-encode (string m s) w = rw (field2 (length s) w.1) refl
  emit-encode (object m ps) w = ap (◌∷◌ 3) (emit_properties-encode ps w.1)
  emit-encode (object_end m) w = refl
  emit-encode (null m) w = refl
  emit-encode (undefined m) w = refl
  emit-encode (ecma_array m ps) w = rw (field4 (count ps) w.1, emit_properties-encode ps w.2) refl
  emit-encode (strict_array m vs) w =
      rw (field4 (count_items vs) w.1, emit_items-encode vs w.2) refl

  emit_pointer-encode : (v : Pointer) → PointsToEncodable v → emit_pointer v ≡ encode_pointer v
  emit_pointer-encode null_pointer w = refl
  emit_pointer-encode (to v) w = emit-encode v w

  emit_properties-encode :
      (ps : Properties)
      → AreEncodable ps
      → emit_properties ps ++ 0x00 ∷ 0x00 ∷ 0x09 ∷ [] ≡ encode_properties ps
  emit_properties-encode no_properties w = refl
  emit_properties-encode (property k v ps) w =
      rw (← emit_properties-encode ps w.2, field2 (length k) w.0, emit_pointer-encode v w.1)
        (simp append_assoc)

  emit_items-encode : (vs : Items) → AreEncodableItems vs → emit_items vs ≡ encode_items vs
  emit_items-encode no_items w = refl
  emit_items-encode (item v vs) w = rw (emit_pointer-encode v w.0, emit_items-encode vs w.1) refl

-- A value whose objects have their classes' markers, in which no pointer is null, and whose strings and
-- names are shorter than 2^16 bytes, counts below 2^32 and numbers of 64 bits, is written without a fault,
-- and what `write` appends to the buffer is the AMF0 encoding of the value.
pub write-encode :
    (d : Amf0Data) (b : SimpleBuffer) → IsEncodable d → write d b ≡ ok (extended b (encode d))
write-encode d b w =
    write_lem d b (IsEncodable-IsWritable d w) ∙ ap (λ bs. ok (extended b bs)) (emit-encode d w)
