-- ===== src/Amf0/Encoding.antt =====
-- The bytes that the write functions of amf0.cpp append, with lengths, counts and numbers cut to their
-- fields as the code cuts them, and the values that are written without a fault.
use drone_server.Amf0.{
  Amf0Data, Items, Pointer, Properties, boolean, count, count_items, ecma_array, item,
  marker_boolean, marker_ecma_array, marker_null, marker_number, marker_object, marker_object_end,
  marker_strict_array, marker_string, marker_undefined, no_items, no_properties, null, null_pointer,
  number, object, object_end, property, strict_array, string, to, undefined,
}
use drone_server.Amf0.Writing.{
  write, write_items, write_object_end, write_pointer, write_properties,
}
use drone_server.Buffer.{SimpleBuffer, write_1byte, write_2bytes, write_4bytes, write_string}
use drone_server.Buffer.Words.{
  write_1byte_lem, write_2bytes_lem, write_4bytes_lem, write_8bytes_lem,
}
use drone_server.Prelude.{
  [], append-nil, append_assoc, false, if◌then◌else◌, length, true, ◌++◌, ◌∷◌, ◌≡◌,
}
use drone_server.Prelude.Bytes.{Bytes, big_endian}
use drone_server.Prelude.Outcome.{ok}

unfoldable mutual
  pub emit : Amf0Data → Bytes
  emit (number m v) = 0x00 ∷ big_endian 8 v
  emit (boolean m v) = 0x01 ∷ (if v then 0x01 else 0x00) ∷ []
  emit (string m s) = 0x02 ∷ (big_endian 2 (length s) ++ s)
  emit (object m ps) = 0x03 ∷ (emit_properties ps ++ 0x00 ∷ 0x00 ∷ 0x09 ∷ [])
  emit (object_end m) = 0x00 ∷ 0x00 ∷ 0x09 ∷ []
  emit (null m) = 0x05 ∷ []
  emit (undefined m) = 0x06 ∷ []
  emit (ecma_array m ps) =
      0x08 ∷ (big_endian 4 (count ps) ++ (emit_properties ps ++ 0x00 ∷ 0x00 ∷ 0x09 ∷ []))
  emit (strict_array m vs) = 0x0a ∷ (big_endian 4 (count_items vs) ++ emit_items vs)

  pub emit_pointer : Pointer → Bytes
  emit_pointer null_pointer = []
  emit_pointer (to v) = emit v

  pub emit_properties : Properties → Bytes
  emit_properties no_properties = []
  emit_properties (property k v ps) =
      big_endian 2 (length k) ++ (k ++ (emit_pointer v ++ emit_properties ps))

  pub emit_items : Items → Bytes
  emit_items no_items = []
  emit_items (item v vs) = emit_pointer v ++ emit_items vs

-- Each object has its class's marker, and no pointer is null.
unfoldable mutual
  pub IsWritable : Amf0Data → Type 0
  IsWritable (number m v) = m ≡ marker_number
  IsWritable (boolean m v) = m ≡ marker_boolean
  IsWritable (string m s) = m ≡ marker_string
  IsWritable (object m ps) = (m ≡ marker_object) × AreWritable ps
  IsWritable (object_end m) = m ≡ marker_object_end
  IsWritable (null m) = m ≡ marker_null
  IsWritable (undefined m) = m ≡ marker_undefined
  IsWritable (ecma_array m ps) = (m ≡ marker_ecma_array) × AreWritable ps
  IsWritable (strict_array m vs) = (m ≡ marker_strict_array) × AreWritableItems vs

  pub PointsToWritable : Pointer → Type 0
  PointsToWritable null_pointer = ⊥
  PointsToWritable (to v) = IsWritable v

  pub AreWritable : Properties → Type 0
  AreWritable no_properties = Unit {0}
  AreWritable (property k v ps) = PointsToWritable v × AreWritable ps

  pub AreWritableItems : Items → Type 0
  AreWritableItems no_items = Unit {0}
  AreWritableItems (item v vs) = PointsToWritable v × AreWritableItems vs

-- The buffer with bytes added at its end.
abbrev pub extended : SimpleBuffer → Bytes → SimpleBuffer
extended b bs = record b { content = b.content ++ bs }

pub ruleset writes = (
  write_1byte_lem, write_2bytes_lem, write_4bytes_lem, write_8bytes_lem, append_assoc, append-nil,
)

push_object_end :
    (b : SimpleBuffer) → write_object_end 0x09 b ≡ extended b (0x00 ∷ 0x00 ∷ 0x09 ∷ [])
unfolding write_object_end big_endian
push_object_end b = simp writes

-- Each `write` appends the encoding of its value.
mutual
  unfolding write emit IsWritable write_string

  write-emit :
      (d : Amf0Data) (b : SimpleBuffer) → IsWritable d → write d b ≡ ok (extended b (emit d))
  write-emit (number m v) b w = rw w (simp writes)
  write-emit (boolean m true) b w = rw w (simp writes)
  write-emit (boolean m false) b w = rw w (simp writes)
  write-emit (string m s) b w = rw w (simp writes)
  write-emit (object m ps) b w =
      rw (w.0, write_properties-emit ps (write_1byte marker_object b) w.1)
        (simp (push_object_end, writes))
  write-emit (object_end m) b w = rw (w, push_object_end b)
  write-emit (null m) b w = rw w (simp writes)
  write-emit (undefined m) b w = rw w (simp writes)
  write-emit (ecma_array m ps) b w =
      rw
        (
          w.0,
          write_properties-emit ps (write_4bytes (count ps) (write_1byte marker_ecma_array b)) w.1,
        )
        (simp (push_object_end, writes))
  write-emit (strict_array m vs) b w =
      rw
        (
          w.0,
          write_items-emit vs (write_4bytes (count_items vs) (write_1byte marker_strict_array b))
              w.1,
        )
        (simp writes)

  write_pointer-emit :
      (v : Pointer) (b : SimpleBuffer)
      → PointsToWritable v
      → write_pointer v b ≡ ok (extended b (emit_pointer v))
  write_pointer-emit null_pointer b w = absurd w
  write_pointer-emit (to v) b w = write-emit v b w

  write_properties-emit :
      (ps : Properties) (b : SimpleBuffer)
      → AreWritable ps
      → write_properties ps b ≡ ok (extended b (emit_properties ps))
  write_properties-emit no_properties b w = simp writes
  write_properties-emit (property k v ps) b w =
      let named = write_string k (write_2bytes (length k) b) in
      rw (write_pointer-emit v named w.0)
        (rw (write_properties-emit ps (extended named (emit_pointer v)) w.1) (simp writes))

  write_items-emit :
      (vs : Items) (b : SimpleBuffer)
      → AreWritableItems vs
      → write_items vs b ≡ ok (extended b (emit_items vs))
  write_items-emit no_items b w = simp writes
  write_items-emit (item v vs) b w =
      rw (write_pointer-emit v b w.0)
        (rw (write_items-emit vs (extended b (emit_pointer v)) w.1) (simp writes))

-- A value whose objects have their classes' markers and in which no pointer is null is written without
-- a fault, and `write` appends the bytes of `emit`.
pub write_lem :
    (d : Amf0Data) (b : SimpleBuffer) → IsWritable d → write d b ≡ ok (extended b (emit d))
write_lem d b w = write-emit d b w
