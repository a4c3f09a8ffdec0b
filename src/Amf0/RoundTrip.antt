-- ===== src/Amf0/RoundTrip.antt =====
-- write of amf0.cpp against create_amf0data.
use drone_server.Amf0.{
  Amf0Data, Pointer, Properties, boolean, count, ecma_array, has_key, marker_boolean,
  marker_ecma_array, marker_null, marker_number, marker_object, marker_string, marker_undefined,
  no_properties, null, null_pointer, number, object, object_end, property, strict_array, string, to,
  undefined,
}
use drone_server.Amf0.Decoding.{
  create-cursor, empty-word, end_of_object, read_amf0_string-emit, read_ecma_array-emit,
  read_number-emit, read_object-emit, read_properties-step, read_property-end, reads,
}
use drone_server.Amf0.Encoding.{
  AreWritable, IsWritable, PointsToWritable, emit, emit_pointer, emit_properties, write_lem,
}
use drone_server.Amf0.Keys.{
  append_properties, append_properties-nil, append_properties_assoc, has_key-append,
}
use drone_server.Amf0.Reading.{
  Loop, create_amf0data, create_with, or_null, read_boolean, read_by_marker, read_null,
  read_properties, read_undefined, success,
}
use drone_server.Amf0.Writing.{write}
use drone_server.Buffer.Cursor.{cursor}
use drone_server.Buffer.Words.{exhausted}
use drone_server.Prelude.{
  [], append-nil, append_assoc, arith, false, length, length-append, refl, suc, true, zero, ℕ, ◌++◌,
  ◌<◌, ◌^◌, ◌∷◌, ◌≡◌, ◌≤◌,
}
use drone_server.Prelude.Bytes.{Bytes, big_endian, bytes_eq, bytes_eq_refl, bytes_eq→eq}
use drone_server.Prelude.Outcome.{ok, ◌>>=◌}

-- What the encoding and the reader agree on: numbers of 64 bits, texts and names whose length is an
-- `int16_t`, names that are not empty and are pairwise different, no null pointer, no end marker as a
-- value and no strict array, which `create_amf0data` does not know.
unfoldable mutual
  pub IsReadable : Amf0Data → Type 0
  IsReadable (number m v) = (m ≡ marker_number) × (v < 2 ^ 64)
  IsReadable (boolean m v) = m ≡ marker_boolean
  IsReadable (string m s) = (m ≡ marker_string) × (length s < 0x8000)
  IsReadable (object m ps) = (m ≡ marker_object) × AreReadable ps
  IsReadable (object_end m) = ⊥
  IsReadable (null m) = m ≡ marker_null
  IsReadable (undefined m) = m ≡ marker_undefined
  IsReadable (ecma_array m ps) = (m ≡ marker_ecma_array) × AreReadable ps
  IsReadable (strict_array m vs) = ⊥

  pub PointsToReadable : Pointer → Type 0
  PointsToReadable null_pointer = ⊥
  PointsToReadable (to v) = IsReadable v

  pub AreReadable : Properties → Type 0
  AreReadable no_properties = Unit {0}
  AreReadable (property k v ps) =
      (0 < length k)
      × (length k < 0x8000)
      × PointsToReadable v
      × (has_key k ps ≡ false)
      × AreReadable ps

-- No key of the second properties is among the first.
abbrev pub IsFresh : Properties → Properties → Type 0
IsFresh acc no_properties = Unit {0}
IsFresh acc (property k v ps) = (has_key k acc ≡ false) × IsFresh acc ps

has_key-single :
    (j k : Bytes) (v : Pointer)
    → bytes_eq j k ≡ false
    → has_key k (property j v no_properties) ≡ false
unfolding has_key
has_key-single j k v h = rw h

IsFresh-put :
    (acc ps : Properties) (k : Bytes) (v : Pointer)
    → IsFresh acc ps
    → has_key k ps ≡ false
    → IsFresh (append_properties acc (property k v no_properties)) ps
unfolding has_key
IsFresh-put acc no_properties k v f h = tt
IsFresh-put acc (property j w ps) k v f h = (
  rw (has_key-append j acc (property k v no_properties))
      (ground (arith, bytes_eq→eq k j, bytes_eq_refl k)),
  IsFresh-put acc ps k v f.1 (ground arith),
)

IsFresh-none : (ps : Properties) → IsFresh no_properties ps
unfolding has_key
IsFresh-none no_properties = tt
IsFresh-none (property k v ps) = (refl, IsFresh-none ps)

read_properties-none :
    (f : ℕ) (acc : Properties) (p r : Bytes)
    → read_properties (suc f) acc (cursor p (end_of_object ++ r))
      ≡ ok ((success, acc), cursor (p ++ end_of_object) r)
unfolding read_properties
read_properties-none f acc p r =
    rw (append_assoc (big_endian 2 0) (0x09 ∷ []) r)
      (rw (empty-word p (0x09 ∷ r) 0) (read_property-end _ _ acc p r))

create_object-emit :
    (loop : Loop) (ps : Properties) (p body r : Bytes)
    → loop no_properties (cursor (p ++ 0x03 ∷ []) (body ++ r))
      ≡ ok ((success, ps), cursor ((p ++ 0x03 ∷ []) ++ body) r)
    → create_with loop (cursor p (0x03 ∷ (body ++ r)))
      ≡ ok (to (object 0x03 ps), cursor (p ++ 0x03 ∷ body) r)
unfolding read_by_marker or_null
create_object-emit loop ps p body r h =
    rw (create-cursor loop p 0x03 (body ++ r)) (rw (read_object-emit loop 0x03 ps p body r h))

create_ecma_array-emit :
    (loop : Loop) (n : ℕ) (ps : Properties) (p body r : Bytes)
    → loop no_properties (cursor (p ++ 0x08 ∷ big_endian 4 n) (body ++ r))
      ≡ ok ((success, ps), cursor ((p ++ 0x08 ∷ big_endian 4 n) ++ body) r)
    → create_with loop (cursor p (0x08 ∷ ((big_endian 4 n ++ body) ++ r)))
      ≡ ok (to (ecma_array 0x08 ps), cursor (p ++ 0x08 ∷ (big_endian 4 n ++ body)) r)
unfolding read_by_marker or_null
create_ecma_array-emit loop n ps p body r h = rw (append_assoc (big_endian 4 n) body r) (
    rw (create-cursor loop p 0x08 (big_endian 4 n ++ (body ++ r)))
      (rw (read_ecma_array-emit loop 0x08 n ps p body r h)))

enough_for_body :
    (f : ℕ) (n ps : Bytes) → suc (length (n ++ (ps ++ end_of_object))) ≤ f → length ps < f
enough_for_body f n ps h =
    omega (arith, length-append n (ps ++ end_of_object), length-append ps end_of_object)

enough_for_value :
    (f : ℕ) (n k v ps : Bytes) → length (n ++ (k ++ (v ++ ps))) < suc f → length v ≤ f
enough_for_value f n k v ps h =
    omega (arith, length-append n (k ++ (v ++ ps)), length-append k (v ++ ps), length-append v ps)

enough_for_rest :
    (f : ℕ) (n k v ps : Bytes)
    → 0 < length k
    → length (n ++ (k ++ (v ++ ps))) < suc f
    → length ps < f
enough_for_rest f n k v ps lo h =
    omega (arith, length-append n (k ++ (v ++ ps)), length-append k (v ++ ps), length-append v ps)

-- The bytes of a property, grouped as the loop reads them.
regroup-ahead :
    (n k v ps e r : Bytes)
    → ((n ++ (k ++ (v ++ ps))) ++ e) ++ r ≡ n ++ (k ++ (v ++ ((ps ++ e) ++ r)))
regroup-ahead n k v ps e r = simp append_assoc

regroup-before :
    (p n k v ps e : Bytes)
    → p ++ ((n ++ (k ++ (v ++ ps))) ++ e) ≡ ((p ++ (n ++ k)) ++ v) ++ (ps ++ e)
regroup-before p n k v ps e = simp append_assoc

mutual
  unfolding emit IsReadable read_by_marker or_null read_boolean read_null read_undefined big_endian

  create-emit :
      (d : Amf0Data) (f : ℕ) (p r : Bytes)
      → IsReadable d
      → length (emit d) ≤ f
      → create_with (read_properties f) (cursor p (emit d ++ r)) ≡ ok (to d, cursor (p ++ emit d) r)
  create-emit (number m v) f p r w h =
      rw (w.0, create-cursor (read_properties f) p 0x00 (big_endian 8 v ++ r))
        (rw (read_number-emit 0x00 v p r w.1))
  create-emit (boolean m true) f p r w h =
      rw (w, create-cursor (read_properties f) p 0x01 (0x01 ∷ r)) (simp reads)
  create-emit (boolean m false) f p r w h =
      rw (w, create-cursor (read_properties f) p 0x01 (0x00 ∷ r)) (simp reads)
  create-emit (string m s) f p r w h =
      rw (w.0, create-cursor (read_properties f) p 0x02 ((big_endian 2 (length s) ++ s) ++ r))
        (rw (append_assoc (big_endian 2 (length s)) s r, read_amf0_string-emit 0x02 s p r w.1))
  create-emit (object m ps) f p r w h = rw w.0 (
      create_object-emit (read_properties f) ps p (emit_properties ps ++ end_of_object) r (
        read_properties-emit ps f no_properties (p ++ 0x03 ∷ []) r w.1 (IsFresh-none ps)
          (omega (arith, length-append (emit_properties ps) end_of_object))))
  create-emit (object_end m) f p r w h = absurd w
  create-emit (null m) f p r w h = rw (w, create-cursor (read_properties f) p 0x05 r) (simp reads)
  create-emit (undefined m) f p r w h =
      rw (w, create-cursor (read_properties f) p 0x06 r) (simp reads)
  create-emit (ecma_array m ps) f p r w h = rw w.0 (
      create_ecma_array-emit (read_properties f) (count ps) ps p
        (emit_properties ps ++ end_of_object) r
        (read_properties-emit ps f no_properties (p ++ 0x08 ∷ big_endian 4 (count ps)) r w.1
          (IsFresh-none ps) (enough_for_body f (big_endian 4 (count ps)) (emit_properties ps) h)))
  create-emit (strict_array m vs) f p r w h = absurd w

  create_pointer-emit :
      (v : Pointer) (f : ℕ) (p r : Bytes)
      → PointsToReadable v
      → length (emit_pointer v) ≤ f
      → create_with (read_properties f) (cursor p (emit_pointer v ++ r))
        ≡ ok (v, cursor (p ++ emit_pointer v) r)
  create_pointer-emit null_pointer f p r w h = absurd w
  create_pointer-emit (to d) f p r w h = create-emit d f p r w h

  read_properties-emit :
      (ps : Properties) (f : ℕ) (acc : Properties) (p r : Bytes)
      → AreReadable ps
      → IsFresh acc ps
      → length (emit_properties ps) < f
      → read_properties f acc (cursor p ((emit_properties ps ++ end_of_object) ++ r))
        ≡ ok (
          (success, append_properties acc ps),
          cursor (p ++ (emit_properties ps ++ end_of_object)) r,
        )
  read_properties-emit no_properties zero acc p r w fresh h = absurd (omega arith)
  read_properties-emit no_properties (suc f) acc p r w fresh h =
      rw (append_properties-nil acc) (read_properties-none f acc p r)
  read_properties-emit (property k v ps) zero acc p r w fresh h = absurd (omega arith)
  read_properties-emit (property k v ps) (suc f) acc p r w fresh h =
      let name = big_endian 2 (length k) in
      let before = (p ++ (name ++ k)) ++ emit_pointer v in
      rw (regroup-ahead name k (emit_pointer v) (emit_properties ps) end_of_object r) (
        rw (regroup-before p name k (emit_pointer v) (emit_properties ps) end_of_object) (
          read_properties-step f acc (append_properties acc (property k v ps)) k v p
            (emit_pointer v) (emit_properties ps ++ end_of_object) r w.0 w.1 fresh.0
            (create_pointer-emit v f (p ++ (name ++ k)) ((emit_properties ps ++ end_of_object) ++ r)
              w.2
              (omega (arith, enough_for_value f name k (emit_pointer v) (emit_properties ps) h)))
            (rw (← append_properties_assoc acc (property k v no_properties) ps) (
              read_properties-emit ps f (append_properties acc (property k v no_properties)) before
                r w.4 (IsFresh-put acc ps k v fresh.1 w.3)
                (enough_for_rest f name k (emit_pointer v) (emit_properties ps) w.0 h)))))

-- A readable value is writable, too.
mutual
  unfolding IsReadable IsWritable

  IsReadable-IsWritable : (d : Amf0Data) → IsReadable d → IsWritable d
  IsReadable-IsWritable (number m v) w = w.0
  IsReadable-IsWritable (boolean m v) w = w
  IsReadable-IsWritable (string m s) w = w.0
  IsReadable-IsWritable (object m ps) w = (w.0, AreReadable-AreWritable ps w.1)
  IsReadable-IsWritable (object_end m) w = absurd w
  IsReadable-IsWritable (null m) w = w
  IsReadable-IsWritable (undefined m) w = w
  IsReadable-IsWritable (ecma_array m ps) w = (w.0, AreReadable-AreWritable ps w.1)
  IsReadable-IsWritable (strict_array m vs) w = absurd w

  PointsToReadable-PointsToWritable : (v : Pointer) → PointsToReadable v → PointsToWritable v
  PointsToReadable-PointsToWritable null_pointer w = w
  PointsToReadable-PointsToWritable (to d) w = IsReadable-IsWritable d w

  AreReadable-AreWritable : (ps : Properties) → AreReadable ps → AreWritable ps
  AreReadable-AreWritable no_properties w = tt
  AreReadable-AreWritable (property k v ps) w =
      (PointsToReadable-PointsToWritable v w.2, AreReadable-AreWritable ps w.4)

-- A number of 64 bits, a boolean, a null, an undefined, a string shorter than 0x8000 bytes, or an object
-- or an ECMA array of such values under distinct names of 1 to 0x7fff bytes, written at the end of a
-- buffer that is read to its end, is read back whole by `create_amf0data`: the same value, and the buffer
-- is read to its end again. Each value in it has the marker of its class; there is no strict array, no
-- null pointer and no end of an object among the values. Fuel for each byte that was written is enough.
pub create-write :
    (d : Amf0Data) (bs : Bytes) (fuel : ℕ)
    → IsReadable d
    → length (emit d) ≤ fuel
    → (write d (exhausted bs) >>= create_amf0data fuel) ≡ ok (to d, exhausted (bs ++ emit d))
unfolding create_amf0data cursor
create-write d bs fuel w h =
    rw (write_lem d (exhausted bs) (IsReadable-IsWritable d w))
      (rw (append-nil (emit d), append-nil (bs ++ emit d)) at (create-emit d fuel bs [] w h))
