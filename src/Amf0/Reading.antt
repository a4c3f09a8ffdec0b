-- ===== src/Amf0/Reading.antt =====
-- The `read` methods of amf0.cpp and `create_amf0data`. A method is given the fields of its object
-- and returns its status and the object as the call leaves it.
use drone_server.Amf0.{
  Amf0Data, Items, Pointer, Properties, boolean, ecma_array, marker_boolean, marker_ecma_array,
  marker_null, marker_number, marker_object, marker_object_end, marker_string, marker_undefined,
  no_properties, null, null_pointer, number, object, push_item, put, strict_array, string, to,
  undefined,
}
use drone_server.Buffer.{
  Reader, empty, pure, read_1byte, read_2bytes, read_4bytes, read_8bytes, read_string, require,
  ◌>>>=◌,
}
use drone_server.Prelude.{Bool, [], false, if◌then◌else◌, not, suc, zero, ℕ, ◌-◌, ◌==◌}
use drone_server.Prelude.Bytes.{Bytes}
use drone_server.Prelude.Int.{int16, int32, pos, pos_part}
use drone_server.Prelude.Outcome.{ok, out_of_fuel, ◌>>=◌}

-- ERROR_SUCCESS and ERROR_AMF0_DECODE.
pub data Status : Type 0 where
  success decode_error : Status

-- How every `read` begins: a byte must be there, it becomes the object's marker, and it must be the
-- marker of the class. `old` is the marker before the call.
unfoldable pub expect_marker : ℕ → ℕ → Reader (Status × ℕ)
expect_marker wanted old = require (pos 1) >>>= λ enough.
    if enough
    then (read_1byte >>>= λ m. pure (if m == wanted then success else decode_error, m))
    else pure (decode_error, old)

-- The rest of a `read`: it goes on if the marker was right, and stops with the marker set if not.
abbrev pub after_marker {ℓ} :
    {A : Type ℓ} → (ℕ → A) → (ℕ → Reader (Status × A)) → Status × ℕ → Reader (Status × A)
after_marker stop go (success, m) = go m
after_marker stop go (decode_error, m) = pure (decode_error, stop m)

abbrev pub on_marker {ℓ} :
    {A : Type ℓ} → Reader (Status × ℕ) → (ℕ → A) → (ℕ → Reader (Status × A)) → Reader (Status × A)
on_marker marked stop go = marked >>>= after_marker stop go

unfoldable pub read_number : ℕ → ℕ → Reader (Status × Amf0Data)
read_number marker value =
    on_marker (expect_marker marker_number marker) (λ m. number m value)
      λ m. require (pos 8) >>>= λ enough.
        if enough
        then (read_8bytes >>>= λ temp. pure (success, number m temp))
        else pure (decode_error, number m value)

unfoldable pub read_boolean : ℕ → Bool → Reader (Status × Amf0Data)
read_boolean marker value =
    on_marker (expect_marker marker_boolean marker) (λ m. boolean m value)
      λ m. require (pos 1) >>>= λ enough.
        if enough
        then (read_1byte >>>= λ x. pure (success, boolean m (not (x == 0))))
        else pure (decode_error, boolean m value)

unfoldable pub read_amf0_string : ℕ → Bytes → Reader (Status × Amf0Data)
read_amf0_string marker value =
    on_marker (expect_marker marker_string marker) (λ m. string m value)
      λ m. require (pos 2) >>>= λ enough.
        if enough
        then (read_2bytes >>>= λ len. require (int16 len) >>>= λ there.
            if there
            then (read_string (int16 len) >>>= λ s. pure (success, string m s))
            else pure (decode_error, string m value))
        else pure (decode_error, string m value)

unfoldable pub read_null : ℕ → Reader (Status × Amf0Data)
read_null marker = on_marker (expect_marker marker_null marker) null λ m. pure (success, null m)

unfoldable pub read_undefined : ℕ → Reader (Status × Amf0Data)
read_undefined marker =
    on_marker (expect_marker marker_undefined marker) undefined λ m. pure (success, undefined m)

-- The loop over properties, given to the methods that contain it.
abbrev pub Loop : Type 0
Loop = Properties → Reader (Status × Properties)

unfoldable pub read_object : Loop → ℕ → Properties → Reader (Status × Amf0Data)
read_object loop marker ps =
    on_marker (expect_marker marker_object marker) (λ m. object m ps)
      λ m. loop ps >>>= λ r. pure (r.0, object m r.1)

-- The count is read and not used.
unfoldable pub read_ecma_array : Loop → ℕ → Properties → Reader (Status × Amf0Data)
read_ecma_array loop marker ps =
    on_marker (expect_marker marker_ecma_array marker) (λ m. ecma_array m ps)
      λ m. require (pos 4) >>>= λ enough.
        if enough
        then (read_4bytes >>>= λ count. loop ps >>>= λ r. pure (r.0, ecma_array m r.1))
        else pure (decode_error, ecma_array m ps)

abbrev pub pointer_of : Status × Amf0Data → Reader Pointer
pointer_of (success, d) = pure (to d)
pointer_of (decode_error, d) = pure null_pointer

-- `if (value->read(sb) != ERROR_SUCCESS) { freep(value); return nullptr; } return value;`
unfoldable pub or_null : Reader (Status × Amf0Data) → Reader Pointer
or_null r = r >>>= pointer_of

-- The `switch` of `create_amf0data`. A field that a constructor leaves unset is 0 here: the object is
-- dropped unless `read` sets it.
unfoldable pub read_by_marker : Loop → ℕ → Reader Pointer
read_by_marker loop m =
    if m == marker_number
    then or_null (read_number marker_number 0)
    else if m == marker_boolean
    then or_null (read_boolean marker_boolean false)
    else if m == marker_string
    then or_null (read_amf0_string marker_string [])
    else if m == marker_object
    then or_null (read_object loop marker_object no_properties)
    else if m == marker_null
    then or_null (read_null marker_null)
    else if m == marker_undefined
    then or_null (read_undefined marker_undefined)
    else if m == marker_ecma_array
    then or_null (read_ecma_array loop marker_ecma_array no_properties)
    else pure null_pointer

-- `sb->read_1byte(); sb->skip(-1);`: a byte was read, so the cursor that `skip` moves back is 1 or more.
unfoldable pub peek_1byte : Reader ℕ
peek_1byte = read_1byte >>>= λ m b. ok (m, record b { pos = b.pos - 1 })

unfoldable pub create_with : Loop → Reader Pointer
create_with loop = require (pos 1) >>>= λ enough.
    if enough then (peek_1byte >>>= λ m. read_by_marker loop m) else pure null_pointer

-- The object end, once an empty name has been read.
unfoldable pub read_object_end : Properties → Reader (Status × Properties)
read_object_end ps = require (pos 1) >>>= λ enough.
    if enough
    then (read_1byte >>>= λ m. pure (if m == marker_object_end then success else decode_error, ps))
    else pure (decode_error, ps)

-- One round of `while (!sb->empty())`; `again` makes the next.
unfoldable pub read_property : Reader Pointer → Loop → Loop
read_property create again ps = require (pos 2) >>>= λ enough.
    if enough
    then (read_2bytes >>>= λ len. require (int16 len) >>>= λ there.
        if there
        then (if len == 0
            then read_object_end ps
            else (read_string (int16 len) >>>= λ name. create >>>= λ v. again (put name v ps)))
        else pure (decode_error, ps))
    else pure (decode_error, ps)

-- The loop on fuel. Each round and each level of nesting costs one unit, and reads a byte or more.
unfoldable pub read_properties : ℕ → Loop
read_properties zero ps b = out_of_fuel
read_properties (suc fuel) ps b =
    if empty b
    then ok ((success, ps), b)
    else read_property (create_with (read_properties fuel)) (read_properties fuel) ps b

unfoldable pub create_amf0data : ℕ → Reader Pointer
create_amf0data fuel = create_with (read_properties fuel)

-- The loop of `Amf0StrictArray::read`, on the rounds left.
unfoldable pub read_items : Reader Pointer → ℕ → Items → Reader Items
read_items create zero vs b = ok (vs, b)
read_items create (suc i) vs b =
    if empty b then ok (vs, b) else (create b >>= λ r. read_items create i (push_item vs r.0) r.1)

-- The marker that it tests for is the one of an ECMA array; a negative count makes no round.
unfoldable pub read_strict_array : Reader Pointer → ℕ → Items → Reader (Status × Amf0Data)
read_strict_array create marker vs =
    on_marker (expect_marker marker_ecma_array marker) (λ m. strict_array m vs)
      λ m. require (pos 4) >>>= λ enough.
        if enough
        then (read_4bytes >>>= λ count. read_items create (pos_part (int32 count)) vs >>>= λ vs'.
            pure (success, strict_array m vs'))
        else pure (decode_error, strict_array m vs)
