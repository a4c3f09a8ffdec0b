-- ===== src/Amf0/Examples.antt =====
-- Values of amf0.cpp on concrete input.
use drone_server.Amf0.{
  Amf0Data, Items, Properties, boolean, count_items, has_key, item, marker_boolean, marker_number,
  marker_object, marker_strict_array, no_items, no_properties, null_pointer, number, object,
  property, put, strict_array, to, value_at,
}
use drone_server.Amf0.Arrays.{create-long_string, read_strict_array-write}
use drone_server.Amf0.Encoding.{IsWritable, emit, emit_items}
use drone_server.Amf0.Keys.{HasDistinctKeys, put_lem}
use drone_server.Amf0.Reading.{create_amf0data, decode_error, read_strict_array}
use drone_server.Amf0.RoundTrip.{IsReadable, create-write}
use drone_server.Amf0.Standard.{IsEncodable, encode, write-encode}
use drone_server.Amf0.Termination.{create_amf0data_total}
use drone_server.Amf0.Writing.{write}
use drone_server.Buffer.Cursor.{cursor}
use drone_server.Buffer.Progress.{InRange, unread}
use drone_server.Buffer.Words.{exhausted}
use drone_server.Prelude.{[], arith, if◌then◌else◌, refl, true, ◌++◌, ◌∷◌, ◌≡◌, ◌≤◌}
use drone_server.Prelude.Bytes.{Bytes, big_endian, bytes_eq}
use drone_server.Prelude.Outcome.{Ensures, fault, ok, ◌>>=◌}

-- { "a": 3.0, "b": [true] } with the array as an object { "c": true }.
abbrev small_object : Amf0Data
small_object = object marker_object (
    property (0x61 ∷ []) (to (number marker_number 0x4008_0000_0000_0000)) (
      property (0x62 ∷ [])
        (to (
          object marker_object
            (property (0x63 ∷ []) (to (boolean marker_boolean true)) no_properties)))
        no_properties))

small_object-IsReadable : IsReadable small_object
unfolding IsReadable has_key bytes_eq
small_object-IsReadable = (
  refl,
  (
    omega arith,
    omega arith,
    (refl, omega arith),
    refl,
    (omega arith, omega arith, (refl, (omega arith, omega arith, refl, refl, tt)), refl, tt),
  ),
)

create-write_example :
    (write small_object (exhausted []) >>= create_amf0data 40)
    ≡ ok (to small_object, exhausted ([] ++ emit small_object))
unfolding emit big_endian
create-write_example = create-write small_object [] 40 small_object-IsReadable (omega arith)

-- Three bytes of a string that says it has more.
create_amf0data_total_example :
    Ensures
      (λ r. InRange r.1 × (unread r.1 ≤ unread (record { content = 2 ∷ 0 ∷ 9 ∷ []; pos = 0 })))
      (create_amf0data 3 (record { content = 2 ∷ 0 ∷ 9 ∷ []; pos = 0 }))
create_amf0data_total_example =
    create_amf0data_total (record { content = 2 ∷ 0 ∷ 9 ∷ []; pos = 0 }) 3 (omega arith)
      (omega arith)

-- { "a": true }
abbrev flag_object : Amf0Data
flag_object =
    object marker_object (property (0x61 ∷ []) (to (boolean marker_boolean true)) no_properties)

write-encode_example :
    write flag_object (exhausted (7 ∷ []))
    ≡ ok (record { content = 7 ∷ 3 ∷ 0 ∷ 1 ∷ 0x61 ∷ 1 ∷ 1 ∷ 0 ∷ 0 ∷ 9 ∷ []; pos = 1 })
unfolding IsEncodable encode
write-encode_example = write-encode flag_object (exhausted (7 ∷ [])) (refl, (omega arith, refl, tt))

abbrev two_properties : Properties
two_properties =
    property (0x61 ∷ []) (to (boolean marker_boolean true))
      (property (0x62 ∷ []) null_pointer no_properties)

put_lem_example :
    HasDistinctKeys (put (0x61 ∷ []) null_pointer two_properties)
    × ((key : Bytes)
        → value_at key (put (0x61 ∷ []) null_pointer two_properties)
          ≡ (if bytes_eq (0x61 ∷ []) key then null_pointer else value_at key two_properties))
unfolding has_key bytes_eq
put_lem_example = put_lem (0x61 ∷ []) null_pointer two_properties (refl, (refl, tt))

create-long_string_example :
    create_amf0data 9 (cursor [] (0x02 ∷ (big_endian 2 0x8000 ++ 1 ∷ 2 ∷ []))) ≡ fault
create-long_string_example = create-long_string 9 0x8000 [] (1 ∷ 2 ∷ []) (omega arith) (omega arith)

abbrev one_item : Items
one_item = item (to (boolean marker_boolean true)) no_items

read_strict_array-write_example :
    (write (strict_array marker_strict_array one_item) (exhausted []) >>= λ b.
    read_strict_array (create_amf0data 9) marker_strict_array no_items b)
    ≡ ok (
      (decode_error, strict_array marker_strict_array no_items),
      cursor
          ([] ++ marker_strict_array ∷ [])
          (big_endian 4 (count_items one_item) ++ emit_items one_item),
    )
unfolding IsWritable
read_strict_array-write_example =
    read_strict_array-write (create_amf0data 9) one_item no_items [] marker_strict_array (refl, tt)
