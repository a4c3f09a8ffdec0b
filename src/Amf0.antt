-- ===== src/Amf0.antt =====
-- src/rtmp/src/DDS/rtmp/amf0/: the values of AMF0, which commands are made of. Here the classes of
-- amf0.h as data and the operations on properties; the children write and read them.
pub mod Writing
pub mod Reading
pub mod Keys
pub mod Encoding
pub mod Standard
pub mod Progress
pub mod Decoding
pub mod RoundTrip
pub mod Termination
pub mod Arrays
mod Examples
use drone_server.Prelude.{Bool, false, if◌then◌else◌, suc, zero, ℕ, ◌||◌}
use drone_server.Prelude.Bytes.{Bytes, bytes_eq}
use drone_server.Prelude.Outcome.{Outcome, fault, ok}

-- AMF0_MARKER.
abbrev pub marker_number : ℕ
marker_number = 0x00

abbrev pub marker_boolean : ℕ
marker_boolean = 0x01

abbrev pub marker_string : ℕ
marker_string = 0x02

abbrev pub marker_object : ℕ
marker_object = 0x03

abbrev pub marker_null : ℕ
marker_null = 0x05

abbrev pub marker_undefined : ℕ
marker_undefined = 0x06

abbrev pub marker_ecma_array : ℕ
marker_ecma_array = 0x08

abbrev pub marker_object_end : ℕ
marker_object_end = 0x09

abbrev pub marker_strict_array : ℕ
marker_strict_array = 0x0a

-- The classes below Amf0Data, each with its `marker`. A `double` is its bit pattern. A pointer to a
-- value can be null.
mutual
  pub data Amf0Data : Type 0 where
    number : ℕ → ℕ → Amf0Data
    boolean : ℕ → Bool → Amf0Data
    string : ℕ → Bytes → Amf0Data
    object : ℕ → Properties → Amf0Data
    object_end : ℕ → Amf0Data
    null : ℕ → Amf0Data
    undefined : ℕ → Amf0Data
    ecma_array : ℕ → Properties → Amf0Data
    strict_array : ℕ → Items → Amf0Data

  pub data Pointer : Type 0 where
    null_pointer : Pointer
    to : Amf0Data → Pointer

  pub data Properties : Type 0 where
    no_properties : Properties
    property : Bytes → Pointer → Properties → Properties

  pub data Items : Type 0 where
    no_items : Items
    item : Pointer → Items → Items

-- The constructors of the classes, with the value they are given.
abbrev pub new_number : ℕ → Amf0Data
new_number val = number marker_number val

abbrev pub new_boolean : Bool → Amf0Data
new_boolean val = boolean marker_boolean val

abbrev pub new_string : Bytes → Amf0Data
new_string val = string marker_string val

abbrev pub new_null : Amf0Data
new_null = null marker_null

-- Amf0ObjectProperty: `std::find_if` of a key.
unfoldable pub has_key : Bytes → Properties → Bool
has_key key no_properties = false
has_key key (property k v ps) = bytes_eq k key || has_key key ps

-- `properties.erase(it)` of the first property with the key.
unfoldable pub erase_key : Bytes → Properties → Properties
erase_key key no_properties = no_properties
erase_key key (property k v ps) = if bytes_eq k key then ps else property k v (erase_key key ps)

unfoldable pub push_property : Properties → Bytes → Pointer → Properties
push_property no_properties key value = property key value no_properties
push_property (property k v ps) key value = property k v (push_property ps key value)

unfoldable pub put : Bytes → Pointer → Properties → Properties
unfolding has_key erase_key push_property
put key value ps = push_property (if has_key key ps then erase_key key ps else ps) key value

unfoldable pub value_at : Bytes → Properties → Pointer
value_at key no_properties = null_pointer
value_at key (property k v ps) = if bytes_eq k key then v else value_at key ps

unfoldable pub count : Properties → ℕ
count no_properties = 0
count (property k v ps) = suc (count ps)

-- `key_at(int)` and `value_at(int)`: a negative index, or one out of range, fails the `assert`.
unfoldable pub key_at : ℕ → Properties → Outcome Bytes
key_at i no_properties = fault
key_at zero (property k v ps) = ok k
key_at (suc i) (property k v ps) = key_at i ps

unfoldable pub value_at_index : ℕ → Properties → Outcome Pointer
value_at_index i no_properties = fault
value_at_index zero (property k v ps) = ok v
value_at_index (suc i) (property k v ps) = value_at_index i ps

unfoldable pub count_items : Items → ℕ
count_items no_items = 0
count_items (item v vs) = suc (count_items vs)

unfoldable pub push_item : Items → Pointer → Items
push_item no_items value = item value no_items
push_item (item v vs) value = item v (push_item vs value)
