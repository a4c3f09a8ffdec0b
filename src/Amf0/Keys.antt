-- ===== src/Amf0/Keys.antt =====
-- Amf0ObjectProperty as a dictionary.
use drone_server.Amf0.{
  Pointer, Properties, erase_key, has_key, no_properties, null_pointer, property, push_property,
  put, value_at,
}
use drone_server.Prelude.{Bool-cases, ap, arith, false, if◌then◌else◌, inl, inr, refl, ◌||◌, ◌≡◌}
use drone_server.Prelude.Bytes.{Bytes, bytes_eq, bytes_eq_refl, bytes_eq→eq}

-- Keys are pairwise different.
abbrev pub HasDistinctKeys : Properties → Type 0
HasDistinctKeys no_properties = Unit {0}
HasDistinctKeys (property k v ps) = (has_key k ps ≡ false) × HasDistinctKeys ps

abbrev pub append_properties : Properties → Properties → Properties
append_properties no_properties qs = qs
append_properties (property k v ps) qs = property k v (append_properties ps qs)

pub push_property_lem :
    (ps : Properties) (k : Bytes) (v : Pointer)
    → push_property ps k v ≡ append_properties ps (property k v no_properties)
unfolding push_property
push_property_lem no_properties k v = refl
push_property_lem (property j w ps) k v = ap (property j w) (push_property_lem ps k v)

pub append_properties_assoc :
    (ps qs rs : Properties)
    → append_properties (append_properties ps qs) rs
      ≡ append_properties ps (append_properties qs rs)
append_properties_assoc no_properties qs rs = refl
append_properties_assoc (property k v ps) qs rs =
    ap (property k v) (append_properties_assoc ps qs rs)

pub append_properties-nil : (ps : Properties) → append_properties ps no_properties ≡ ps
append_properties-nil no_properties = refl
append_properties-nil (property k v ps) = ap (property k v) (append_properties-nil ps)

pub has_key-append :
    (key : Bytes) (ps qs : Properties)
    → has_key key (append_properties ps qs) ≡ (has_key key ps || has_key key qs)
unfolding has_key
has_key-append key no_properties qs = refl
has_key-append key (property k v ps) qs = ground (arith, has_key-append key ps qs)

-- A key that is not there is put at the end.
pub put_new :
    (k : Bytes) (v : Pointer) (ps : Properties)
    → has_key k ps ≡ false
    → put k v ps ≡ append_properties ps (property k v no_properties)
unfolding put
put_new k v ps h = rw h (push_property_lem ps k v)

has_key-push :
    (key k : Bytes) (v : Pointer) (ps : Properties)
    → has_key key (push_property ps k v) ≡ (has_key key ps || bytes_eq k key)
unfolding has_key push_property
has_key-push key k v no_properties = ground arith
has_key-push key k v (property j w ps) = ground (arith, has_key-push key k v ps)

has_key-erase_other :
    (key k : Bytes) (ps : Properties)
    → bytes_eq k key ≡ false
    → has_key key (erase_key k ps) ≡ has_key key ps
unfolding has_key erase_key
has_key-erase_other key k no_properties h = refl
has_key-erase_other key k (property j w ps) h =
    ground (arith, has_key-erase_other key k ps h, bytes_eq→eq j k)

value_at-push :
    (key k : Bytes) (v : Pointer) (ps : Properties)
    → value_at key (push_property ps k v)
      ≡ (if has_key key ps then value_at key ps else if bytes_eq k key then v else null_pointer)
unfolding has_key push_property value_at
value_at-push key k v no_properties = refl
value_at-push key k v (property j w ps) = ground (arith, value_at-push key k v ps)

value_at-erase_other :
    (key k : Bytes) (ps : Properties)
    → bytes_eq k key ≡ false
    → value_at key (erase_key k ps) ≡ value_at key ps
unfolding value_at erase_key
value_at-erase_other key k no_properties h = refl
value_at-erase_other key k (property j w ps) h =
    ground (arith, value_at-erase_other key k ps h, bytes_eq→eq j k)

value_at_missing :
    (key : Bytes) (ps : Properties) → has_key key ps ≡ false → value_at key ps ≡ null_pointer
unfolding has_key value_at
value_at_missing key no_properties h = refl
value_at_missing key (property k v ps) h = ground (arith, value_at_missing key ps)

has_key-erase_self :
    (k : Bytes) (ps : Properties) → HasDistinctKeys ps → has_key k (erase_key k ps) ≡ false
unfolding has_key erase_key
has_key-erase_self k no_properties d = refl
has_key-erase_self k (property j w ps) d =
    ground (arith, has_key-erase_self k ps d.1, bytes_eq→eq j k)

-- erasing keeps the other keys absent, too
has_key-erase_le :
    (key k : Bytes) (ps : Properties)
    → has_key key ps ≡ false
    → has_key key (erase_key k ps) ≡ false
unfolding has_key erase_key
has_key-erase_le key k no_properties h = refl
has_key-erase_le key k (property j w ps) h = ground (arith, has_key-erase_le key k ps)

erase_key-HasDistinctKeys :
    (k : Bytes) (ps : Properties) → HasDistinctKeys ps → HasDistinctKeys (erase_key k ps)
unfolding erase_key
erase_key-HasDistinctKeys k no_properties d = tt
erase_key-HasDistinctKeys k (property j w ps) d =
    ground (arith, erase_key-HasDistinctKeys k ps d.1, has_key-erase_le j k ps d.0)

push_property-HasDistinctKeys :
    (k : Bytes) (v : Pointer) (ps : Properties)
    → has_key k ps ≡ false
    → HasDistinctKeys ps
    → HasDistinctKeys (push_property ps k v)
unfolding push_property has_key
push_property-HasDistinctKeys k v no_properties h d = (refl, tt)
push_property-HasDistinctKeys k v (property j w ps) h d = (
  rw (has_key-push j k v ps) (ground (arith, bytes_eq→eq k j, bytes_eq_refl k)),
  push_property-HasDistinctKeys k v ps (ground arith) d.1,
)

-- The properties without the key.
abbrev without : Bytes → Properties → Properties
without k ps = if has_key k ps then erase_key k ps else ps

has_key-without :
    (k : Bytes) (ps : Properties) → HasDistinctKeys ps → has_key k (without k ps) ≡ false
has_key-without k ps d = ground (arith, has_key-erase_self k ps d)

without-HasDistinctKeys :
    (k : Bytes) (ps : Properties) → HasDistinctKeys ps → HasDistinctKeys (without k ps)
without-HasDistinctKeys k ps d = elim (Bool-cases (has_key k ps)) [
  | inl e ↦ rw e (erase_key-HasDistinctKeys k ps d)
  | inr e ↦ rw e d
]

value_at-without_other :
    (key k : Bytes) (ps : Properties)
    → bytes_eq k key ≡ false
    → value_at key (without k ps) ≡ value_at key ps
value_at-without_other key k ps h = ground (arith, value_at-erase_other key k ps h)

value_at-put :
    (key k : Bytes) (v : Pointer) (ps : Properties)
    → HasDistinctKeys ps
    → value_at key (push_property (without k ps) k v)
      ≡ (if bytes_eq k key then v else value_at key ps)
value_at-put key k v ps d = elim (Bool-cases (bytes_eq k key)) [
  | inl same ↦
      rw (← bytes_eq→eq k key same)
        (rw (value_at-push k k v (without k ps), has_key-without k ps d, bytes_eq_refl k))
  | inr other ↦
      rw (value_at-push key k v (without k ps), other)
        (ground (arith, value_at-without_other key k ps other, value_at_missing key (without k ps)))
]

-- From properties with distinct keys, `put` makes properties with distinct keys in which the key has
-- the new value and every other key has the value that it had.
pub put_lem :
    (k : Bytes) (v : Pointer) (ps : Properties)
    → HasDistinctKeys ps
    → HasDistinctKeys (put k v ps)
      × ((key : Bytes)
          → value_at key (put k v ps) ≡ (if bytes_eq k key then v else value_at key ps))
unfolding put
put_lem k v ps d = (
  push_property-HasDistinctKeys k v (without k ps) (has_key-without k ps d)
      (without-HasDistinctKeys k ps d),
  λ key. value_at-put key k v ps d,
)
