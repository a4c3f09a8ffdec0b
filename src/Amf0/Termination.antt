-- ===== src/Amf0/Termination.antt =====
-- The recursion of create_amf0data of amf0.cpp and its fuel.
use drone_server.Amf0.{
  Amf0Data, Pointer, Properties, marker_boolean, marker_ecma_array, marker_null, marker_number,
  marker_object, marker_string, marker_undefined, no_properties, put,
}
use drone_server.Amf0.Progress.{
  LoopsWithin, Within-guarded, Within-on_marker, or_null-Within, read_amf0_string-Within,
  read_boolean-Within, read_ecma_array-Within, read_number-Within, read_object-Within,
}
use drone_server.Amf0.Reading.{
  Loop, Status, create_amf0data, create_with, or_null, peek_1byte, read_amf0_string, read_boolean,
  read_by_marker, read_ecma_array, read_null, read_number, read_object, read_object_end,
  read_properties, read_property, read_undefined,
}
use drone_server.Buffer.{Reader, SimpleBuffer, empty, read_1byte, read_2bytes, read_string}
use drone_server.Buffer.Progress.{
  InRange, Within, Within-bind, Within-mono, read_1byte-Within, read_2bytes-Within,
  read_string-Within, unread,
}
use drone_server.Prelude.{
  Bool, [], arith, false, if◌then◌else◌, le_refl, length, suc, true, zero, ℕ, ◌-◌, ◌<◌, ◌==◌, ◌≡◌,
  ◌≤◌,
}
use drone_server.Prelude.Int.{int16, pos}
use drone_server.Prelude.Outcome.{Ensures, Ensures-if, Outcome, ok}

Within-if {ℓ} :
    {A : Type ℓ} (t : Bool) (k : ℕ) (b : SimpleBuffer) (x y : Reader A)
    → Within k (x b)
    → Within k (y b)
    → Within k ((if t then x else y) b)
Within-if true k b x y h g = h
Within-if false k b x y h g = g

read_null-Within :
    (m k : ℕ) (b : SimpleBuffer) → InRange b → unread b ≤ suc k → Within k (read_null m b)
unfolding read_null
read_null-Within m k b h u =
    Within-on_marker marker_null m k k b _ _ h u (le_refl k) λ x b' h' u'. (h', u')

read_undefined-Within :
    (m k : ℕ) (b : SimpleBuffer) → InRange b → unread b ≤ suc k → Within k (read_undefined m b)
unfolding read_undefined
read_undefined-Within m k b h u =
    Within-on_marker marker_undefined m k k b _ _ h u (le_refl k) λ x b' h' u'. (h', u')

read_by_marker-Within :
    (f k m : ℕ) (loop : Loop) (b : SimpleBuffer)
    → LoopsWithin f loop
    → InRange b
    → unread b ≤ suc k
    → k < f
    → Within (suc k) (read_by_marker loop m b)
unfolding read_by_marker
read_by_marker-Within f k m loop b ih h u lt =
    let weaken = λ (r : Outcome (Pointer × SimpleBuffer)). Within-mono k (suc k) r (omega arith) in
    let or_weaken = λ (r : Reader (Status × Amf0Data)) (w : Within k (r b)).
      weaken (or_null r b) (or_null-Within k b r w) in
    Within-if (m == marker_number) (suc k) b _ _
      (or_weaken (read_number marker_number 0) (read_number-Within _ _ k b h u))
      (Within-if (m == marker_boolean) (suc k) b _ _
        (or_weaken (read_boolean marker_boolean false) (read_boolean-Within _ k _ b h u))
        (Within-if (m == marker_string) (suc k) b _ _
          (or_weaken (read_amf0_string marker_string []) (read_amf0_string-Within _ k _ b h u))
          (Within-if (m == marker_object) (suc k) b _ _
            (or_weaken (read_object loop marker_object no_properties)
              (read_object-Within f _ k loop _ b ih h u lt))
            (Within-if (m == marker_null) (suc k) b _ _
              (or_weaken (read_null marker_null) (read_null-Within _ k b h u))
              (Within-if (m == marker_undefined) (suc k) b _ _
                (or_weaken (read_undefined marker_undefined) (read_undefined-Within _ k b h u))
                (Within-if (m == marker_ecma_array) (suc k) b _ _
                  (or_weaken (read_ecma_array loop marker_ecma_array no_properties)
                    (read_ecma_array-Within f _ k loop _ b ih h u lt))
                  (h, u)))))))

-- Looking at the next byte leaves as much unread as there was.
peek-Within :
    (k : ℕ) (b : SimpleBuffer) → InRange b → unread b ≤ suc k → Within (suc k) (peek_1byte b)
unfolding peek_1byte
peek-Within k b h u =
    Within-bind k (suc k) b read_1byte _ (read_1byte-Within k b h u) λ m b' h' u'. back m b' h' u'
  where
    back :
        (m : ℕ) (c : SimpleBuffer)
        → InRange c
        → unread c ≤ k
        → Within (suc k) (ok (m, record c { pos = c.pos - 1 }))
    back m c hc uc = ground arith

create-Within :
    (f k : ℕ) (loop : Loop) (b : SimpleBuffer)
    → LoopsWithin f loop
    → InRange b
    → unread b ≤ k
    → k ≤ f
    → Within k (create_with loop b)
unfolding create_with
create-Within f zero loop b ih h u le =
    Within-guarded (pos 1) 0 b _ _ h u λ n e there. absurd (none_left n e there)
  where
    none_left : (n : ℕ) → pos 1 ≡ pos n → n ≤ unread b → ⊥
    none_left n e there = ground arith
create-Within f (suc k) loop b ih h u le = Within-guarded (pos 1) (suc k) b _ _ h u λ n e there.
    Within-bind (suc k) (suc k) b peek_1byte _ (peek-Within k b h u)
      λ m c hc uc. read_by_marker-Within f k m loop c ih hc uc (omega arith)

read_object_end-Within :
    (k : ℕ) (ps : Properties) (b : SimpleBuffer)
    → InRange b
    → unread b ≤ k
    → Within k (read_object_end ps b)
unfolding read_object_end
read_object_end-Within k ps b h u = Within-guarded (pos 1) k b _ _ h u λ n e there.
    Within-bind k k b read_1byte _ (read_1byte-Within k b h (omega arith)) λ m c hc uc. (hc, uc)

read_property-Within :
    (f k : ℕ) (loop : Loop) (ps : Properties) (b : SimpleBuffer)
    → LoopsWithin f loop
    → InRange b
    → unread b ≤ k
    → k ≤ f
    → Within k (read_property (create_with loop) loop ps b)
unfolding read_property
read_property-Within f (suc (suc j)) loop ps b ih h u le =
    Within-guarded (pos 2) (suc (suc j)) b _ _ h u λ n e there.
      Within-bind j (suc (suc j)) b read_2bytes _ (read_2bytes-Within j b h (omega arith))
        λ len c hc uc. Within-guarded (int16 len) (suc (suc j)) c _ _ hc (omega arith) λ l el fits.
          Within-mono j (suc (suc j)) _ (omega arith) (
            Within-if (len == 0) j c _ _ (read_object_end-Within j ps c hc uc) (
              Within-bind j j c (read_string (int16 len)) _
                (read_string-Within (int16 len) j c hc uc)
                λ name d hd ud.
                  Within-bind j j d (create_with loop) _
                    (create-Within f j loop d ih hd ud (omega arith))
                    λ v e' he ue. ih (put name v ps) j e' he ue (omega arith)))
read_property-Within f k loop ps b ih h u le =
    Within-guarded (pos 2) k b _ _ h u λ n e there. absurd (too_few n e there)
  where
    too_few : (n : ℕ) → pos 2 ≡ pos n → n ≤ unread b → ⊥
    too_few n e there = ground arith

read_properties-LoopsWithin : (f : ℕ) → LoopsWithin f (read_properties f)
unfolding read_properties
read_properties-LoopsWithin zero ps k b h u lt = absurd (omega arith)
read_properties-LoopsWithin (suc f) ps k b h u lt =
    Ensures-if (λ r. InRange r.1 × (unread r.1 ≤ k)) (empty b) _ _ (λ _. (h, u))
      λ _.
        read_property-Within f k (read_properties f) ps b (read_properties-LoopsWithin f) h u
          (omega arith)

-- On every buffer whose cursor is in range, fuel for each unread byte is enough for
-- `create_amf0data`: it faults, or it returns a pointer, with the cursor in range and no more bytes
-- unread than before. It never runs out of fuel.
pub create_amf0data_total :
    (b : SimpleBuffer) (fuel : ℕ)
    → b.pos ≤ length b.content
    → unread b ≤ fuel
    → Ensures (λ r. InRange r.1 × (unread r.1 ≤ unread b)) (create_amf0data fuel b)
unfolding create_amf0data
create_amf0data_total b fuel h u =
    create-Within fuel (unread b) (read_properties fuel) b (read_properties-LoopsWithin fuel) h
      (le_refl (unread b)) u
