-- ===== src/Amf0/Progress.antt =====
-- How far the readers of amf0.cpp move the cursor.
use drone_server.Amf0.{
  Amf0Data, Properties, marker_boolean, marker_ecma_array, marker_number, marker_object,
  marker_string,
}
use drone_server.Amf0.Reading.{
  Loop, Status, after_marker, decode_error, expect_marker, on_marker, or_null, pointer_of,
  read_amf0_string, read_boolean, read_ecma_array, read_number, read_object, success,
}
use drone_server.Buffer.{
  Reader, SimpleBuffer, pure, read_1byte, read_2bytes, read_4bytes, read_8bytes, read_string,
  require, ◌>>>=◌,
}
use drone_server.Buffer.Progress.{
  InRange, Within, Within-bind, Within-require, read_1byte-Within, read_2bytes-Within,
  read_4bytes-Within, read_8bytes-Within, read_string-Within, unread,
}
use drone_server.Prelude.{Bool, arith, if◌then◌else◌, le_refl, suc, ℕ, ◌<◌, ◌≡◌, ◌≤◌}
use drone_server.Prelude.Bytes.{Bytes}
use drone_server.Prelude.Int.{int16, pos, ℤ}

pub expect_marker-Within :
    (m old k : ℕ) (b : SimpleBuffer)
    → InRange b
    → unread b ≤ suc k
    → Within k (expect_marker m old b)
unfolding expect_marker
expect_marker-Within m old k b h u =
    Within-require (pos 1) k b _ _ h
      (λ n e there.
        Within-bind k k b read_1byte _ (read_1byte-Within k b h u) (λ x b' h' u'. (h', u')))
      (λ n e short. (h, shorter n e short))
  where
    shorter : (n : ℕ) → pos 1 ≡ pos n → unread b < n → unread b ≤ k
    shorter n e short = ground arith

pub Within-on_marker {ℓ} :
    {A : Type ℓ} (m old j k : ℕ) (b : SimpleBuffer) (stop : ℕ → A) (go : ℕ → Reader (Status × A))
    → InRange b
    → unread b ≤ suc j
    → j ≤ k
    → ((x : ℕ) (b' : SimpleBuffer) → InRange b' → unread b' ≤ j → Within k (go x b'))
    → Within k (on_marker (expect_marker m old) stop go b)
Within-on_marker m old j k b stop go h u le rest =
    Within-bind j k b (expect_marker m old) (after_marker stop go)
      (expect_marker-Within m old j b h u) branch
  where
    branch :
        (r : Status × ℕ) (b' : SimpleBuffer)
        → InRange b'
        → unread b' ≤ j
        → Within k (after_marker stop go r b')
    branch (success, x) b' h' u' = rest x b' h' u'
    branch (decode_error, x) b' h' u' = (h', omega arith)

-- A test for `n` bytes, then a read in the branch that has them; the other branch leaves the buffer.
pub Within-guarded {ℓ} :
    {A : Type ℓ} (z : ℤ) (k : ℕ) (b : SimpleBuffer) (go : Reader A) (a : A)
    → InRange b
    → unread b ≤ k
    → ((n : ℕ) → z ≡ pos n → n ≤ unread b → Within k (go b))
    → Within k ((require z >>>= λ enough. if enough then go else pure a) b)
Within-guarded z k b go a h u rest = Within-require z k b go (pure a) h rest (λ n e short. (h, u))

pub read_number-Within :
    (m v k : ℕ) (b : SimpleBuffer) → InRange b → unread b ≤ suc k → Within k (read_number m v b)
unfolding read_number
read_number-Within m v k b h u =
    Within-on_marker marker_number m k k b _ _ h u (le_refl k) λ x b' h' u'.
      Within-guarded (pos 8) k b' _ _ h' u' λ n e there.
        Within-bind k k b' read_8bytes _ (read_8bytes-Within k b' h' (omega arith))
          λ t b'' h'' u''. (h'', u'')

pub read_boolean-Within :
    (m k : ℕ) (v : Bool) (b : SimpleBuffer)
    → InRange b
    → unread b ≤ suc k
    → Within k (read_boolean m v b)
unfolding read_boolean
read_boolean-Within m k v b h u =
    Within-on_marker marker_boolean m k k b _ _ h u (le_refl k) λ x b' h' u'.
      Within-guarded (pos 1) k b' _ _ h' u' λ n e there.
        Within-bind k k b' read_1byte _ (read_1byte-Within k b' h' (omega arith))
          λ t b'' h'' u''. (h'', u'')

pub read_amf0_string-Within :
    (m k : ℕ) (v : Bytes) (b : SimpleBuffer)
    → InRange b
    → unread b ≤ suc k
    → Within k (read_amf0_string m v b)
unfolding read_amf0_string
read_amf0_string-Within m k v b h u =
    Within-on_marker marker_string m k k b _ _ h u (le_refl k) λ x b' h' u'.
      Within-guarded (pos 2) k b' _ _ h' u' λ n e there.
        Within-bind k k b' read_2bytes _ (read_2bytes-Within k b' h' (omega arith)) λ len c hc uc.
          Within-guarded (int16 len) k c _ _ hc uc λ l el fits.
            Within-bind k k c (read_string (int16 len)) _ (read_string-Within (int16 len) k c hc uc)
              λ t d hd ud. (hd, ud)

-- What is asked of the loop over properties: it keeps within any bound that is below the fuel.
abbrev pub LoopsWithin : ℕ → Loop → Type 0
LoopsWithin f loop =
    (ps : Properties) (k : ℕ) (b : SimpleBuffer)
    → InRange b
    → unread b ≤ k
    → k < f
    → Within k (loop ps b)

pub read_object-Within :
    (f m k : ℕ) (loop : Loop) (ps : Properties) (b : SimpleBuffer)
    → LoopsWithin f loop
    → InRange b
    → unread b ≤ suc k
    → k < f
    → Within k (read_object loop m ps b)
unfolding read_object
read_object-Within f m k loop ps b ih h u lt =
    Within-on_marker marker_object m k k b _ _ h u (le_refl k)
      λ x b' h' u'. Within-bind k k b' (loop ps) _ (ih ps k b' h' u' lt) λ r c hc uc. (hc, uc)

pub read_ecma_array-Within :
    (f m k : ℕ) (loop : Loop) (ps : Properties) (b : SimpleBuffer)
    → LoopsWithin f loop
    → InRange b
    → unread b ≤ suc k
    → k < f
    → Within k (read_ecma_array loop m ps b)
unfolding read_ecma_array
read_ecma_array-Within f m k loop ps b ih h u lt =
    Within-on_marker marker_ecma_array m k k b _ _ h u (le_refl k) λ x b' h' u'.
      Within-guarded (pos 4) k b' _ _ h' u' λ n e there.
        Within-bind k k b' read_4bytes _ (read_4bytes-Within k b' h' (omega arith))
          λ count c hc uc. Within-bind k k c (loop ps) _ (ih ps k c hc uc lt) λ r d hd ud. (hd, ud)

pub or_null-Within :
    (k : ℕ) (b : SimpleBuffer) (r : Reader (Status × Amf0Data))
    → Within k (r b)
    → Within k (or_null r b)
unfolding or_null
or_null-Within k b r h = Within-bind k k b r pointer_of h branch
  where
    branch :
        (a : Status × Amf0Data) (c : SimpleBuffer)
        → InRange c
        → unread c ≤ k
        → Within k (pointer_of a c)
    branch (success, d) c hc uc = (hc, uc)
    branch (decode_error, d) c hc uc = (hc, uc)
