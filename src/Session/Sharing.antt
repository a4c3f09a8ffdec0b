-- ===== src/Session/Sharing.antt =====
-- The map `streams_` of rtmp_session_command_message.cpp, that all sessions share.
use drone_server.Media.Membership.{IsValid, join-IsValid, leave-IsValid}
use drone_server.Media.Stream.{Stream, add_peer, is_peer, is_some, join, leave, start_peers}
use drone_server.Prelude.{
  Bool, Bool-cases, List, Option, Option-cases, [], ap, arith, false, if◌then◌else◌, inl, inr,
  length, length-append, none, refl, some, subst, suc, true, ℕ, ◌&&◌, ◌<◌, ◌==◌, ◌∙◌, ◌∷◌, ◌≡◌,
}
use drone_server.Prelude.Bytes.{Bytes, bytes_eq, bytes_eq→eq}
use drone_server.Session.World.{StreamMap, World, leave_stream, update_stream}

-- What a place of the map holds: nothing, or a stream in order, made for that place, with peers.
abbrev pub Holding : Bytes → Option Stream → Type 0
Holding url none = Unit {0}
Holding url (some st) = IsValid st × (st.url ≡ url) × (0 < length st.peers)

abbrev pub IsSound : StreamMap → Type 0
IsSound streams = (url : Bytes) → Holding url (streams url)

pub update_stream-IsSound :
    (streams : StreamMap) (url : Bytes) (v : Option Stream)
    → IsSound streams
    → Holding url v
    → IsSound (update_stream streams url v)
update_stream-IsSound streams url v sound h u = elim (Bool-cases (bytes_eq url u)) [
  | inl e ↦ rw e (subst (λ x. Holding x v) (bytes_eq→eq url u e) h)
  | inr e ↦ rw e (sound u)
]

pub Holding-cases :
    (streams : StreamMap) (url : Bytes) (st : Stream)
    → IsSound streams
    → streams url ≡ some st
    → Holding url (some st)
Holding-cases streams url st sound e = subst (Holding url) e (sound url)

leave-url : (k : ℕ) (s : Stream) → (leave k s).0.url ≡ s.url
unfolding leave
leave-url k s = ground arith

left-Holding :
    (k : ℕ) (url : Bytes) (st : Stream)
    → Holding url (some st)
    → Holding url (if length (leave k st).0.peers == 0 then none else some (leave k st).0)
left-Holding k url st h = elim (Bool-cases (length (leave k st).0.peers == 0)) [
  | inl e ↦ rw e tt
  | inr e ↦ rw e (leave-IsValid k st h.0, leave-url k st ∙ h.1, ground (arith, e))
]

pub leave_stream-IsSound :
    (url : Bytes) (w : World) → IsSound w.streams → IsSound (leave_stream url w).streams
unfolding leave_stream
leave_stream-IsSound url w sound = elim (Option-cases (w.streams url)) [
  | inl e ↦ rw (e, leave_stream) sound
  | inr (st, e) ↦
      rw (e, leave_stream)
        (update_stream-IsSound w.streams url _ sound
          (left-Holding w.self url st (Holding-cases w.streams url st sound e)))
]

is_peer-length : (k : ℕ) (ps : List (ℕ × Bool)) → is_peer k ps ≡ true → 0 < length ps
is_peer-length k [] h = absurd cc
is_peer-length k (p ∷ ps) h = omega arith

is_some-cases : (p : Option ℕ) → is_some p ≡ true → (k : ℕ) × (p ≡ some k)
is_some-cases none h = absurd cc
is_some-cases (some k) h = (k, refl)

first_true : (a b : Bool) → (a && b) ≡ true → a ≡ true
first_true true b h = refl
first_true false b h = absurd cc

add_peer-length : (k : ℕ) (ps : List (ℕ × Bool)) → 0 < length (add_peer k ps)
add_peer-length k ps = elim (Bool-cases (is_peer k ps)) [
  | inl e ↦ rw e (is_peer-length k ps e)
  | inr e ↦ rw e (omega (arith, length-append ps ((k, false) ∷ [])))
]

join-length :
    (k : ℕ) (publisher : Bool) (st : Stream) → IsValid st → 0 < length (join k publisher st).1.peers
unfolding join
join-length k publisher st v = elim (Bool-cases (is_some st.publisher && publisher)) [
  | inl e ↦ rw e (
      let (j, q) = is_some-cases st.publisher (first_true (is_some st.publisher) publisher e) in
      is_peer-length j st.peers (v.publisher_joined j q))
  | inr e ↦ rw e (add_peer-length k st.peers)
]

join-url : (k : ℕ) (publisher : Bool) (st : Stream) → (join k publisher st).1.url ≡ st.url
unfolding join
join-url k publisher st = ground arith

pub joined-Holding :
    (k : ℕ) (publisher : Bool) (url : Bytes) (st : Stream)
    → IsValid st
    → st.url ≡ url
    → Holding url (some (join k publisher st).1)
joined-Holding k publisher url st v e =
    (join-IsValid k publisher st v, join-url k publisher st ∙ e, join-length k publisher st v)

pub length-start_peers : (k : ℕ) (ps : List (ℕ × Bool)) → length (start_peers k ps) ≡ length ps
length-start_peers k [] = refl
length-start_peers k (p ∷ ps) = ap suc (length-start_peers k ps)
