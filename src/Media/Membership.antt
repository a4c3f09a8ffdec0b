-- ===== src/Media/Membership.antt =====
-- The peers of a stream of rtmp_stream.cpp under join and leave.
use drone_server.Media.{MediaPacket}
use drone_server.Media.GopCache.{GopCache, insert}
use drone_server.Media.Replay.{HoldsOne, insert-HoldsOne}
use drone_server.Media.Stream.{
  Stream, add_peer, erase_peer, is_peer, is_session, is_some, join, leave, start_peers,
}
use drone_server.Prelude.{
  Bool, Bool-cases, List, [], arith, false, if◌then◌else◌, inl, inr, not, refl, some, subst, true,
  ℕ, ◌&&◌, ◌++◌, ◌==◌, ◌||◌, ◌∙◌, ◌∷◌, ◌≡◌,
}
use drone_server.Prelude.Outcome.{Yields, Yields-imp}

abbrev pub AreDistinct : List (ℕ × Bool) → Type 0
AreDistinct [] = Unit {0}
AreDistinct ((j, b) ∷ ps) = (is_peer j ps ≡ false) × AreDistinct ps

pub record IsValid (s : Stream) : Type 0 where
  pub distinct : AreDistinct s.peers
  pub publisher_joined : (k : ℕ) → s.publisher ≡ some k → is_peer k s.peers ≡ true
  pub one_gop : s.gop.min_gop ≡ 1

pub is_peer-append :
    (k j : ℕ) (b : Bool) (ps : List (ℕ × Bool))
    → is_peer k (ps ++ (j, b) ∷ []) ≡ (is_peer k ps || (j == k))
is_peer-append k j b [] = ground arith
is_peer-append k j b ((i, c) ∷ ps) = rw (is_peer-append k j b ps) (ground arith)

append-AreDistinct :
    (k : ℕ) (ps : List (ℕ × Bool))
    → is_peer k ps ≡ false
    → AreDistinct ps
    → AreDistinct (ps ++ (k, false) ∷ [])
append-AreDistinct k [] h d = (refl, tt)
append-AreDistinct k ((i, c) ∷ ps) h d = (
  rw (is_peer-append i k false ps) (ground (arith, d.0)),
  append-AreDistinct k ps (ground (arith, h)) d.1,
)

add_peer-AreDistinct : (k : ℕ) (ps : List (ℕ × Bool)) → AreDistinct ps → AreDistinct (add_peer k ps)
add_peer-AreDistinct k ps d = elim (Bool-cases (is_peer k ps)) [
  | inl e ↦ rw e d
  | inr e ↦ rw e (append-AreDistinct k ps e d)
]

is_peer-add_peer :
    (j k : ℕ) (ps : List (ℕ × Bool)) → is_peer j ps ≡ true → is_peer j (add_peer k ps) ≡ true
is_peer-add_peer j k ps h = elim (Bool-cases (is_peer k ps)) [
  | inl e ↦ rw e h
  | inr e ↦ rw e (is_peer-append j k false ps ∙ ground (arith, h))
]

pub is_peer-added : (k : ℕ) (ps : List (ℕ × Bool)) → is_peer k (add_peer k ps) ≡ true
is_peer-added k ps = elim (Bool-cases (is_peer k ps)) [
  | inl e ↦ rw e e
  | inr e ↦ rw e (is_peer-append k k false ps ∙ ground arith)
]

is_peer-erase_peer :
    (j k : ℕ) (ps : List (ℕ × Bool)) → is_peer j (erase_peer k ps) ≡ (is_peer j ps && not (k == j))
is_peer-erase_peer j k [] = refl
is_peer-erase_peer j k ((i, c) ∷ ps) = ground (arith, is_peer-erase_peer j k ps)

erase_peer-AreDistinct :
    (k : ℕ) (ps : List (ℕ × Bool)) → AreDistinct ps → AreDistinct (erase_peer k ps)
erase_peer-AreDistinct k [] d = tt
erase_peer-AreDistinct k ((i, c) ∷ ps) d =
    ground (arith, erase_peer-AreDistinct k ps d.1, is_peer-erase_peer i k ps, d.0)

pub is_peer-start_peers :
    (j k : ℕ) (ps : List (ℕ × Bool)) → is_peer j (start_peers k ps) ≡ is_peer j ps
is_peer-start_peers j k [] = refl
is_peer-start_peers j k ((i, c) ∷ ps) = rw (is_peer-start_peers j k ps) refl

pub start_peers-AreDistinct :
    (k : ℕ) (ps : List (ℕ × Bool)) → AreDistinct ps → AreDistinct (start_peers k ps)
start_peers-AreDistinct k [] d = tt
start_peers-AreDistinct k ((i, c) ∷ ps) d =
    (is_peer-start_peers i k ps ∙ d.0, start_peers-AreDistinct k ps d.1)

pub some-same : (a b : ℕ) → some a ≡ some b → a ≡ b
some-same a b h = cc

pub insert-min_gop :
    (p : MediaPacket) (c : GopCache)
    → c.min_gop ≡ 1
    → Yields (λ (c', n). c'.min_gop ≡ 1) (insert p c)
insert-min_gop p c one =
    Yields-imp (HoldsOne p c) _ (insert p c) (insert-HoldsOne p c one)
      (λ out h. h.0.same_min_gop ∙ one)

joined_publisher :
    (k j : ℕ) (as_publisher : Bool) (s : Stream)
    → IsValid s
    → (if as_publisher then some k else s.publisher) ≡ some j
    → is_peer j (add_peer k s.peers) ≡ true
joined_publisher k j true s v h =
    subst (λ i. is_peer i (add_peer k s.peers) ≡ true) (some-same k j h) (is_peer-added k s.peers)
joined_publisher k j false s v h = is_peer-add_peer j k s.peers (v.publisher_joined j h)

pub join-IsValid :
    (k : ℕ) (as_publisher : Bool) (s : Stream) → IsValid s → IsValid (join k as_publisher s).1
unfolding join
join-IsValid k as_publisher s v = elim (Bool-cases (is_some s.publisher && as_publisher)) [
  | inl e ↦ rw e v
  | inr e ↦ rw e (record {
    distinct = add_peer-AreDistinct k s.peers v.distinct;
    publisher_joined = λ j h. joined_publisher k j as_publisher s v h;
    one_gop = v.one_gop;
  })
]

-- Another session than the publisher may go.
left_publisher :
    (k j : ℕ) (s : Stream)
    → IsValid s
    → is_session k s.publisher ≡ false
    → s.publisher ≡ some j
    → is_peer j (erase_peer k s.peers) ≡ true
left_publisher k j s v other h =
    let differs : (j == k) ≡ false = subst (λ p. is_session k p ≡ false) h other in
    is_peer-erase_peer j k s.peers ∙ ground (arith, v.publisher_joined j h, differs)

pub leave-IsValid : (k : ℕ) (s : Stream) → IsValid s → IsValid (leave k s).0
unfolding leave
leave-IsValid k s v = elim (Bool-cases (is_session k s.publisher)) [
  | inl e ↦ rw e (record {
    distinct = erase_peer-AreDistinct k s.peers v.distinct;
    publisher_joined = λ j h. absurd cc;
    one_gop = v.one_gop;
  })
  | inr e ↦ rw e (record {
    distinct = erase_peer-AreDistinct k s.peers v.distinct;
    publisher_joined = λ j h. left_publisher k j s v e h;
    one_gop = v.one_gop;
  })
]
