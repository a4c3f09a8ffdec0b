-- ===== src/Media/Replay.antt =====
-- gop_cache.cpp against a description of what a new viewer is to get.
use drone_server.Media.{MediaPacket, PacketType, audio, metadata, unknown_type, video}
use drone_server.Media.GopCache.{
  GopCache, insert, insert_all, new_gop_cache, packet_of, write_cache,
}
use drone_server.Prelude.{
  Bool, List, Option, [], ap, arith, false, if◌then◌else◌, inl, inr, length, none, not, refl, some,
  sym, true, ℕ, ◌&&◌, ◌++◌, ◌||◌, ◌∙◌, ◌∷◌, ◌≡◌, ◌⊎◌,
}
use drone_server.Prelude.Outcome.{Yields, Yields-bind, Yields-imp}

abbrev pub is_type : PacketType → PacketType → Bool
is_type video video = true
is_type audio audio = true
is_type metadata metadata = true
is_type unknown_type unknown_type = true
is_type s t = false

abbrev pub is_header : MediaPacket → Bool
is_header p =
    is_type p.type metadata || (p.seq_header && (is_type p.type video || is_type p.type audio))

abbrev pub is_key : MediaPacket → Bool
is_key p = is_type p.type video && not p.seq_header && p.key_frame

abbrev pub later : Option MediaPacket → Option MediaPacket → Option MediaPacket
later none q = q
later (some p) q = some p

-- The last header packet of a type.
abbrev pub last_header : PacketType → List MediaPacket → Option MediaPacket
last_header t [] = none
last_header t (p ∷ ps) =
    later (last_header t ps) (if is_type p.type t && is_header p then some p else none)

-- The packets that are not headers, from the last key frame on, after those that were kept before.
abbrev pub since_key : List MediaPacket → List MediaPacket → List MediaPacket
since_key kept [] = kept
since_key kept (p ∷ ps) =
    since_key (if is_header p then kept else if is_key p then p ∷ [] else kept ++ p ∷ []) ps

-- The cache `c` holds what it should after the packets `ps` on top of `c₀`.
pub record Holds (c₀ : GopCache) (ps : List MediaPacket) (c : GopCache) : Type 0 where
  pub pkts_held : c.pkts ≡ since_key c₀.pkts ps
  pub video_held : c.video_header_pkt ≡ later (last_header video ps) c₀.video_header_pkt
  pub audio_held : c.audio_header_pkt ≡ later (last_header audio ps) c₀.audio_header_pkt
  pub metadata_held : c.metadata_header_pkt ≡ later (last_header metadata ps) c₀.metadata_header_pkt
  pub same_min_gop : c.min_gop ≡ c₀.min_gop

pub Type-cases : (t : PacketType) → (t ≡ video) ⊎ (t ≡ audio) ⊎ (t ≡ metadata) ⊎ (t ≡ unknown_type)
Type-cases video = inl refl
Type-cases audio = inr (inl refl)
Type-cases metadata = inr (inr (inl refl))
Type-cases unknown_type = inr (inr (inr refl))

-- One packet.
abbrev pub HoldsOne : MediaPacket → GopCache → GopCache × ℕ → Type 0
HoldsOne p c out = Holds c (p ∷ []) out.0 × (out.1 ≡ length out.0.pkts)

pub insert-HoldsOne :
    (p : MediaPacket) (c : GopCache) → c.min_gop ≡ 1 → Yields (HoldsOne p c) (insert p c)
unfolding insert
insert-HoldsOne p c one = elim (Type-cases p.type) [
  | inl e ↦ rw (e, insert) (ground arith)
  | inr (inl e) ↦ rw (e, insert) (ground arith)
  | inr (inr (inl e)) ↦ rw (e, insert) (ground arith)
  | inr (inr (inr e)) ↦ rw (e, insert) (ground arith)
]

later_assoc : (x y z : Option MediaPacket) → later (later x y) z ≡ later x (later y z)
later_assoc none y z = refl
later_assoc (some p) y z = refl

since_key-append :
    (kept ps qs : List MediaPacket) → since_key kept (ps ++ qs) ≡ since_key (since_key kept ps) qs
since_key-append kept [] qs = refl
since_key-append kept (p ∷ ps) qs =
    since_key-append (if is_header p then kept else if is_key p then p ∷ [] else kept ++ p ∷ []) ps
      qs

later-none : (x : Option MediaPacket) → later x none ≡ x
later-none none = refl
later-none (some p) = refl

last_header-append :
    (t : PacketType) (ps qs : List MediaPacket)
    → last_header t (ps ++ qs) ≡ later (last_header t qs) (last_header t ps)
last_header-append t [] qs = sym (later-none (last_header t qs))
last_header-append t (p ∷ ps) qs =
    ap (λ x. later x (if is_type p.type t && is_header p then some p else none))
      (last_header-append t ps qs)
    ∙ later_assoc (last_header t qs) (last_header t ps) _

headers-append :
    (t : PacketType) (ps qs : List MediaPacket) (x y z : Option MediaPacket)
    → y ≡ later (last_header t ps) x
    → z ≡ later (last_header t qs) y
    → z ≡ later (last_header t (ps ++ qs)) x
headers-append t ps qs x y z h k =
    k
    ∙ ap (later (last_header t qs)) h
    ∙ sym (later_assoc (last_header t qs) (last_header t ps) x)
    ∙ ap (λ w. later w x) (sym (last_header-append t ps qs))

pub Holds-append :
    (ps qs : List MediaPacket) (c c' c'' : GopCache)
    → Holds c ps c'
    → Holds c' qs c''
    → Holds c (ps ++ qs) c''
Holds-append ps qs c c' c'' h k = record {
  pkts_held =
      k.pkts_held ∙ ap (λ l. since_key l qs) h.pkts_held ∙ sym (since_key-append c.pkts ps qs);
  video_held = headers-append video ps qs c.video_header_pkt _ _ h.video_held k.video_held;
  audio_held = headers-append audio ps qs c.audio_header_pkt _ _ h.audio_held k.audio_held;
  metadata_held =
      headers-append metadata ps qs c.metadata_header_pkt _ _ h.metadata_held k.metadata_held;
  same_min_gop = k.same_min_gop ∙ h.same_min_gop;
}

pub insert_all-Holds :
    (ps : List MediaPacket) (c : GopCache) → c.min_gop ≡ 1 → Yields (Holds c ps) (insert_all ps c)
unfolding insert_all
insert_all-Holds [] c one = record {
  pkts_held = refl;
  video_held = refl;
  audio_held = refl;
  metadata_held = refl;
  same_min_gop = refl;
}
insert_all-Holds (p ∷ ps) c one =
    Yields-bind (HoldsOne p c) (Holds c (p ∷ ps)) (insert p c) (λ (c', n). insert_all ps c')
      (insert-HoldsOne p c one)
      (λ out h.
        Yields-imp (Holds out.0 ps) (Holds c (p ∷ ps)) (insert_all ps out.0)
          (insert_all-Holds ps out.0 (h.0.same_min_gop ∙ one))
          (λ c'' k. Holds-append (p ∷ []) ps c out.0 c'' h.0 k))

-- What a new viewer is sent after the packets `ps` of a stream: the last metadata, video and audio
-- headers, and then the packets from the last key frame on.
abbrev pub replay : List MediaPacket → List MediaPacket
replay ps =
    packet_of (last_header metadata ps)
    ++ (packet_of (last_header video ps) ++ (packet_of (last_header audio ps) ++ since_key [] ps))

pub Holds-replay :
    (ps : List MediaPacket) (c : GopCache)
    → Holds (new_gop_cache 1) ps c
    → write_cache c ≡ replay ps
unfolding write_cache
Holds-replay ps c h =
    rw
      (
        h.pkts_held,
        h.video_held ∙ later-none (last_header video ps),
        h.audio_held ∙ later-none (last_header audio ps),
        h.metadata_held ∙ later-none (last_header metadata ps),
      )
      refl

-- A cache that was made with a `min_gop` of 1 takes any packets without a fault, and what it then
-- writes to a session is the last header of each kind, metadata, video and audio, and after them
-- exactly the packets that are not headers from the last key frame on.
pub write_cache-insert_all :
    (ps : List MediaPacket)
    → Yields (λ c. write_cache c ≡ replay ps) (insert_all ps (new_gop_cache 1))
write_cache-insert_all ps =
    Yields-imp (Holds (new_gop_cache 1) ps) _ (insert_all ps (new_gop_cache 1))
      (insert_all-Holds ps (new_gop_cache 1) refl) (λ c h. Holds-replay ps c h)
