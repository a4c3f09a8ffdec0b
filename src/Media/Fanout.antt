-- ===== src/Media/Fanout.antt =====
-- What send of rtmp_stream.cpp brings to one viewer.
use drone_server.Chunk.{ChunkStream}
use drone_server.Media.{MediaPacket}
use drone_server.Media.Conversion.{chunk_stream_to_media_pkt}
use drone_server.Media.GopCache.{GopCache, insert, new_gop_cache, write_cache}
use drone_server.Media.History.{sent-IsValid}
use drone_server.Media.Membership.{AreDistinct, IsValid}
use drone_server.Media.Replay.{Holds, Holds-append, Holds-replay, HoldsOne, insert-HoldsOne, replay}
use drone_server.Media.Stream.{
  Effect, Stream, all_to, demux_write, effects_for, erase_media, fan_out, is_peer, is_session, send,
  start_peers, stream_eof, to_session,
}
use drone_server.Prelude.{
  Bool, Bool-cases, List, Option, [], ap, append-nil, arith, false, if◌then◌else◌, inl, inr, none,
  refl, some, subst, sym, true, ℕ, ◌++◌, ◌==◌, ◌∙◌, ◌∷◌, ◌≡◌,
}
use drone_server.Prelude.Bytes.{Bytes}
use drone_server.Prelude.Outcome.{Outcome, Yields, Yields-bind, ok, ◌>>=◌}

abbrev pub received : ℕ → List Effect → List MediaPacket
received k [] = []
received k (to_session j p ∷ es) = if j == k then p ∷ received k es else received k es
received k (stream_eof j i ∷ es) = received k es
received k (erase_media i ∷ es) = received k es
received k (demux_write p ∷ es) = received k es

-- The mark of a peer: whether it has got the cache.
abbrev pub mark_of : ℕ → List (ℕ × Bool) → Option Bool
mark_of k [] = none
mark_of k ((j, b) ∷ ps) = if j == k then some b else mark_of k ps

-- What one packet brings to a session with a mark.
abbrev pub view : Option Bool → GopCache → MediaPacket → List MediaPacket
view none gop pkt = []
view (some true) gop pkt = pkt ∷ []
view (some false) gop pkt = write_cache gop

received-append :
    (k : ℕ) (xs ys : List Effect) → received k (xs ++ ys) ≡ received k xs ++ received k ys
received-append k [] ys = refl
received-append k (to_session j p ∷ es) ys = rw (received-append k es ys) (ground arith)
received-append k (stream_eof j i ∷ es) ys = received-append k es ys
received-append k (erase_media i ∷ es) ys = received-append k es ys
received-append k (demux_write p ∷ es) ys = received-append k es ys

received-all_to :
    (k j : ℕ) (ps : List MediaPacket) → received k (all_to j ps) ≡ (if j == k then ps else [])
received-all_to k j [] = ground arith
received-all_to k j (p ∷ ps) = rw (received-all_to k j ps) (ground arith)

received-effects_for :
    (k publisher : ℕ) (gop : GopCache) (pkt : MediaPacket) (j : ℕ) (b : Bool)
    → (publisher == k) ≡ false
    → received k (effects_for publisher gop pkt (j, b))
      ≡ (if j == k then view (some b) gop pkt else [])
received-effects_for k publisher gop pkt j true other = ground arith
received-effects_for k publisher gop pkt j false other =
    ground (arith, received-all_to k j (write_cache gop))

is_peer-mark_of : (k : ℕ) (ps : List (ℕ × Bool)) → is_peer k ps ≡ false → mark_of k ps ≡ none
is_peer-mark_of k [] h = refl
is_peer-mark_of k ((j, b) ∷ ps) h = ground (arith, is_peer-mark_of k ps)

unmarked :
    (k j : ℕ) (ps : List (ℕ × Bool)) → (j == k) ≡ true → is_peer j ps ≡ false → mark_of k ps ≡ none
unmarked k j ps same h =
    let same' : j ≡ k = ground (arith, same) in
    is_peer-mark_of k ps (subst (λ i. is_peer i ps ≡ false) same' h)

view-split :
    (k j : ℕ) (b : Bool) (gop : GopCache) (pkt : MediaPacket) (ps : List (ℕ × Bool))
    → is_peer j ps ≡ false
    → (if j == k then view (some b) gop pkt else []) ++ view (mark_of k ps) gop pkt
      ≡ view (mark_of k ((j, b) ∷ ps)) gop pkt
view-split k j b gop pkt ps h = elim (Bool-cases (j == k)) [
  | inl e ↦ rw (e, unmarked k j ps e h) (append-nil (view (some b) gop pkt))
  | inr e ↦ rw e refl
]

received-fan_out :
    (k publisher : ℕ) (gop : GopCache) (pkt : MediaPacket) (ps : List (ℕ × Bool))
    → (publisher == k) ≡ false
    → AreDistinct ps
    → received k (fan_out publisher gop pkt ps) ≡ view (mark_of k ps) gop pkt
received-fan_out k publisher gop pkt [] other d = refl
received-fan_out k publisher gop pkt ((j, b) ∷ ps) other d =
    received-append k (effects_for publisher gop pkt (j, b)) (fan_out publisher gop pkt ps)
    ∙ rw
        (
          received-effects_for k publisher gop pkt j b other,
          received-fan_out k publisher gop pkt ps other d.1,
        )
        (view-split k j b gop pkt ps d.0)

mark_of-start_peers :
    (k publisher : ℕ) (b : Bool) (ps : List (ℕ × Bool))
    → (publisher == k) ≡ false
    → mark_of k ps ≡ some b
    → mark_of k (start_peers publisher ps) ≡ some true
mark_of-start_peers k publisher b [] other h = absurd cc
mark_of-start_peers k publisher b ((j, c) ∷ ps) other h =
    ground (arith, mark_of-start_peers k publisher b ps other)

module _ (stoul : Bytes → Option ℕ) where
  -- The packets of a publisher, one after the other.
  unfoldable pub send_all : ℕ → List ChunkStream → Stream → Outcome (Stream × List Effect)
  send_all publisher [] s = ok (s, [])
  send_all publisher (cs ∷ css) s = send stoul publisher cs s >>= λ (s', effects).
      send_all publisher css s' >>= λ (s'', more). ok (s'', effects ++ more)

  -- The packets that the messages of the publisher are converted to.
  abbrev pub Converts : Bytes → List ChunkStream → List MediaPacket → Type 0
  Converts url [] [] = Unit {0}
  Converts url (cs ∷ css) (pkt ∷ pkts) =
      (chunk_stream_to_media_pkt stoul url cs ≡ ok pkt) × Converts url css pkts
  Converts url css pkts = ⊥

  -- A stream in which `publisher` sends and `k` has the mark `b`.
  pub record IsWatched (publisher k : ℕ) (b : Bool) (s : Stream) : Type 0 where
    pub valid : IsValid s
    pub publishes : is_session publisher s.publisher ≡ true
    pub watches : mark_of k s.peers ≡ some b

  -- One packet: the viewer gets what its mark says, and is marked.
  abbrev SendsOne : ℕ → ℕ → Bool → MediaPacket → Stream → Stream × List Effect → Type 0
  SendsOne publisher k b pkt s out =
      IsWatched publisher k true out.0
      × (out.0.url ≡ s.url)
      × Holds s.gop (pkt ∷ []) out.0.gop
      × (received k out.1 ≡ view (some b) out.0.gop pkt)

  send-SendsOne :
      (publisher k : ℕ) (b : Bool) (cs : ChunkStream) (pkt : MediaPacket) (s : Stream)
      → (publisher == k) ≡ false
      → IsWatched publisher k b s
      → chunk_stream_to_media_pkt stoul s.url cs ≡ ok pkt
      → Yields (SendsOne publisher k b pkt s) (send stoul publisher cs s)
  unfolding send
  send-SendsOne publisher k b cs pkt s other w e =
      rw (w.publishes, e)
        (Yields-bind (HoldsOne pkt s.gop) (SendsOne publisher k b pkt s) (insert pkt s.gop) _
          (insert-HoldsOne pkt s.gop w.valid.one_gop)
          (λ out h. (
            record {
              valid =
                  sent-IsValid stoul publisher s out.0 w.valid (h.0.same_min_gop ∙ w.valid.one_gop);
              publishes = w.publishes;
              watches = mark_of-start_peers k publisher b s.peers other w.watches;
            },
            refl,
            h.0,
            received-fan_out k publisher out.0 pkt s.peers other w.valid.distinct
                ∙ ap (λ v. view v out.0 pkt) w.watches,
          )))

  -- What a marked viewer has got after the packets `pkts`, that had `held` before them.
  abbrev SendsAll : ℕ → List MediaPacket → Stream × List Effect → Type 0
  SendsAll k pkts out = received k out.1 ≡ pkts

  send_all-marked :
      (publisher k : ℕ) (css : List ChunkStream) (pkts : List MediaPacket) (s : Stream)
      → (publisher == k) ≡ false
      → IsWatched publisher k true s
      → Converts s.url css pkts
      → Yields (SendsAll k pkts) (send_all publisher css s)
  unfolding send_all
  send_all-marked publisher k [] [] s other w c = refl
  send_all-marked publisher k (cs ∷ css) (pkt ∷ pkts) s other w c =
      Yields-bind (SendsOne publisher k true pkt s) (SendsAll k (pkt ∷ pkts))
        (send stoul publisher cs s) _ (send-SendsOne publisher k true cs pkt s other w c.0)
        (λ out h.
          Yields-bind (SendsAll k pkts) (SendsAll k (pkt ∷ pkts)) (send_all publisher css out.0) _
            (send_all-marked publisher k css pkts out.0 other h.0
              (subst (λ u. Converts u css pkts) (sym h.1) c.1))
            (λ more g. received-append k out.1 more.1 ∙ rw (h.3, g) refl))
  send_all-marked publisher k [] (pkt ∷ pkts) s other w c = absurd c
  send_all-marked publisher k (cs ∷ css) [] s other w c = absurd c

  -- A session that has joined and has had nothing yet gets, while the publisher sends some packets, the
  -- replay of what the stream had before and the first of them, and then each further packet once and in
  -- order. `before` are the packets that the cache was given since the stream was made. The
  -- session is not the publisher, each session stands in the stream once, and the messages convert to
  -- packets without a fault.
  pub received-send_all :
      (publisher k : ℕ) (cs : ChunkStream) (css : List ChunkStream) (pkt : MediaPacket)
      (before pkts : List MediaPacket) (s : Stream)
      → (publisher == k) ≡ false
      → IsWatched publisher k false s
      → Holds (new_gop_cache 1) before s.gop
      → Converts s.url (cs ∷ css) (pkt ∷ pkts)
      → Yields
          (λ (s', effects). received k effects ≡ replay (before ++ pkt ∷ []) ++ pkts)
          (send_all publisher (cs ∷ css) s)
  unfolding send_all
  received-send_all publisher k cs css pkt before pkts s other w held c =
      Yields-bind (SendsOne publisher k false pkt s) _ (send stoul publisher cs s) _
        (send-SendsOne publisher k false cs pkt s other w c.0)
        (λ out h.
          Yields-bind (SendsAll k pkts) _ (send_all publisher css out.0) _
            (send_all-marked publisher k css pkts out.0 other h.0
              (subst (λ u. Converts u css pkts) (sym h.1) c.1))
            (λ more g.
              received-append k out.1 more.1
              ∙ rw
                  (
                    h.3,
                    g,
                    Holds-replay (before ++ pkt ∷ []) out.0.gop
                        (Holds-append before (pkt ∷ []) (new_gop_cache 1) s.gop out.0.gop held h.2),
                  )
                  refl))
