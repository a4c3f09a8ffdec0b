-- ===== src/Media/History.antt =====
-- The joins, departures and packets that a stream of rtmp_stream.cpp goes through.
use drone_server.Chunk.{ChunkStream}
use drone_server.Media.Conversion.{
  after_slash, audio_packet, chunk_stream_to_media_pkt, cid_from_hex, typed_packet, video_packet,
}
use drone_server.Media.GopCache.{GopCache, insert}
use drone_server.Media.Membership.{
  IsValid, insert-min_gop, is_peer-start_peers, join-IsValid, leave-IsValid,
  start_peers-AreDistinct,
}
use drone_server.Media.Stream.{
  Effect, Stream, is_session, join, leave, new_stream, send, start_peers,
}
use drone_server.Prelude.{
  Bool, List, Option, Option-cases, arith, inl, inr, refl, subst, ℕ, ◌∙◌, ◌∷◌, ◌≡◌,
}
use drone_server.Prelude.Bytes.{Bytes}
use drone_server.Prelude.Outcome.{Ensures, Ensures-Yields, Ensures-bind, Ensures-if, ok}

module _ (stoul : Bytes → Option ℕ) where
  -- A stream after a join, a departure or a packet.
  pub data Step : Stream → Stream → Type 0 where
    joins : (k : ℕ) (as_publisher : Bool) (s : Stream) → Step s (join k as_publisher s).1
    leaves : (k : ℕ) (s : Stream) → Step s (leave k s).0
    sends_packet :
        (k : ℕ) (cs : ChunkStream) (s s' : Stream) (effects : List Effect)
        → send stoul k cs s ≡ ok (s', effects)
        → Step s s'

  -- A stream that was made and has gone through steps.
  pub data Reachable : Stream → Type 0 where
    made : (url : Bytes) (s : Stream) → new_stream stoul url ≡ ok s → Reachable s
    stepped : (s s' : Stream) → Reachable s → Step s s' → Reachable s'

  cid_from_hex-ends : (hex : Bytes) → Ensures (λ _. Unit {0}) (cid_from_hex stoul hex)
  unfolding cid_from_hex
  cid_from_hex-ends hex = elim (Option-cases (stoul (0x30 ∷ 0x78 ∷ hex))) [
    | inl e ↦ rw (e, cid_from_hex) tt
    | inr (v, e) ↦ rw (e, cid_from_hex) tt
  ]

  typed-ends :
      (url : Bytes) (cs : ChunkStream) (cid : ℕ)
      → Ensures (λ _. Unit {0}) (typed_packet stoul url cs cid)
  unfolding typed_packet video_packet audio_packet
  typed-ends url cs cid = ground arith

  chunk_stream_to_media_pkt-ends :
      (url : Bytes) (cs : ChunkStream)
      → Ensures (λ _. Unit {0}) (chunk_stream_to_media_pkt stoul url cs)
  unfolding chunk_stream_to_media_pkt
  chunk_stream_to_media_pkt-ends url cs =
      Ensures-bind _ _ (cid_from_hex stoul (after_slash url)) (typed_packet stoul url cs)
        (cid_from_hex-ends (after_slash url)) (λ cid _. typed-ends url cs cid)

  pub new_stream-IsValid : (url : Bytes) → Ensures IsValid (new_stream stoul url)
  unfolding new_stream
  new_stream-IsValid url =
      Ensures-bind _ IsValid (cid_from_hex stoul (after_slash url)) _
        (cid_from_hex-ends (after_slash url))
        (λ cid _. record { distinct = tt; publisher_joined = λ k h. absurd cc; one_gop = refl })

  pub sent-IsValid :
      (k : ℕ) (s : Stream) (gop : GopCache)
      → IsValid s
      → gop.min_gop ≡ 1
      → IsValid (record s { gop = gop; peers = start_peers k s.peers })
  sent-IsValid k s gop v one = record {
    distinct = start_peers-AreDistinct k s.peers v.distinct;
    publisher_joined = λ j h. is_peer-start_peers j k s.peers ∙ v.publisher_joined j h;
    one_gop = one;
  }

  pub send-IsValid :
      (k : ℕ) (cs : ChunkStream) (s : Stream)
      → IsValid s
      → Ensures (λ (s', effects). IsValid s') (send stoul k cs s)
  unfolding send
  send-IsValid k cs s v =
      Ensures-if _ (is_session k s.publisher) _ _
        (λ _.
          Ensures-bind _ _ (chunk_stream_to_media_pkt stoul s.url cs) _
            (chunk_stream_to_media_pkt-ends s.url cs)
            (λ pkt _.
              Ensures-bind (λ (c, n). c.min_gop ≡ 1) _ (insert pkt s.gop) _
                (Ensures-Yields _ (insert pkt s.gop) (insert-min_gop pkt s.gop v.one_gop))
                (λ out one. sent-IsValid k s out.0 v one)))
        (λ _. v)

  Step-IsValid : (s s' : Stream) → Step s s' → IsValid s → IsValid s'
  Step-IsValid s _ (joins k as_publisher _) v = join-IsValid k as_publisher s v
  Step-IsValid s _ (leaves k _) v = leave-IsValid k s v
  Step-IsValid s s' (sends_packet k cs _ _ effects e) v =
      subst (Ensures (λ (s', effects). IsValid s')) e (send-IsValid k cs s v)

  -- In a stream that was made and on which sessions joined, left and sent in any order, each session
  -- stands once, the publisher, where there is one, is one of the peers, and the cache still has the
  -- `min_gop_` it was made with.
  pub Reachable-IsValid : (s : Stream) → Reachable s → IsValid s
  Reachable-IsValid s (made url _ e) = subst (Ensures IsValid) e (new_stream-IsValid url)
  Reachable-IsValid s (stepped s₀ _ reached step) =
      Step-IsValid s₀ s step (Reachable-IsValid s₀ reached)
