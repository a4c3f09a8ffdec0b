-- ===== src/Chunk/Delivery.antt =====
-- The first chunk of a message from write_chunk to the reading loop.
use drone_server.Buffer.{size}
use drone_server.Chunk.{
  ChunkStream, complete, header, payload, read_header, read_header_of, requested,
}
use drone_server.Chunk.Headers.{FitsWire, IsAnnounced, IsChosen, IsIdle, header_tail}
use drone_server.Chunk.Payload.{paid, read_chunk_stream-chunk, waiting}
use drone_server.Chunk.Receiving.{read_chunk_stream, receive, stream_of, update}
use drone_server.Chunk.RoundTrip.{Delivers, Delivers-update, receive_rest, update-other}
use drone_server.Chunk.Rounds.{
  IsPartial, joined, receive_again, receive_ready, send_rest-nonempty, stream_of-known, update_self,
}
use drone_server.Chunk.Writing.{Message, basic_header, send_rest}
use drone_server.Prelude.{
  List, Option, arith, drop, false, inl, inr, length, length-append, length-drop, length-take, refl,
  some, subst, suc, take, take-append-drop, ℕ, ◌++◌, ◌<◌, ◌==◌, ◌∷◌, ◌≡◌, ◌≤◌,
}
use drone_server.Prelude.Bytes.{Bytes}
use drone_server.Prelude.Outcome.{ok}

-- The payload of the first chunk, and the bytes and packets after it.
read_header-first :
    (r a : ChunkStream) (fmt : ℕ) (buf rest : Bytes)
    → r.phase ≡ header
    → read_header_of fmt r buf ≡ (complete, a, rest)
    → read_header fmt r buf ≡ (complete, record a { fmt = fmt; phase = payload }, rest)
unfolding read_header
read_header-first r a fmt buf rest at_header e = rw (at_header, read_header) (rw e)

fmt-small : (fmt : ℕ) (m : Message) (r : ChunkStream) → IsChosen fmt m r → fmt < 4
fmt-small fmt m r (inl e) = omega arith
fmt-small fmt m r (inr (inl c)) = omega (arith, c.0)
fmt-small fmt m r (inr (inr (inl c))) = omega (arith, c.0)
fmt-small fmt m r (inr (inr (inr c))) = omega (arith, c.0)

module _ (max_chunk_size fresh_fmt fresh_rem csid : ℕ) (small : csid < 64)
    (positive : 0 < max_chunk_size) (m : Message) (cs : ℕ → Option ChunkStream) (fmt₀ csid₀ : ℕ)
    (r : ChunkStream) (known : cs csid ≡ some r) (idle : IsIdle r) (fits : FitsWire m) where
  -- The state after the first chunk, with the stream `a` that its header made.
  abbrev first_stream : ℕ → ChunkStream → Bytes → ChunkStream
  first_stream fmt a pay = paid (record a { fmt = fmt; phase = payload }) pay

  first_round :
      (fmt : ℕ) (a : ChunkStream) (pay more : Bytes)
      → IsChosen fmt m r
      → read_header_of fmt r (header_tail fmt m ++ (pay ++ more)) ≡ (complete, a, pay ++ more)
      → length pay ≡ requested max_chunk_size a.rem
      → read_chunk_stream (
          waiting max_chunk_size fresh_fmt fresh_rem cs fmt₀ csid₀
            (basic_header fmt csid ∷ (header_tail fmt m ++ (pay ++ more))))
        ≡ (
          complete,
          waiting max_chunk_size fresh_fmt fresh_rem
              (update cs csid (some (first_stream fmt a pay)))
              fmt
              csid
              more,
        )
  first_round fmt a pay more chosen e len =
      read_chunk_stream-chunk max_chunk_size fresh_fmt fresh_rem cs fmt₀ csid₀ fmt csid r
        (record a { fmt = fmt; phase = payload }) (header_tail fmt m ++ (pay ++ more)) pay more
        (fmt-small fmt m r chosen) small known
        (read_header-first r a fmt _ (pay ++ more) idle.at_header e) refl len

  stored :
      (fmt : ℕ) (a : ChunkStream) (pay more : Bytes)
      → stream_of (
          waiting max_chunk_size fresh_fmt fresh_rem
            (update cs csid (some (first_stream fmt a pay)))
            fmt
            csid
            more)
        ≡ first_stream fmt a pay
  stored fmt a pay more =
      stream_of-known
        (waiting max_chunk_size fresh_fmt fresh_rem (update cs csid (some (first_stream fmt a pay)))
          fmt csid more)
        (first_stream fmt a pay) (update_self cs csid (some (first_stream fmt a pay)))

  -- The whole message in one chunk.
  pub deliver_one :
      (g fmt : ℕ) (a : ChunkStream) (msg rest : Bytes)
      → IsChosen fmt m r
      → m.size ≡ length msg
      → length msg ≤ max_chunk_size
      → read_header_of fmt r (header_tail fmt m ++ (msg ++ rest)) ≡ (complete, a, msg ++ rest)
      → IsAnnounced m a
      → Delivers max_chunk_size fresh_fmt fresh_rem csid a.time cs m msg rest (
          receive (suc g) (
            waiting max_chunk_size fresh_fmt fresh_rem cs fmt₀ csid₀
              (basic_header fmt csid ∷ (header_tail fmt m ++ (msg ++ rest)))))
  deliver_one g fmt a msg rest chosen size le e announced = (
    update cs csid (some (first_stream fmt a msg)),
    first_stream fmt a msg,
    fmt,
    receive_ready g _ _ (first_round fmt a msg rest chosen e (ground (arith, announced.all_left)))
        (rw (stored fmt a msg rest) (ground (arith, announced.all_left))),
    update_self cs csid (some (first_stream fmt a msg)),
    record {
      is_ready = ground (arith, announced.all_left);
      whole = rw announced.no_content;
      same_len = announced.same_len;
      same_type = announced.same_type;
      same_stream = announced.same_stream;
      same_time = refl;
      nothing_left = omega (arith, announced.all_left);
      at_header = refl;
      no_extended = announced.no_extended;
    },
    λ k ne. update-other cs csid k (some (first_stream fmt a msg)) ne,
  )

  left-positive : (msg : Bytes) → max_chunk_size < length msg → 0 < length (drop max_chunk_size msg)
  left-positive msg lt = omega (arith, length-drop max_chunk_size msg)

  pay-length :
      (a : ChunkStream) (msg : Bytes)
      → m.size ≡ length msg
      → max_chunk_size < length msg
      → IsAnnounced m a
      → length (take max_chunk_size msg) ≡ requested max_chunk_size a.rem
  pay-length a msg size lt announced =
      ground (arith, announced.all_left, length-take max_chunk_size msg)

  first-not_ready :
      (fmt : ℕ) (a : ChunkStream) (msg : Bytes)
      → m.size ≡ length msg
      → max_chunk_size < length msg
      → IsAnnounced m a
      → (first_stream fmt a (take max_chunk_size msg)).ready ≡ false
  first-not_ready fmt a msg size lt announced =
      ground (arith, announced.all_left, announced.not_ready, length-take max_chunk_size msg)

  more_to_read :
      (f : ℕ) (left rest : Bytes) (sent : List Bytes)
      → send_rest f max_chunk_size csid left ≡ ok sent
      → 0 < length left
      → (length (joined sent ++ rest) == 0) ≡ false
  more_to_read f left rest sent es lo = ground (
    arith,
    length-append (joined sent) rest,
    (send_rest-nonempty f max_chunk_size csid left sent es lo).0,
  )

  first-IsPartial :
      (fmt : ℕ) (a : ChunkStream) (msg : Bytes)
      → m.size ≡ length msg
      → max_chunk_size < length msg
      → IsAnnounced m a
      → IsPartial a.time m
          (a.content ++ take max_chunk_size msg)
          (drop max_chunk_size msg)
          (first_stream fmt a (take max_chunk_size msg))
  first-IsPartial fmt a msg size lt announced = record {
    some_left =
        omega (
          arith,
          announced.all_left,
          length-take max_chunk_size msg,
          length-drop max_chunk_size msg,
        );
    content_sofar = refl;
    same_len = announced.same_len;
    same_type = announced.same_type;
    same_stream = announced.same_stream;
    same_time = refl;
    no_extended = announced.no_extended;
    not_ready = first-not_ready fmt a msg size lt announced;
  }

  -- The message in several chunks.
  pub deliver_several :
      (g f fmt : ℕ) (a : ChunkStream) (msg rest : Bytes) (sent : List Bytes)
      → IsChosen fmt m r
      → m.size ≡ length msg
      → max_chunk_size < length msg
      → send_rest f max_chunk_size csid (drop max_chunk_size msg) ≡ ok sent
      → length sent ≤ g
      → let pay = take max_chunk_size msg in
        read_header_of fmt r (header_tail fmt m ++ (pay ++ (joined sent ++ rest)))
          ≡ (complete, a, pay ++ (joined sent ++ rest))
        → IsAnnounced m a
        → Delivers max_chunk_size fresh_fmt fresh_rem csid a.time cs m msg rest (
            receive (suc g) (
              waiting max_chunk_size fresh_fmt fresh_rem cs fmt₀ csid₀ (
                basic_header fmt csid
                ∷ (header_tail fmt m ++ (take max_chunk_size msg ++ (joined sent ++ rest))))))
  deliver_several g f fmt a msg rest sent chosen size lt es le e announced =
      let pay = take max_chunk_size msg in
      let left = drop max_chunk_size msg in
      let first = first_stream fmt a pay in
      rw
        (receive_again g _ _
          (first_round fmt a pay (joined sent ++ rest) chosen e
            (pay-length a msg size lt announced))
          (rw (stored fmt a pay (joined sent ++ rest))
            (first-not_ready fmt a msg size lt announced))
          (more_to_read f left rest sent es (left-positive msg lt)))
        (subst
          (λ w. Delivers max_chunk_size fresh_fmt fresh_rem csid a.time cs m w rest (
            receive g (
              waiting max_chunk_size fresh_fmt fresh_rem (update cs csid (some first)) fmt csid
                (joined sent ++ rest))))
          (rw announced.no_content (take-append-drop max_chunk_size msg))
          (Delivers-update max_chunk_size fresh_fmt fresh_rem csid small positive a.time m rest cs
            (some first) _ _
            (receive_rest max_chunk_size fresh_fmt fresh_rem csid small positive a.time m rest f
              left (a.content ++ pay) sent es (left-positive msg lt) (update cs csid (some first))
              fmt csid first (update_self cs csid (some first)) refl
              (first-IsPartial fmt a msg size lt announced) g le)))
