-- ===== src/Handshake/Echo.antt =====
-- The old handshake of rtmp_handshake.cpp, without digests.
use drone_server.Chunk.{complete}
use drone_server.Handshake.{
  Handshake, c0_size, c1_size, c2_size, handle_c0c1, parse_c0, parse_c1, put_at, read_word, with_c1,
  word_bytes,
}
use drone_server.Handshake.Places.{length-put_at}
use drone_server.Handshake.Replies.{echoed_m, old_s1, s0s1s2, send_s0s1s2}
use drone_server.Prelude.{
  Option, [], ap, arith, drop, drop-append, false, length, length-append, length-drop, length-take,
  ltb, refl, some, subst, suc, sym, take, take-append, take-append-drop, true, zero, ℕ, ◌++◌, ◌+◌,
  ◌<◌, ◌∙◌, ◌∷◌, ◌≡◌, ◌≤◌,
}
use drone_server.Prelude.Bytes.{Bytes, byte_at}

-- Patterns of 8 bits.
abbrev pub AreBytes : Bytes → Type 0
AreBytes [] = Unit {0}
AreBytes (x ∷ xs) = (x < 256) × AreBytes xs

word_bytes-read_word :
    (b : Bytes) → AreBytes b → 4 ≤ length b → word_bytes (read_word b 0) ≡ take 4 b
word_bytes-read_word [] h l = absurd (omega (arith, l))
word_bytes-read_word (w ∷ []) h l = absurd (omega (arith, l))
word_bytes-read_word (w ∷ x ∷ []) h l = absurd (omega (arith, l))
word_bytes-read_word (w ∷ x ∷ y ∷ []) h l = absurd (omega (arith, l))
word_bytes-read_word (w ∷ x ∷ y ∷ z ∷ b) (hw, (hx, (hy, (hz, h)))) l =
    let low : byte_at (read_word (w ∷ x ∷ y ∷ z ∷ b) 0) 0 ≡ w = omega (arith, hw) in
    let second : byte_at (read_word (w ∷ x ∷ y ∷ z ∷ b) 0) 1 ≡ x = omega (arith, hw, hx) in
    let third : byte_at (read_word (w ∷ x ∷ y ∷ z ∷ b) 0) 2 ≡ y = omega (arith, hw, hx, hy) in
    let high : byte_at (read_word (w ∷ x ∷ y ∷ z ∷ b) 0) 3 ≡ z = omega (arith, hw, hx, hy, hz) in
    cc (low, second, third, high)

AreBytes-drop : (n : ℕ) (b : Bytes) → AreBytes b → AreBytes (drop n b)
AreBytes-drop zero b h = h
AreBytes-drop (suc n) [] h = tt
AreBytes-drop (suc n) (x ∷ b) h = AreBytes-drop n b h.1

read_word-drop4 : (b : Bytes) → 4 ≤ length b → read_word (drop 4 b) 0 ≡ read_word b 4
read_word-drop4 [] l = refl
read_word-drop4 (w ∷ []) l = refl
read_word-drop4 (w ∷ x ∷ []) l = refl
read_word-drop4 (w ∷ x ∷ y ∷ []) l = refl
read_word-drop4 (w ∷ x ∷ y ∷ z ∷ b) l = refl

put_at-same : (n : ℕ) (d b : Bytes) → take (length d) (drop n b) ≡ d → put_at n d b ≡ b
unfolding put_at
put_at-same n d b e =
    ap (λ x. take n b ++ (x ++ drop (length d) (drop n b))) (sym e)
    ∙ ap (◌++◌ (take n b)) (take-append-drop (length d) (drop n b))
    ∙ take-append-drop n b

-- The words of c1 that S2 is given anew are those that it has.
echoed_m-same :
    (h : Handshake)
    → AreBytes h.m
    → 8 ≤ length h.m
    → h.c1_time ≡ read_word h.m 0
    → read_word h.m 4 ≡ 0
    → echoed_m h ≡ h.m
echoed_m-same h bytes l time z =
    let first : put_at 0 (word_bytes h.c1_time) h.m ≡ h.m =
      put_at-same 0 (word_bytes h.c1_time) h.m
        (sym (ap word_bytes time ∙ word_bytes-read_word h.m bytes (omega (arith, l)))) in
    let second : put_at 4 (word_bytes 0) h.m ≡ h.m = put_at-same 4 (word_bytes 0) h.m (
      sym (
        ap word_bytes (sym z ∙ sym (read_word-drop4 h.m (omega (arith, l))))
        ∙ word_bytes-read_word (drop 4 h.m) (AreBytes-drop 4 h.m bytes)
            (omega (arith, l, length-drop 4 h.m)))) in
    ap (put_at 4 (word_bytes 0)) first ∙ second

-- What the first step leaves of the handshake when c1 has no version.
abbrev pub opened : Handshake → Bytes → Handshake
opened h c1 = record (with_c1 c1 h) { c0_version = 3; old = true }

-- S1 and S2 as long as c1, after a byte 3.
abbrev pub reply_size : ℕ
reply_size = c0_size + c1_size + c2_size

length-old_s1 :
    (random : Bytes)
    → reply_size ≤ length random
    → length (old_s1 (take c1_size (drop 1 random))) ≡ c1_size
length-old_s1 random l =
    let s1 = take c1_size (drop 1 random) in
    let whole : length s1 ≡ c1_size =
      omega (arith, length-take c1_size (drop 1 random), length-drop 1 random, l) in
    let first = length-put_at (word_bytes 0) 0 s1 (omega (arith, whole)) in
    let second =
      length-put_at (word_bytes 0) 4 (put_at 0 (word_bytes 0) s1) (omega (arith, first, whole)) in
    second ∙ first ∙ whole

module _ (hmac : Bytes → Bytes → Option Bytes) where
  handle_c0c1-opened :
      (h : Handshake) (c1 rest : Bytes)
      → length c1 ≡ c1_size
      → read_word c1 4 ≡ 0
      → handle_c0c1 hmac h (3 ∷ c1 ++ rest) ≡ (complete, opened h c1, rest)
  unfolding handle_c0c1 parse_c0 parse_c1
  handle_c0c1-opened h c1 rest l z =
      let enough : ltb (length (3 ∷ c1 ++ rest)) (c0_size + c1_size) ≡ false =
        ground (arith, length-append c1 rest, l) in
      let head : take c1_size (c1 ++ rest) ≡ c1 =
        subst (λ n. take n (c1 ++ rest) ≡ c1) l (take-append c1 rest) in
      let tail : drop c1_size (c1 ++ rest) ≡ rest =
        subst (λ n. drop n (c1 ++ rest) ≡ rest) l (drop-append c1 rest) in
      rw (enough, head, tail, z) refl

  -- A client of version 3 whose c1 has a zero as its second word is answered with S0, S1 and S2 of
  -- 3073 bytes, of which the first is 3 and the last 1536, S2, are its c1; what it sent after c1 stays
  -- unread. `random` are the 3073 bytes that `RAND_bytes` gives.
  pub send_s0s1s2-echo :
      (h : Handshake) (c1 rest random : Bytes)
      → length c1 ≡ c1_size
      → AreBytes c1
      → read_word c1 4 ≡ 0
      → length random ≡ reply_size
      → (handle_c0c1 hmac h (3 ∷ c1 ++ rest) ≡ (complete, opened h c1, rest))
        × (s1 : Bytes) × (length s1 ≡ c1_size)
        × (send_s0s1s2 hmac (opened h c1) (some random) ≡ some (3 ∷ s1 ++ c1, opened h c1))
  unfolding send_s0s1s2
  send_s0s1s2-echo h c1 rest random l bytes z r =
      let same = echoed_m-same (opened h c1) bytes (omega (arith, l)) refl z in
      (
        handle_c0c1-opened h c1 rest l z,
        old_s1 (take c1_size (drop 1 random)),
        length-old_s1 random (omega (arith, r)),
        ap
            (λ m.
              some
                (s0s1s2 (old_s1 (take c1_size (drop 1 random))) m, record (opened h c1) { m = m }))
            same,
      )
