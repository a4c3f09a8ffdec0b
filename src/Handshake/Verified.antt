-- ===== src/Handshake/Verified.antt =====
-- The new handshake of rtmp_handshake.cpp: a client that knows the keys finds both digests of the reply.
use drone_server.Handshake.{
  Handshake, c1_size, c2_size, client_key, find_digest, hashed, hmac_sha256, keylen,
  partial_server_key, put_at, word_bytes, write_digest, write_offset,
}
use drone_server.Handshake.Answers.{IsSha256, hmac_sha256-digest}
use drone_server.Handshake.Echo.{reply_size}
use drone_server.Handshake.Offsets.{find_digest-write_digest, offsets-bounds, write_digest-some}
use drone_server.Handshake.Places.{found-put_at, length-put_at, take-put_at}
use drone_server.Handshake.Replies.{new_s1, new_s2, send_s0s1s2, stamped_s1, with_sdigest}
use drone_server.Prelude.{
  Option, [], arith, drop, false, length, length-drop, length-take, none, refl, some, subst, take,
  ℕ, ◌++◌, ◌+◌, ◌-◌, ◌∙◌, ◌∷◌, ◌≡◌, ◌≤◌,
}
use drone_server.Prelude.Bytes.{Bytes}

-- What a client can check of S1 and S2, and the digest that c2 is checked with.
pub record IsVerified (hmac : Bytes → Bytes → Option Bytes) (h : Handshake) (s1 s2 : Bytes)
    (h' : Handshake) : Type 0 where
  pub length_s1 : length s1 ≡ c1_size
  pub length_s2 : length s2 ≡ c2_size
  pub at : ℕ
  pub finds : find_digest hmac s1 partial_server_key 8 ≡ some at
  pub keeps : hmac_sha256 hmac client_key (take keylen (drop at s1)) none ≡ some h'.sdigest
  pub signs :
      hmac_sha256 hmac h.cdigest (take (c2_size - keylen) s2) none
      ≡ some (take keylen (drop (c2_size - keylen) s2))

length-stamped_s1 :
    (time : ℕ) (s1 : Bytes) → 8 ≤ length s1 → length (stamped_s1 time s1) ≡ length s1
length-stamped_s1 time s1 l =
    let first = length-put_at (word_bytes time) 0 s1 (omega (arith, l)) in
    let second =
      length-put_at (10 ∷ 0 ∷ 12 ∷ 13 ∷ []) 4 (put_at 0 (word_bytes time) s1)
        (omega (arith, first, l)) in
    second ∙ first

length-take_of : (n : ℕ) (b : Bytes) → n ≤ length b → length (take n b) ≡ n
length-take_of n b l = omega (arith, length-take n b, l)

module _ (hmac : Bytes → Bytes → Option Bytes) (sha : IsSha256 hmac) where
  -- S1 with the digest in it.
  signed_s1 : Bytes → Bytes
  signed_s1 s1 =
      put_at (write_offset s1 0)
        (sha.digest partial_server_key (hashed s1 (some (write_offset s1 0)))) s1

  signed_s2 : Bytes → Bytes → Bytes
  signed_s2 cdigest s2 =
      put_at (c2_size - keylen) (sha.digest cdigest (take (c2_size - keylen) s2)) s2

  write_digest-signed :
      (s1 : Bytes)
      → write_digest hmac s1 partial_server_key 0 ≡ some (write_offset s1 0, signed_s1 s1)
  unfolding signed_s1
  write_digest-signed s1 =
      write_digest-some hmac s1 partial_server_key _ 0
        (hmac_sha256-digest hmac sha partial_server_key s1 (some (write_offset s1 0)))

  new_s1-signed :
      (time : ℕ) (s1 : Bytes)
      → new_s1 hmac time s1
        ≡ some (
          signed_s1 (stamped_s1 time s1),
          sha.digest client_key (
              take keylen
                (drop (write_offset (stamped_s1 time s1) 0) (signed_s1 (stamped_s1 time s1)))),
        )
  new_s1-signed time s1 =
      rw
        (
          write_digest-signed (stamped_s1 time s1),
          new_s1,
          hmac_sha256-digest hmac sha,
          with_sdigest,
        )
        refl

  new_s2-signed : (cdigest s2 : Bytes) → new_s2 hmac cdigest s2 ≡ some (signed_s2 cdigest s2)
  unfolding signed_s2
  new_s2-signed cdigest s2 = rw (hmac_sha256-digest hmac sha, new_s2) refl

  signed_s2-signs :
      (cdigest s2 : Bytes)
      → length s2 ≡ c2_size
      → hmac_sha256 hmac cdigest (take (c2_size - keylen) (signed_s2 cdigest s2)) none
        ≡ some (take keylen (drop (c2_size - keylen) (signed_s2 cdigest s2)))
  unfolding signed_s2
  signed_s2-signs cdigest s2 l =
      let d = sha.digest cdigest (take (c2_size - keylen) s2) in
      let found : take keylen (drop (c2_size - keylen) (put_at (c2_size - keylen) d s2)) ≡ d =
        subst (λ k. take k (drop (c2_size - keylen) (put_at (c2_size - keylen) d s2)) ≡ d)
          (sha.length-digest cdigest (take (c2_size - keylen) s2))
          (found-put_at d (c2_size - keylen) s2 (omega (arith, l))) in
      rw (found, take-put_at d (c2_size - keylen) s2 (omega (arith, l)))
        (hmac_sha256-digest hmac sha cdigest (take (c2_size - keylen) s2) none)

  signed-IsVerified :
      (h : Handshake) (s1 s2 : Bytes)
      → length s1 ≡ c1_size
      → length s2 ≡ c2_size
      → IsVerified hmac h (signed_s1 s1) (signed_s2 h.cdigest s2) (record h {
        sdigest = sha.digest client_key (take keylen (drop (write_offset s1 0) (signed_s1 s1)));
      })
  unfolding signed_s1 signed_s2
  signed-IsVerified h s1 s2 l1 l2 =
      let n = write_offset s1 0 in
      let d1 = sha.digest partial_server_key (hashed s1 (some n)) in
      let d2 = sha.digest h.cdigest (take (c2_size - keylen) s2) in
      let inside : n + length d1 ≤ length s1 =
        omega (
          arith,
          offsets-bounds s1,
          sha.length-digest partial_server_key (hashed s1 (some n)),
          l1,
        ) in
      record {
        length_s1 = length-put_at d1 n s1 inside ∙ l1;
        length_s2 =
            length-put_at d2 (c2_size - keylen) s2
              (omega (arith, sha.length-digest h.cdigest (take (c2_size - keylen) s2), l2))
            ∙ l2;
        at = n;
        finds =
            find_digest-write_digest hmac s1 partial_server_key 0 (n, signed_s1 s1)
              (write_digest-signed s1) (omega (arith, l1));
        keeps = hmac_sha256-digest hmac sha client_key (take keylen (drop n (signed_s1 s1))) none;
        signs = signed_s2-signs h.cdigest s2 l2;
      }

  -- In the new handshake the reply to a client is a byte 3, S1 and S2 of 1536 bytes each; a client finds
  -- in S1 the server's digest under the key that both know, S2 ends with the digest of what is before
  -- under the digest of c1 that was kept, and the digest of S1 is kept for c2. `random` are the 3073
  -- bytes that `RAND_bytes` gives; `HMAC` always gives a digest of 32 bytes.
  pub send_s0s1s2-IsVerified :
      (h : Handshake) (random : Bytes)
      → h.old ≡ false
      → length random ≡ reply_size
      → (s1 s2 : Bytes) × (h' : Handshake) × (send_s0s1s2 hmac h (some random)
          ≡ some (3 ∷ s1 ++ s2, h'))
        × IsVerified hmac h s1 s2 h'
  unfolding send_s0s1s2
  send_s0s1s2-IsVerified h random new r =
      let s1 = take c1_size (drop 1 random) in
      let s2 = take c2_size (drop (1 + c1_size) random) in
      let stamped = stamped_s1 h.c1_time s1 in
      let l1 : length s1 ≡ c1_size =
        length-take_of c1_size (drop 1 random) (omega (arith, length-drop 1 random, r)) in
      let l2 : length s2 ≡ c2_size =
        length-take_of c2_size (drop (1 + c1_size) random)
          (omega (arith, length-drop (1 + c1_size) random, r)) in
      (
        signed_s1 stamped,
        signed_s2 h.cdigest s2,
        record h {
          sdigest =
              sha.digest client_key
                (take keylen (drop (write_offset stamped 0) (signed_s1 stamped)));
        },
        rw (new, new_s1-signed h.c1_time s1, new_s2-signed h.cdigest s2, send_s0s1s2) refl,
        signed-IsVerified h stamped s2 (length-stamped_s1 h.c1_time s1 (omega (arith, l1)) ∙ l1) l2,
      )
