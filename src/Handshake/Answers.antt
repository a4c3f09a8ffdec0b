-- ===== src/Handshake/Answers.antt =====
-- The answers of `handle_c0c1` and `handle_c2` of rtmp_handshake.cpp.
use drone_server.Chunk.{Answer, byte_in, complete, incomplete, refused}
use drone_server.Handshake.{
  Handshake, c0_size, c1_read, c1_size, c2_size, find_either, handle_c0c1, handle_c2, hashed,
  hmac_sha256, keylen, parse_c0, parse_c1, parse_c2, partial_client_key, read_word, server_key,
  with_c1, with_offset,
}
use drone_server.Prelude.{
  Bool, Bool-cases, Option, ap, arith, drop, false, inl, inr, length, ltb, none, refl, some, subst,
  sym, take, tests, true, ℕ, ◌+◌, ◌<◌, ◌==◌, ◌||◌, ◌∙◌, ◌≡◌, ◌≢◌, ◌≤◌,
}
use drone_server.Prelude.Bytes.{Bytes}

-- `HMAC` of a key and data is never null, and a SHA-256 digest has 32 bytes.
pub record IsSha256 (hmac : Bytes → Bytes → Option Bytes) : Type 0 where
  pub digest : Bytes → Bytes → Bytes
  pub answers : (key b : Bytes) → hmac key b ≡ some (digest key b)
  pub length-digest : (key b : Bytes) → length (digest key b) ≡ keylen

-- A client with no digest that can be found gets the old handshake.
abbrev pub is_unsigned : Option ℕ → Bool
is_unsigned none = true
is_unsigned (some offs) = false

abbrev pub old_chosen : (Bytes → Bytes → Option Bytes) → Bytes → Bool → Bool
old_chosen hmac m b =
    (read_word m 4 == 0) || (is_unsigned (find_either hmac m partial_client_key) || b)

-- What the first step of the handshake does with what has been received, from `h₀` on.
abbrev pub IsC0c1Answer :
    (Bytes → Bytes → Option Bytes) → Handshake → Bytes → Answer × Handshake × Bytes → Type 0
IsC0c1Answer hmac h₀ buf (incomplete, h, rest) = (length buf < 1537) × (h ≡ h₀) × (rest ≡ buf)
IsC0c1Answer hmac h₀ buf (refused, h, rest) = (1537 ≤ length buf) × (byte_in buf 0 ≢ 3)
IsC0c1Answer hmac h₀ buf (complete, h, rest) =
    (1537 ≤ length buf)
    × (byte_in buf 0 ≡ 3)
    × (rest ≡ drop 1536 (drop 1 buf))
    × (h.m ≡ take 1536 (drop 1 buf))
    × (h.c1_time ≡ read_word h.m 0)
    × (h.old ≡ old_chosen hmac h.m h₀.old)

-- What the second step does: whatever the digest of c2 is, it is taken.
abbrev pub IsC2Answer : Bytes → Answer × Handshake × Bytes → Type 0
IsC2Answer buf (incomplete, h, rest) = (length buf < 1536) × (rest ≡ buf)
IsC2Answer buf (refused, h, rest) = ⊥
IsC2Answer buf (complete, h, rest) = (1536 ≤ length buf) × (rest ≡ drop 1536 buf)

module _ (hmac : Bytes → Bytes → Option Bytes) (sha : IsSha256 hmac) where
  pub hmac_sha256-digest :
      (key b : Bytes) (skip : Option ℕ)
      → hmac_sha256 hmac key b skip ≡ some (sha.digest key (hashed b skip))
  unfolding hmac_sha256
  hmac_sha256-digest key b skip =
      rw (sha.answers key (hashed b skip), hmac_sha256)
        (ground (arith, sha.length-digest key (hashed b skip)))

  c2_taken :
      (h : Handshake) (buf : Bytes) → 1536 ≤ length buf → IsC2Answer buf (parse_c2 hmac h buf)
  unfolding parse_c2
  c2_taken h buf e = elim (Bool-cases h.old) [
    | inl q ↦ rw (q, parse_c2) (e, refl)
    | inr q ↦ rw (q, parse_c2, hmac_sha256-digest) (e, refl)
  ]

  -- The second step of the handshake waits for 1536 bytes and takes them off; no digest in them makes
  -- it refuse the client, if `HMAC` always gives a digest of 32 bytes.
  pub handle_c2-IsC2Answer : (h : Handshake) (buf : Bytes) → IsC2Answer buf (handle_c2 hmac h buf)
  unfolding handle_c2
  handle_c2-IsC2Answer h buf = elim (Bool-cases (ltb (length buf) c2_size)) [
    | inl e ↦ rw e (omega (tests, e), refl)
    | inr e ↦ rw e (c2_taken h buf (ground (arith, e)))
  ]

  -- What reading c1 leaves.
  abbrev C1Read : Handshake → Answer × Handshake → Type 0
  C1Read h (answer, h') =
      (answer ≡ complete)
      × (h'.m ≡ h.m)
      × (h'.c1_time ≡ h.c1_time)
      × (h'.old
          ≡ ((h.c1_zero == 0) || (is_unsigned (find_either hmac h.m partial_client_key) || h.old)))

  -- The digest that was looked for.
  abbrev OffsetRead : Handshake → Option ℕ → Answer × Handshake → Type 0
  OffsetRead h found (answer, h') =
      (answer ≡ complete)
      × (h'.m ≡ h.m)
      × (h'.c1_time ≡ h.c1_time)
      × (h'.old ≡ (is_unsigned found || h.old))

  with_offset-OffsetRead :
      (h : Handshake) (found : Option ℕ) → OffsetRead h found (with_offset hmac h found)
  with_offset-OffsetRead h none = (refl, refl, refl, refl)
  with_offset-OffsetRead h (some offs) =
      rw (hmac_sha256-digest server_key (take keylen (drop offs h.m)) none) (refl, refl, refl, refl)

  c1_read-C1Read : (h : Handshake) → C1Read h (c1_read hmac h)
  c1_read-C1Read h = elim (Bool-cases (h.c1_zero == 0)) [
    | inl e ↦ rw e (refl, refl, refl, refl)
    | inr e ↦ rw e (with_offset-OffsetRead h (find_either hmac h.m partial_client_key))
  ]

  parse_c1-IsC0c1Answer :
      (h₀ h : Handshake) (buf : Bytes)
      → h.old ≡ h₀.old
      → 1537 ≤ length buf
      → byte_in buf 0 ≡ 3
      → IsC0c1Answer hmac h₀ buf (parse_c1 hmac h (drop 1 buf))
  unfolding parse_c1
  parse_c1-IsC0c1Answer h₀ h buf o e v =
      let read = with_c1 (take c1_size (drop 1 buf)) h in
      let r = c1_read-C1Read read in
      subst (λ a. IsC0c1Answer hmac h₀ buf (a, (c1_read hmac read).1, drop c1_size (drop 1 buf)))
        (sym r.0)
        (
          e,
          v,
          refl,
          r.1,
          r.2 ∙ ap (λ b. read_word b 0) (sym r.1),
          r.3 ∙ ap (old_chosen hmac read.m) o ∙ ap (λ m. old_chosen hmac m h₀.old) (sym r.1),
        )

  -- The first step of the handshake waits for 1537 bytes. It refuses a version other than 3, and it
  -- refuses nothing else: c1 is kept with its time, the bytes are taken off, and the old handshake is
  -- chosen where the second word of c1 is zero or c1 has no digest, if `HMAC` always gives a digest of 32
  -- bytes.
  pub handle_c0c1-IsC0c1Answer :
      (h : Handshake) (buf : Bytes) → IsC0c1Answer hmac h buf (handle_c0c1 hmac h buf)
  unfolding handle_c0c1 parse_c0
  handle_c0c1-IsC0c1Answer h buf = elim (Bool-cases (ltb (length buf) (c0_size + c1_size))) [
    | inl e ↦ rw e (omega (tests, e), refl, refl)
    | inr e ↦ elim (Bool-cases (byte_in buf 0 == 3)) [
      | inl v ↦
          rw (e, v)
            (parse_c1-IsC0c1Answer h (record h { c0_version = byte_in buf 0 }) buf refl
              (ground (arith, e)) (ground (arith, v)))
      | inr v ↦ rw (e, v) (ground (arith, e), λ q. ground (arith, v, q))
    ]
  ]
