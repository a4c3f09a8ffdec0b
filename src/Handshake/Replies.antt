-- ===== src/Handshake/Replies.antt =====
-- `send_s0s1s2` of rtmp_handshake.cpp. `random` is what `RAND_bytes` fills the array with, or `none`
-- if it fails.
use drone_server.Handshake.{
  Handshake, c1_size, c2_size, client_key, hmac_sha256, keylen, partial_server_key, put_at,
  word_bytes, write_digest,
}
use drone_server.Prelude.{Option, [], drop, if◌then◌else◌, none, some, take, ℕ, ◌++◌, ◌+◌, ◌-◌, ◌∷◌}
use drone_server.Prelude.Bytes.{Bytes}

-- S1 of the old handshake.
abbrev pub old_s1 : Bytes → Bytes
old_s1 s1 = put_at 4 (word_bytes 0) (put_at 0 (word_bytes 0) s1)

-- The time and the version of S1 before its digest.
abbrev pub stamped_s1 : ℕ → Bytes → Bytes
stamped_s1 time s1 = put_at 4 (10 ∷ 0 ∷ 12 ∷ 13 ∷ []) (put_at 0 (word_bytes time) s1)

-- S2 of the old handshake is c1 with its second word cleared.
abbrev pub echoed_m : Handshake → Bytes
echoed_m h = put_at 4 (word_bytes 0) (put_at 0 (word_bytes h.c1_time) h.m)

abbrev pub s0s1s2 : Bytes → Bytes → Bytes
s0s1s2 s1 s2 = 3 ∷ s1 ++ s2

module _ (hmac : Bytes → Bytes → Option Bytes) where
  -- S1 with its digest, and the digest of that.
  abbrev pub with_sdigest : ℕ × Bytes → Option (Bytes × Bytes)
  with_sdigest (offs, s1) = elim (hmac_sha256 hmac client_key (take keylen (drop offs s1)) none) [
    | none ↦ none
    | some digest ↦ some (s1, digest)
  ]

  abbrev pub new_s1 : ℕ → Bytes → Option (Bytes × Bytes)
  new_s1 time s1 = elim (write_digest hmac (stamped_s1 time s1) partial_server_key 0) [
    | none ↦ none
    | some r ↦ with_sdigest r
  ]

  abbrev pub new_s2 : Bytes → Bytes → Option Bytes
  new_s2 cdigest s2 = elim (hmac_sha256 hmac cdigest (take (c2_size - keylen) s2) none) [
    | none ↦ none
    | some digest ↦ some (put_at (c2_size - keylen) digest s2)
  ]

  abbrev pub after_s2 : Handshake → Bytes → Bytes → Option Bytes → Option (Bytes × Handshake)
  after_s2 h s1 sdigest none = none
  after_s2 h s1 sdigest (some s2) = some (s0s1s2 s1 s2, record h { sdigest = sdigest })

  abbrev pub after_s1 : Handshake → Bytes → Option (Bytes × Bytes) → Option (Bytes × Handshake)
  after_s1 h s2 none = none
  after_s1 h s2 (some (s1, sdigest)) = after_s2 h s1 sdigest (new_s2 h.cdigest s2)

  abbrev pub filled : Handshake → Bytes → Bytes → Option (Bytes × Handshake)
  filled h s1 s2 =
      if h.old
      then some (s0s1s2 (old_s1 s1) (echoed_m h), record h { m = echoed_m h })
      else after_s1 h s2 (new_s1 h.c1_time s1)

  -- What is written to the session, or `none` for the answer -1.
  unfoldable pub send_s0s1s2 : Handshake → Option Bytes → Option (Bytes × Handshake)
  send_s0s1s2 h none = none
  send_s0s1s2 h (some random) =
      filled h (take c1_size (drop 1 random)) (take c2_size (drop (1 + c1_size) random))
