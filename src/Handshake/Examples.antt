-- ===== src/Handshake/Examples.antt =====
-- The handshake of rtmp_handshake.cpp on concrete input.
use drone_server.Chunk.{complete}
use drone_server.Handshake.{
  Handshake, c1_size, digest_offset, find_digest, handle_c0c1, handle_c2, keylen, put_at,
  server_key, write_offset,
}
use drone_server.Handshake.Answers.{
  IsC0c1Answer, IsC2Answer, IsSha256, handle_c0c1-IsC0c1Answer, handle_c2-IsC2Answer,
  hmac_sha256-digest,
}
use drone_server.Handshake.Echo.{AreBytes, opened, send_s0s1s2-echo}
use drone_server.Handshake.Offsets.{find_digest-write_digest, offsets-bounds, write_digest-some}
use drone_server.Handshake.Replies.{send_s0s1s2}
use drone_server.Handshake.Verified.{IsVerified, send_s0s1s2-IsVerified}
use drone_server.Prelude.{
  Option, [], arith, false, length, length-replicate, refl, replicate, some, suc, zero, ℕ, ◌++◌,
  ◌+◌, ◌∷◌, ◌≡◌, ◌≤◌,
}
use drone_server.Prelude.Bytes.{Bytes}

-- A digest that is the same for all.
abbrev some_digest : Bytes
some_digest = replicate 32 7

abbrev constant_hmac : Bytes → Bytes → Option Bytes
constant_hmac key b = some some_digest

abbrev constant_hmac-IsSha256 : IsSha256 constant_hmac
constant_hmac-IsSha256 = record {
  digest = λ key b. some_digest;
  answers = λ key b. refl;
  length-digest = λ key b. refl;
}

-- A handshake at its start.
abbrev fresh : Handshake
fresh = record {
  c0_version = 0;
  c1_time = 0;
  c1_zero = 0;
  old = false;
  m = [];
  cdigest = replicate 32 0;
  sdigest = replicate 32 0;
}

-- c1 of the old handshake: the time 1 and the rest zero.
abbrev zeros : Bytes
zeros = replicate 1536 0

abbrev old_c1 : Bytes
old_c1 = 1 ∷ replicate 1535 0

abbrev some_random : Bytes
some_random = replicate 3073 5

AreBytes-replicate : (n : ℕ) → AreBytes (replicate n 0)
AreBytes-replicate zero = tt
AreBytes-replicate (suc n) = (omega arith, AreBytes-replicate n)

offsets-bounds_example :
    (776 ≤ digest_offset zeros 772)
    × (digest_offset zeros 772 ≤ 1503)
    × (digest_offset zeros 772 + keylen ≤ c1_size)
    × (12 ≤ digest_offset zeros 8)
    × (digest_offset zeros 8 ≤ 739)
    × (digest_offset zeros 8 + keylen ≤ 772)
    × (write_offset zeros 0 ≡ digest_offset zeros 8)
offsets-bounds_example = offsets-bounds zeros

find_digest-write_digest_example :
    find_digest constant_hmac (put_at (write_offset zeros 0) some_digest zeros) server_key 8
    ≡ some (write_offset zeros 0)
find_digest-write_digest_example =
    find_digest-write_digest constant_hmac zeros server_key 0
      (write_offset zeros 0, put_at (write_offset zeros 0) some_digest zeros)
      (write_digest-some constant_hmac zeros server_key some_digest 0 (
        hmac_sha256-digest constant_hmac constant_hmac-IsSha256 server_key zeros
          (some (write_offset zeros 0))))
      (omega (arith, length-replicate {A = ℕ} 1536 0))

handle_c0c1-IsC0c1Answer_example :
    IsC0c1Answer constant_hmac fresh (3 ∷ old_c1) (handle_c0c1 constant_hmac fresh (3 ∷ old_c1))
handle_c0c1-IsC0c1Answer_example =
    handle_c0c1-IsC0c1Answer constant_hmac constant_hmac-IsSha256 fresh (3 ∷ old_c1)

handle_c2-IsC2Answer_example : IsC2Answer zeros (handle_c2 constant_hmac fresh zeros)
handle_c2-IsC2Answer_example = handle_c2-IsC2Answer constant_hmac constant_hmac-IsSha256 fresh zeros

send_s0s1s2-echo_example :
    (handle_c0c1 constant_hmac fresh (3 ∷ old_c1 ++ []) ≡ (complete, opened fresh old_c1, []))
    × (s1 : Bytes) × (length s1 ≡ c1_size)
    × (send_s0s1s2 constant_hmac (opened fresh old_c1) (some some_random)
        ≡ some (3 ∷ s1 ++ old_c1, opened fresh old_c1))
send_s0s1s2-echo_example =
    send_s0s1s2-echo constant_hmac fresh old_c1 [] some_random
      (omega (arith, length-replicate {A = ℕ} 1535 0)) (omega arith, AreBytes-replicate 1535) refl
      (length-replicate {A = ℕ} 3073 5)

send_s0s1s2-IsVerified_example :
    (s1 s2 : Bytes) × (h' : Handshake) × (send_s0s1s2 constant_hmac fresh (some some_random)
      ≡ some (3 ∷ s1 ++ s2, h'))
    × IsVerified constant_hmac fresh s1 s2 h'
send_s0s1s2-IsVerified_example =
    send_s0s1s2-IsVerified constant_hmac constant_hmac-IsSha256 fresh some_random refl
      (length-replicate {A = ℕ} 3073 5)
