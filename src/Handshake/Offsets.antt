-- ===== src/Handshake/Offsets.antt =====
-- Where rtmp_handshake.cpp looks for digests, and that it finds those it wrote.
use drone_server.Handshake.{
  c1_size, digest_offset, find_digest, hashed, hmac_sha256, keylen, put_at, same_digest, sized,
  sum_bytes, write_digest, write_offset,
}
use drone_server.Handshake.Places.{
  byte_in-put_at, found-put_at, length-put_at, rest-put_at, take-put_at,
}
use drone_server.Prelude.{
  Bool-cases, Option, Option-cases, ap, arith, drop, inl, inr, length, none, refl, some, subst, sym,
  take, ℕ, ◌++◌, ◌+◌, ◌<◌, ◌==◌, ◌∙◌, ◌≡◌, ◌≤◌,
}
use drone_server.Prelude.Bytes.{Bytes, bytes_eq_refl}

-- Whatever bytes the array holds, the places where `parse_c1` and `parse_c2` look for a digest are 776 to
-- 1503 and 12 to 739, with the `keylen` bytes of the digest past the four that give the place and inside
-- the array of 1536; and the place where `send_s0s1s2` writes a digest is the second of these.
pub offsets-bounds :
    (b : Bytes)
    → (776 ≤ digest_offset b 772)
      × (digest_offset b 772 ≤ 1503)
      × (digest_offset b 772 + keylen ≤ c1_size)
      × (12 ≤ digest_offset b 8)
      × (digest_offset b 8 ≤ 739)
      × (digest_offset b 8 + keylen ≤ 772)
      × (write_offset b 0 ≡ digest_offset b 8)
unfolding digest_offset write_offset
offsets-bounds b =
    (omega arith, omega arith, omega arith, omega arith, omega arith, omega arith, omega arith)

hashed_inside :
    (b : Bytes) (n : ℕ) → n ≤ length b → hashed b (some n) ≡ take n b ++ drop keylen (drop n b)
hashed_inside b n h = ground (arith, h)

hashed-put_at :
    (d : Bytes) (n : ℕ) (b : Bytes)
    → length d ≡ keylen
    → n + keylen ≤ length b
    → hashed (put_at n d b) (some n) ≡ hashed b (some n)
hashed-put_at d n b l h =
    let inside : n ≤ length b = omega (arith, h) in
    let rest =
      subst (λ k. drop k (drop n (put_at n d b)) ≡ drop k (drop n b)) l
        (rest-put_at d n b inside) in
    rw
      (
        hashed_inside b n inside,
        hashed_inside (put_at n d b) n
            (omega (arith, length-put_at d n b (omega (arith, l, h)), h)),
        take-put_at d n b inside,
        rest,
      )
      refl

sum_bytes-put_at :
    (d : Bytes) (n : ℕ) (b : Bytes) (i : ℕ)
    → n ≤ length b
    → i + 3 < n
    → sum_bytes (put_at n d b) i ≡ sum_bytes b i
unfolding sum_bytes
sum_bytes-put_at d n b i h k =
    rw
      (
        byte_in-put_at d n b i h (omega (arith, k)),
        byte_in-put_at d n b (i + 1) h (omega (arith, k)),
        byte_in-put_at d n b (i + 2) h (omega (arith, k)),
        byte_in-put_at d n b (i + 3) h k,
      )
      refl

sized-length : (d e : Bytes) → sized d ≡ some e → length e ≡ keylen
sized-length d e h = elim (Bool-cases (length d == keylen)) [
  | inl q ↦ ground (arith, q, h)
  | inr q ↦ absurd (ground (arith, q, h))
]

write_offset_inside : (b : Bytes) (base : ℕ) → write_offset b base + 33 ≤ base + 772
unfolding write_offset
write_offset_inside b base = omega arith

digest_offset-put_at :
    (d b : Bytes) (base : ℕ)
    → write_offset b base ≤ length b
    → digest_offset (put_at (write_offset b base) d b) (base + 8) ≡ write_offset b base
unfolding digest_offset write_offset
digest_offset-put_at d b base h =
    omega (arith, sum_bytes-put_at d (write_offset b base) b (base + 8) h (omega arith))

same_digest_refl : (d b : Bytes) (n : ℕ) → take keylen (drop n b) ≡ d → same_digest d b n ≡ some n
same_digest_refl d b n e = rw (e, bytes_eq_refl d) refl

module _ (hmac : Bytes → Bytes → Option Bytes) where
  pub hmac_sha256-length :
      (key b : Bytes) (skip : Option ℕ) (d : Bytes)
      → hmac_sha256 hmac key b skip ≡ some d
      → length d ≡ keylen
  unfolding hmac_sha256
  hmac_sha256-length key b skip d h = elim (Option-cases (hmac key (hashed b skip))) [
    | inl e ↦ absurd (cc (h, ap (λ o. elim o [ none ↦ none | some y ↦ sized y ]) e))
    | inr (x, e) ↦
        sized-length x d (sym (ap (λ o. elim o [ none ↦ none | some y ↦ sized y ]) e) ∙ h)
  ]

  -- What `write_digest` of `b` is, where the hash is `d`.
  hmac_sha256-put_at :
      (key d : Bytes) (n : ℕ) (b : Bytes)
      → length d ≡ keylen
      → n + keylen ≤ length b
      → hmac_sha256 hmac key (put_at n d b) (some n) ≡ hmac_sha256 hmac key b (some n)
  unfolding hmac_sha256
  hmac_sha256-put_at key d n b l h = rw (hashed-put_at d n b l h, hmac_sha256) refl

  found_there :
      (key d b : Bytes) (n base : ℕ)
      → hmac_sha256 hmac key b (some n) ≡ some d
      → n + keylen ≤ length b
      → digest_offset (put_at n d b) base ≡ n
      → find_digest hmac (put_at n d b) key base ≡ some n
  unfolding find_digest
  found_there key d b n base e h same =
      let b' = put_at n d b in
      let l = hmac_sha256-length key b (some n) d e in
      let hash : hmac_sha256 hmac key b' (some (digest_offset b' base)) ≡ some d =
        subst (λ k. hmac_sha256 hmac key b' (some k) ≡ some d) (sym same)
          (hmac_sha256-put_at key d n b l h ∙ e) in
      rw (hash, find_digest)
        (subst (λ k. same_digest d b' k ≡ some n) (sym same)
          (same_digest_refl d b' n
            (subst (λ k. take k (drop n b') ≡ d) l (found-put_at d n b (omega (arith, h))))))

  write_digest-none :
      (b key : Bytes) (base : ℕ)
      → hmac_sha256 hmac key b (some (write_offset b base)) ≡ none
      → write_digest hmac b key base ≡ none
  unfolding write_digest
  write_digest-none b key base e = rw (e, write_digest) refl

  pub write_digest-some :
      (b key d : Bytes) (base : ℕ)
      → hmac_sha256 hmac key b (some (write_offset b base)) ≡ some d
      → write_digest hmac b key base ≡ some (write_offset b base, put_at (write_offset b base) d b)
  unfolding write_digest
  write_digest-some b key d base e = rw (e, write_digest) refl

  -- A digest that `write_digest` has written, `find_digest` finds in the result under the same key, at
  -- the same place, if it starts from 8 bytes further on; the array has 771 bytes past the base.
  pub find_digest-write_digest :
      (b key : Bytes) (base : ℕ) (r : ℕ × Bytes)
      → write_digest hmac b key base ≡ some r
      → base + 771 ≤ length b
      → find_digest hmac r.1 key (base + 8) ≡ some r.0
  unfolding write_digest
  find_digest-write_digest b key base r w h =
      elim (Option-cases (hmac_sha256 hmac key b (some (write_offset b base)))) [
        | inl e ↦ absurd (cc (sym (write_digest-none b key base e) ∙ w))
        | inr (d, e) ↦
            let there : some (write_offset b base, put_at (write_offset b base) d b) ≡ some r =
              sym (write_digest-some b key d base e) ∙ w in
            let inside : write_offset b base + keylen ≤ length b =
              omega (arith, write_offset_inside b base, h) in
            subst {A = ℕ × Bytes} (λ o. find_digest hmac o.1 key (base + 8) ≡ some o.0) (cc there)
              (found_there key d b (write_offset b base) (base + 8) e inside
                (digest_offset-put_at d b base (omega (arith, inside))))
      ]
