-- ===== src/Handshake/Places.antt =====
-- `put_at`, the write into an array of rtmp_handshake.cpp.
use drone_server.Chunk.{byte_in}
use drone_server.Handshake.{put_at}
use drone_server.Prelude.{
  [], ap, arith, drop, drop-append, length, length-append, length-drop, length-take, refl, suc,
  take, take-append, zero, ℕ, ◌++◌, ◌+◌, ◌<◌, ◌∷◌, ◌≡◌, ◌≤◌,
}
use drone_server.Prelude.Bytes.{Bytes}

module _ (d : Bytes) where
  pub length-put_at :
      (n : ℕ) (b : Bytes) → n + length d ≤ length b → length (put_at n d b) ≡ length b
  unfolding put_at
  length-put_at n b h = omega (
    arith,
    length-append (take n b) (d ++ drop (length d) (drop n b)),
    length-append d (drop (length d) (drop n b)),
    length-take n b,
    length-drop (length d) (drop n b),
    length-drop n b,
  )

  pub take-put_at : (n : ℕ) (b : Bytes) → n ≤ length b → take n (put_at n d b) ≡ take n b
  unfolding put_at
  take-put_at zero b h = refl
  take-put_at (suc n) [] h = absurd (omega (arith, h))
  take-put_at (suc n) (x ∷ b) h = ap (◌∷◌ x) (take-put_at n b (omega (arith, h)))

  pub drop-put_at :
      (n : ℕ) (b : Bytes) → n ≤ length b → drop n (put_at n d b) ≡ d ++ drop (length d) (drop n b)
  unfolding put_at
  drop-put_at zero b h = refl
  drop-put_at (suc n) [] h = absurd (omega (arith, h))
  drop-put_at (suc n) (x ∷ b) h = drop-put_at n b (omega (arith, h))

  pub byte_in-put_at :
      (n : ℕ) (b : Bytes) (i : ℕ) → n ≤ length b → i < n → byte_in (put_at n d b) i ≡ byte_in b i
  unfolding put_at
  byte_in-put_at zero b i h k = absurd (omega (arith, k))
  byte_in-put_at (suc n) [] i h k = absurd (omega (arith, h))
  byte_in-put_at (suc n) (x ∷ b) zero h k = refl
  byte_in-put_at (suc n) (x ∷ b) (suc i) h k =
      byte_in-put_at n b i (omega (arith, h)) (omega (arith, k))

  pub found-put_at :
      (n : ℕ) (b : Bytes) → n ≤ length b → take (length d) (drop n (put_at n d b)) ≡ d
  found-put_at n b h = rw (drop-put_at n b h) (take-append d (drop (length d) (drop n b)))

  pub rest-put_at :
      (n : ℕ) (b : Bytes)
      → n ≤ length b
      → drop (length d) (drop n (put_at n d b)) ≡ drop (length d) (drop n b)
  unfolding put_at
  rest-put_at zero b h = drop-append d (drop (length d) b)
  rest-put_at (suc n) [] h = absurd (omega (arith, h))
  rest-put_at (suc n) (x ∷ b) h = rest-put_at n b (omega (arith, h))
