-- ===== src/Buffer/Progress.antt =====
-- The reads of simple_buffer.cpp on any buffer whose cursor is in range.
use drone_server.Buffer.{
  Reader, SimpleBuffer, assert_require, next_byte, read_1byte, read_2bytes, read_4bytes,
  read_8bytes, read_places, read_string, remaining, require, take_string, ◌>>>=◌,
}
use drone_server.Prelude.{
  Bool-cases, List, Option-cases, [], arith, get_elem?, if◌then◌else◌, inl, inr, leb, length, refl,
  some, suc, zero, ℕ, ◌*◌, ◌+◌, ◌-◌, ◌<◌, ◌^◌, ◌∷◌, ◌≡◌, ◌≤◌,
}
use drone_server.Prelude.Int.{negsuc, pos, ℤ}
use drone_server.Prelude.Outcome.{Ensures, Ensures-bind, Outcome, fault, ok, out_of_fuel}

abbrev pub InRange : SimpleBuffer → Type 0
InRange b = b.pos ≤ length b.content

abbrev pub unread : SimpleBuffer → ℕ
unread b = length b.content - b.pos

-- The reader does not run out of fuel, and if it ends normally then the cursor is in range and at most
-- `k` bytes are unread.
abbrev pub Within {ℓ} : {A : Type ℓ} → ℕ → Outcome (A × SimpleBuffer) → Type 0
Within k = Ensures λ r. InRange r.1 × (unread r.1 ≤ k)

pub Within-bind {ℓ κ} :
    {A : Type ℓ} {B : Type κ} (j k : ℕ) (b : SimpleBuffer) (p : Reader A) (q : A → Reader B)
    → Within j (p b)
    → ((a : A) (b' : SimpleBuffer) → InRange b' → unread b' ≤ j → Within k (q a b'))
    → Within k ((p >>>= q) b)
Within-bind j k b p q h rest =
    Ensures-bind (λ r. InRange r.1 × (unread r.1 ≤ j)) (λ r. InRange r.1 × (unread r.1 ≤ k)) (p b)
      (λ r. q r.0 r.1) h (λ r c. rest r.0 r.1 c.0 c.1)

pub Within-mono {ℓ} :
    {A : Type ℓ} (j k : ℕ) (r : Outcome (A × SimpleBuffer)) → j ≤ k → Within j r → Within k r
Within-mono j k (ok a) h w = (w.0, omega arith)
Within-mono j k fault h w = tt
Within-mono j k out_of_fuel h w = w

pub get_elem?-lt {ℓ} :
    {A : Type ℓ} (xs : List A) (i : ℕ) (x : A) → get_elem? xs i ≡ some x → i < length xs
get_elem?-lt [] i x h = cc
get_elem?-lt (y ∷ xs) zero x h = omega arith
get_elem?-lt (y ∷ xs) (suc i) x h = omega (arith, get_elem?-lt xs i x h)

pub next_byte-Within :
    (k : ℕ) (b : SimpleBuffer) → InRange b → unread b ≤ suc k → Within k (next_byte b)
unfolding next_byte
next_byte-Within k b h u = elim (Option-cases (get_elem? b.content b.pos)) [
  | inl e ↦ rw (e, next_byte) tt
  | inr (x, e) ↦
      rw (e, next_byte)
        (
          omega (arith, get_elem?-lt b.content b.pos x e),
          omega (arith, get_elem?-lt b.content b.pos x e),
        )
]

-- A test for `n` bytes: the branch that has them runs at the same buffer.
pub Within-require {ℓ} :
    {A : Type ℓ} (z : ℤ) (k : ℕ) (b : SimpleBuffer) (yes' no' : Reader A)
    → InRange b
    → ((n : ℕ) → z ≡ pos n → n ≤ unread b → Within k (yes' b))
    → ((n : ℕ) → z ≡ pos n → unread b < n → Within k (no' b))
    → Within k ((require z >>>= λ enough. if enough then yes' else no') b)
unfolding require remaining
Within-require (pos n) k b yes' no' r h g = elim (Bool-cases (leb n (remaining b))) [
  | inl e ↦ rw e (h n refl (ground arith))
  | inr e ↦ rw e (g n refl (ground arith))
]
Within-require (negsuc n) k b yes' no' r h g = tt

pub Within-assert {ℓ} :
    {A : Type ℓ} (n k : ℕ) (b : SimpleBuffer) (q : Reader A)
    → InRange b
    → (n ≤ unread b → Within k (q b))
    → Within k ((assert_require n >>>= λ _. q) b)
unfolding assert_require require remaining
Within-assert n k b q r h = elim (Bool-cases (leb n (remaining b))) [
  | inl e ↦ rw e (h (ground arith))
  | inr e ↦ rw e tt
]

pub read_1byte-Within :
    (k : ℕ) (b : SimpleBuffer) → InRange b → unread b ≤ suc k → Within k (read_1byte b)
unfolding read_1byte
read_1byte-Within k b h u = Within-assert 1 k b next_byte h (λ _. next_byte-Within k b h u)

read_places-Within :
    (n k v : ℕ) (b : SimpleBuffer) → InRange b → unread b ≤ n + k → Within k (read_places n v b)
unfolding read_places
read_places-Within zero k v b h u = (h, omega arith)
read_places-Within (suc n) k v b h u =
    Within-bind (n + k) k b next_byte (λ x. read_places n (v + x * 256 ^ n))
      (next_byte-Within (n + k) b h (omega arith))
      (λ x b' h' u'. read_places-Within n k (v + x * 256 ^ n) b' h' u')

pub read_2bytes-Within :
    (k : ℕ) (b : SimpleBuffer) → InRange b → unread b ≤ 2 + k → Within k (read_2bytes b)
unfolding read_2bytes
read_2bytes-Within k b h u =
    Within-assert 2 k b (read_places 2 0) h (λ _. read_places-Within 2 k 0 b h u)

pub read_4bytes-Within :
    (k : ℕ) (b : SimpleBuffer) → InRange b → unread b ≤ 4 + k → Within k (read_4bytes b)
unfolding read_4bytes
read_4bytes-Within k b h u =
    Within-assert 4 k b (read_places 4 0) h (λ _. read_places-Within 4 k 0 b h u)

pub read_8bytes-Within :
    (k : ℕ) (b : SimpleBuffer) → InRange b → unread b ≤ 8 + k → Within k (read_8bytes b)
unfolding read_8bytes
read_8bytes-Within k b h u =
    Within-assert 8 k b (read_places 8 0) h (λ _. read_places-Within 8 k 0 b h u)

pub read_string-Within :
    (z : ℤ) (k : ℕ) (b : SimpleBuffer) → InRange b → unread b ≤ k → Within k (read_string z b)
unfolding read_string take_string
read_string-Within (pos n) k b h u =
    Within-assert n k b (take_string n) h (λ there. (omega arith, omega arith))
read_string-Within (negsuc n) k b h u = tt
