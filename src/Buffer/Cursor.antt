-- ===== src/Buffer/Cursor.antt =====
-- Buffers of simple_buffer.cpp split at the cursor.
use drone_server.Buffer.{
  SimpleBuffer, assert_require, empty, next_byte, read_1byte, read_string, remaining, require,
  take_string,
}
use drone_server.Prelude.{
  List, [], append_assoc, arith, drop, drop-append, false, get_elem?, leb, length, length-append,
  length-take, refl, some, take, take-append, take-append-drop, true, ℕ, ◌++◌, ◌∷◌, ◌≡◌, ◌≤◌,
}
use drone_server.Prelude.Bytes.{Bytes}
use drone_server.Prelude.Int.{pos}
use drone_server.Prelude.Outcome.{ok}

-- `before` has been read, `ahead` has not.
unfoldable pub cursor : Bytes → Bytes → SimpleBuffer
cursor before ahead = record { content = before ++ ahead; pos = length before }

get_elem?-append {ℓ} :
    {A : Type ℓ} (xs : List A) (y : A) (ys : List A) → get_elem? (xs ++ y ∷ ys) (length xs) ≡ some y
get_elem?-append [] y ys = refl
get_elem?-append (x ∷ xs) y ys = get_elem?-append xs y ys

pub remaining-cursor : (p xs : Bytes) → remaining (cursor p xs) ≡ length xs
unfolding remaining cursor
remaining-cursor p xs = ground (arith, length-append p xs)

pub require-cursor :
    (n : ℕ) (p xs : Bytes) → require (pos n) (cursor p xs) ≡ ok (leb n (length xs), cursor p xs)
unfolding require
require-cursor n p xs = rw (remaining-cursor p xs)

pub require-cursor_cons :
    (p : Bytes) (x : ℕ) (xs : Bytes)
    → require (pos 1) (cursor p (x ∷ xs)) ≡ ok (true, cursor p (x ∷ xs))
require-cursor_cons p x xs = rw (require-cursor 1 p (x ∷ xs)) (ground arith)

pub empty-cursor_nil : (p : Bytes) → empty (cursor p []) ≡ true
unfolding empty cursor
empty-cursor_nil p = ground (arith, length-append p [])

pub empty-cursor_cons : (p : Bytes) (x : ℕ) (xs : Bytes) → empty (cursor p (x ∷ xs)) ≡ false
unfolding empty cursor
empty-cursor_cons p x xs = ground (arith, length-append p (x ∷ xs))

pub assert_require-cursor :
    (n : ℕ) (p xs : Bytes) → n ≤ length xs → assert_require n (cursor p xs) ≡ ok (tt, cursor p xs)
unfolding assert_require
assert_require-cursor n p xs h = ground (arith, require-cursor n p xs)

pub next_byte-cursor :
    (p : Bytes) (x : ℕ) (xs : Bytes)
    → next_byte (cursor p (x ∷ xs)) ≡ ok (x, cursor (p ++ x ∷ []) xs)
unfolding next_byte cursor
next_byte-cursor p x xs =
    rw (get_elem?-append p x xs, next_byte, append_assoc p (x ∷ []) xs, length-append p (x ∷ []))

pub read_1byte-cursor :
    (p : Bytes) (x : ℕ) (xs : Bytes)
    → read_1byte (cursor p (x ∷ xs)) ≡ ok (x, cursor (p ++ x ∷ []) xs)
unfolding read_1byte
read_1byte-cursor p x xs =
    rw (assert_require-cursor 1 p (x ∷ xs) (omega arith)) (next_byte-cursor p x xs)

pub read_string-cursor :
    (s p xs : Bytes)
    → read_string (pos (length s)) (cursor p (s ++ xs)) ≡ ok (s, cursor (p ++ s) xs)
unfolding read_string take_string cursor
read_string-cursor s p xs =
    rw (assert_require-cursor (length s) p (s ++ xs) (omega (arith, length-append s xs)))
      (rw (drop-append p (s ++ xs), take-append s xs, append_assoc p s xs, length-append p s))

-- Every buffer whose cursor is in range is of this form.
pub cursor-split :
    (b : SimpleBuffer)
    → b.pos ≤ length b.content
    → b ≡ cursor (take b.pos b.content) (drop b.pos b.content)
unfolding cursor
cursor-split b h =
    rw (take-append-drop b.pos b.content) (ground (arith, length-take b.pos b.content))
