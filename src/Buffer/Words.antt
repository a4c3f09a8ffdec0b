-- ===== src/Buffer/Words.antt =====
-- Words of 1, 2, 3, 4 and 8 bytes of simple_buffer.cpp, and the loops over their bytes.
use drone_server.Buffer.{
  SimpleBuffer, push_places, read_1byte, read_2bytes, read_3bytes, read_4bytes, read_8bytes,
  read_places, write_1byte, write_2bytes, write_3bytes, write_4bytes, write_8bytes,
}
use drone_server.Buffer.Cursor.{assert_require-cursor, cursor, next_byte-cursor, read_1byte-cursor}
use drone_server.Prelude.{
  [], add-zero, add_assoc, append-nil, append_assoc, arith, length, length-append, refl, subst, suc,
  zero, ℕ, ◌%◌, ◌*◌, ◌++◌, ◌+◌, ◌^◌, ◌∙◌, ◌∷◌, ◌≡◌, ◌≤◌,
}
use drone_server.Prelude.Bytes.{
  Bytes, big_endian, byte_at, length-big_endian, number_of, number_of-big_endian2,
  number_of-big_endian3, number_of-big_endian4, number_of-big_endian8,
}
use drone_server.Prelude.Outcome.{ok}
use native.Mathlib.Nat.{zero-add}

-- The writing loop appends the word, most significant byte first.
pub push_places_lem :
    (n v : ℕ) (b : SimpleBuffer)
    → push_places n v b ≡ record b { content = b.content ++ big_endian n v }
unfolding push_places big_endian
push_places_lem zero v b = rw append-nil
push_places_lem (suc n) v b =
    rw (push_places_lem n v (record b { content = b.content ++ byte_at v n ∷ [] }))
      (rw (append_assoc b.content (byte_at v n ∷ []) (big_endian n v)))

pub write_1byte_lem :
    (v : ℕ) (b : SimpleBuffer) → write_1byte v b ≡ record b { content = b.content ++ v % 256 ∷ [] }
unfolding write_1byte
write_1byte_lem v b = refl

pub write_2bytes_lem :
    (v : ℕ) (b : SimpleBuffer)
    → write_2bytes v b ≡ record b { content = b.content ++ big_endian 2 v }
unfolding write_2bytes
write_2bytes_lem v b = push_places_lem 2 v b

pub write_4bytes_lem :
    (v : ℕ) (b : SimpleBuffer)
    → write_4bytes v b ≡ record b { content = b.content ++ big_endian 4 v }
unfolding write_4bytes
write_4bytes_lem v b = push_places_lem 4 v b

pub write_8bytes_lem :
    (v : ℕ) (b : SimpleBuffer)
    → write_8bytes v b ≡ record b { content = b.content ++ big_endian 8 v }
unfolding write_8bytes
write_8bytes_lem v b = push_places_lem 8 v b

pub read_places-cursor :
    (xs : Bytes) (v : ℕ) (p r : Bytes)
    → read_places (length xs) v (cursor p (xs ++ r)) ≡ ok (v + number_of xs, cursor (p ++ xs) r)
unfolding read_places number_of
read_places-cursor [] v p r = rw (append-nil p, add-zero v)
read_places-cursor (x ∷ xs) v p r =
    rw (next_byte-cursor p x (xs ++ r), read_places)
      (rw (read_places-cursor xs (v + x * 256 ^ length xs) (p ++ x ∷ []) r)
        (rw (append_assoc p (x ∷ []) xs, add_assoc v (x * 256 ^ length xs) (number_of xs))))

-- Reading the bytes of a word gives its number.
pub read_word-cursor :
    (n v : ℕ) (p r : Bytes)
    → read_places n 0 (cursor p (big_endian n v ++ r))
      ≡ ok (number_of (big_endian n v), cursor (p ++ big_endian n v) r)
read_word-cursor n v p r =
    subst
      (λ k.
        read_places k 0 (cursor p (big_endian n v ++ r))
        ≡ ok (number_of (big_endian n v), cursor (p ++ big_endian n v) r))
      (length-big_endian n v)
      (read_places-cursor (big_endian n v) 0 p r ∙ rw (zero-add (number_of (big_endian n v))))

enough : (n v : ℕ) (r : Bytes) → n ≤ length (big_endian n v ++ r)
enough n v r = omega (arith, length-append (big_endian n v) r, length-big_endian n v)

pub read_2bytes-cursor :
    (v : ℕ) (p r : Bytes)
    → read_2bytes (cursor p (big_endian 2 v ++ r))
      ≡ ok (v % 0x1_0000, cursor (p ++ big_endian 2 v) r)
unfolding read_2bytes
read_2bytes-cursor v p r =
    rw (assert_require-cursor 2 p (big_endian 2 v ++ r) (enough 2 v r))
      (rw (read_word-cursor 2 v p r, number_of-big_endian2 v))

pub read_3bytes-cursor :
    (v : ℕ) (p r : Bytes)
    → read_3bytes (cursor p (big_endian 3 v ++ r))
      ≡ ok (v % 0x100_0000, cursor (p ++ big_endian 3 v) r)
unfolding read_3bytes
read_3bytes-cursor v p r =
    rw (assert_require-cursor 3 p (big_endian 3 v ++ r) (enough 3 v r))
      (rw (read_word-cursor 3 v p r, number_of-big_endian3 v))

pub read_4bytes-cursor :
    (v : ℕ) (p r : Bytes)
    → read_4bytes (cursor p (big_endian 4 v ++ r))
      ≡ ok (v % 0x1_0000_0000, cursor (p ++ big_endian 4 v) r)
unfolding read_4bytes
read_4bytes-cursor v p r =
    rw (assert_require-cursor 4 p (big_endian 4 v ++ r) (enough 4 v r))
      (rw (read_word-cursor 4 v p r, number_of-big_endian4 v))

pub read_8bytes-cursor :
    (v : ℕ) (p r : Bytes)
    → read_8bytes (cursor p (big_endian 8 v ++ r))
      ≡ ok (v % 0x1_0000_0000_0000_0000, cursor (p ++ big_endian 8 v) r)
unfolding read_8bytes
read_8bytes-cursor v p r =
    rw (assert_require-cursor 8 p (big_endian 8 v ++ r) (enough 8 v r))
      (rw (read_word-cursor 8 v p r, number_of-big_endian8 v))

-- The buffer is read to its end, as it is after every byte written was read.
abbrev pub exhausted : Bytes → SimpleBuffer
exhausted bs = record { content = bs; pos = length bs }

read-push :
    (n v : ℕ) (bs : Bytes)
    → (push_places n v (exhausted bs) ≡ cursor bs (big_endian n v ++ []))
      × (cursor (bs ++ big_endian n v) [] ≡ exhausted (bs ++ big_endian n v))
unfolding cursor
read-push n v bs = (
  rw (push_places_lem n v (exhausted bs), append-nil (big_endian n v)),
  rw (append-nil (bs ++ big_endian n v)),
)

-- In a buffer that is read to its end, a word of 1, 2, 3, 4 or 8 bytes that is written and then read
-- back is the word cut to that width, and the buffer is read to its end again.
pub read-write :
    (bs : Bytes) (v : ℕ)
    → (read_1byte (write_1byte v (exhausted bs)) ≡ ok (v % 2 ^ 8, exhausted (bs ++ v % 2 ^ 8 ∷ [])))
      × (read_2bytes (write_2bytes v (exhausted bs))
          ≡ ok (v % 2 ^ 16, exhausted (bs ++ big_endian 2 v)))
      × (read_3bytes (write_3bytes v (exhausted bs))
          ≡ ok (v % 2 ^ 24, exhausted (bs ++ big_endian 3 v)))
      × (read_4bytes (write_4bytes v (exhausted bs))
          ≡ ok (v % 2 ^ 32, exhausted (bs ++ big_endian 4 v)))
      × (read_8bytes (write_8bytes v (exhausted bs))
          ≡ ok (v % 2 ^ 64, exhausted (bs ++ big_endian 8 v)))
unfolding write_1byte write_2bytes write_3bytes write_4bytes write_8bytes cursor
read-write bs v = (
  read_1byte-cursor bs (v % 256) [] ∙ rw (append-nil (bs ++ v % 256 ∷ [])),
  rw ((read-push 2 v bs).0, read_2bytes-cursor v bs [], (read-push 2 v bs).1),
  rw ((read-push 3 v bs).0, read_3bytes-cursor v bs [], (read-push 3 v bs).1),
  rw ((read-push 4 v bs).0, read_4bytes-cursor v bs [], (read-push 4 v bs).1),
  rw ((read-push 8 v bs).0, read_8bytes-cursor v bs [], (read-push 8 v bs).1),
)
