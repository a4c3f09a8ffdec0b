-- ===== src/Chunk/Resumption.antt =====
-- read_header of rtmp_chunk_stream.cpp on a header whose bytes come in two parts.
use drone_server.Chunk.{
  Answer, ChunkStream, byte_in, complete, extended_time, header, incomplete, note_format, payload,
  popped32, read_f0, read_f1, read_f2, read_header, read_header_of, refused, with_time, word24,
}
use drone_server.Prelude.{
  Bool-cases, [], ap, arith, drop, false, inl, inr, length, length-append, ltb, refl, subst, suc,
  sym, true, zero, ℕ, ◌%◌, ◌*◌, ◌++◌, ◌+◌, ◌<◌, ◌==◌, ◌^◌, ◌∙◌, ◌∷◌, ◌≡◌, ◌≤◌,
}
use drone_server.Prelude.Bytes.{Bytes}

byte_in-append : (xs ys : Bytes) (i : ℕ) → i < length xs → byte_in (xs ++ ys) i ≡ byte_in xs i
byte_in-append [] ys i h = absurd (omega arith)
byte_in-append (x ∷ xs) ys zero h = refl
byte_in-append (x ∷ xs) ys (suc i) h = byte_in-append xs ys i (omega arith)

word24-append : (xs ys : Bytes) → 3 ≤ length xs → word24 (xs ++ ys) 0 ≡ word24 xs 0
word24-append xs ys h =
    rw
      (
        byte_in-append xs ys 0 (omega arith),
        byte_in-append xs ys 1 (omega arith),
        byte_in-append xs ys 2 (omega arith),
      )
      refl

not_incomplete : complete ≡ incomplete → ⊥
not_incomplete e = cc

-- The two parts of a header that stops in the middle come to what the whole comes to.
abbrev Resumes :
    ℕ
    → ℕ
    → ChunkStream
    → Bytes
    → Bytes
    → (ChunkStream → ℕ → Bytes → ChunkStream)
    → Answer × ChunkStream × Bytes
    → Type 0
Resumes fmt k s xs ys ready_to out =
    (out.2 ≡ xs)
    × (out.1.phase ≡ s.phase)
    × (note_format fmt (with_time k (record out.1 { fmt = fmt }) (xs ++ ys) ready_to)
        ≡ note_format fmt (with_time k s (xs ++ ys) ready_to))

-- `ready_to` does not look at the format.
abbrev IgnoresFormat : (ChunkStream → ℕ → Bytes → ChunkStream) → Type 0
IgnoresFormat ready_to =
    (s : ChunkStream) (fmt t : ℕ) (buf : Bytes)
    → record (ready_to (record s { fmt = fmt }) t buf) { fmt = fmt; phase = payload }
      ≡ record (ready_to s t buf) { fmt = fmt; phase = payload }

with_time-format :
    (fmt k : ℕ) (s : ChunkStream) (zs : Bytes) (ready_to : ChunkStream → ℕ → Bytes → ChunkStream)
    → IgnoresFormat ready_to
    → note_format fmt (with_time k (record s { fmt = fmt }) zs ready_to)
      ≡ note_format fmt (with_time k s zs ready_to)
with_time-format fmt k s zs ready_to ignores = elim (Bool-cases (ltb (length zs) k)) [
  | inl q ↦ rw q refl
  | inr q ↦ elim (Bool-cases (word24 zs 0 == extended_time)) [
    | inl r ↦ elim (Bool-cases (ltb (length zs) (k + 4))) [
      | inl u ↦ rw (q, r, u) refl
      | inr u ↦
          rw (q, r, u)
            (ap (λ a. (complete, a, drop 4 (drop k zs)))
              (ignores (record s { ext_ts = true }) fmt (popped32 (drop k zs)) zs))
    ]
    | inr r ↦ rw (q, r) (ap (λ a. (complete, a, drop k zs)) (ignores s fmt (word24 zs 0) zs))
  ]
]

with_time-extended :
    (k : ℕ) (s : ChunkStream) (zs : Bytes) (ready_to : ChunkStream → ℕ → Bytes → ChunkStream)
    → ltb (length zs) k ≡ false
    → (word24 zs 0 == extended_time) ≡ true
    → with_time k (record s { ext_ts = true }) zs ready_to ≡ with_time k s zs ready_to
with_time-extended k s zs ready_to q r = rw (q, r) refl

with_time-Resumes :
    (fmt k : ℕ) (s : ChunkStream) (xs ys : Bytes) (ready_to : ChunkStream → ℕ → Bytes → ChunkStream)
    → IgnoresFormat ready_to
    → 3 ≤ k
    → (with_time k s xs ready_to).0 ≡ incomplete
    → Resumes fmt k s xs ys ready_to (with_time k s xs ready_to)
with_time-Resumes fmt k s xs ys ready_to ignores h e = elim (Bool-cases (ltb (length xs) k)) [
  | inl q ↦ rw q (refl, refl, with_time-format fmt k s (xs ++ ys) ready_to ignores)
  | inr q ↦ elim (Bool-cases (word24 xs 0 == extended_time)) [
    | inl r ↦ elim (Bool-cases (ltb (length xs) (k + 4))) [
      | inl u ↦
          rw (q, r, u)
            (
              refl,
              refl,
              with_time-format fmt k (record s { ext_ts = true }) (xs ++ ys) ready_to ignores
                  ∙ ap (note_format fmt) (
                      with_time-extended k s (xs ++ ys) ready_to
                        (ground (arith, length-append xs ys, q))
                        (ap (λ w. w == extended_time) (word24-append xs ys (ground (arith, q)))
                          ∙ r)),
            )
      | inr u ↦ absurd (not_incomplete (rw (q, r, u) at e))
    ]
    | inr r ↦ absurd (not_incomplete (rw (q, r) at e))
  ]
]

-- What the headers of formats 0, 1 and 2 make of the stream.
abbrev after_f0 : ChunkStream → ℕ → Bytes → ChunkStream
after_f0 s ts buf = record s {
  time = ts;
  dtime = 0;
  len = word24 buf 3;
  type = byte_in buf 6;
  stream_id =
      byte_in buf 10 * 0x100_0000
      + byte_in buf 9 * 0x1_0000
      + byte_in buf 8 * 0x100
      + byte_in buf 7;
  rem = word24 buf 3;
}

abbrev after_f1 : ChunkStream → ℕ → Bytes → ChunkStream
after_f1 s ts buf = record s {
  time = (s.time + ts) % 2 ^ 32;
  dtime = ts;
  len = word24 buf 3;
  type = byte_in buf 6;
  rem = word24 buf 3;
}

abbrev after_f2 : ChunkStream → ℕ → Bytes → ChunkStream
after_f2 s ts buf = record s { time = (s.time + ts) % 2 ^ 32; dtime = ts; rem = s.len }

-- The same for the three kinds of header.
abbrev ResumesHeader : ℕ → ChunkStream → Bytes → Bytes → Answer × ChunkStream × Bytes → Type 0
ResumesHeader fmt s xs ys out =
    (out.2 ≡ xs)
    × (out.1.phase ≡ s.phase)
    × (note_format fmt (read_header_of fmt (record out.1 { fmt = fmt }) (xs ++ ys))
        ≡ note_format fmt (read_header_of fmt s (xs ++ ys)))

read_header_of-ResumesHeader :
    (fmt : ℕ) (s : ChunkStream) (xs ys : Bytes)
    → fmt < 3
    → (read_header_of fmt s xs).0 ≡ incomplete
    → ResumesHeader fmt s xs ys (read_header_of fmt s xs)
unfolding read_header_of read_f0 read_f1 read_f2
read_header_of-ResumesHeader zero s xs ys h e =
    with_time-Resumes 0 11 s xs ys after_f0 (λ s fmt t buf. refl) (omega arith) e
read_header_of-ResumesHeader (suc zero) s xs ys h e =
    with_time-Resumes 1 7 s xs ys after_f1 (λ s fmt t buf. refl) (omega arith) e
read_header_of-ResumesHeader (suc (suc zero)) s xs ys h e =
    with_time-Resumes 2 3 s xs ys after_f2 (λ s fmt t buf. refl) (omega arith) e
read_header_of-ResumesHeader (suc (suc (suc n))) s xs ys h e = absurd (omega arith)

read_header-noted :
    (fmt : ℕ) (s : ChunkStream) (buf : Bytes)
    → s.phase ≡ header
    → read_header fmt s buf ≡ note_format fmt (read_header_of fmt s buf)
unfolding read_header
read_header-noted fmt s buf e =
    ap
      (λ p. elim p as (λ _. Answer × ChunkStream × Bytes) [
        | header ↦ note_format fmt (read_header_of fmt s buf)
        | payload ↦ (complete, s, buf)
      ])
      e

note_format-incomplete :
    (fmt : ℕ) (out : Answer × ChunkStream × Bytes)
    → (note_format fmt out).0 ≡ incomplete
    → (out.0 ≡ incomplete) × (note_format fmt out ≡ (incomplete, record out.1 { fmt = fmt }, out.2))
note_format-incomplete fmt (complete, s, buf) e = absurd (not_incomplete e)
note_format-incomplete fmt (incomplete, s, buf) e = (refl, refl)
note_format-incomplete fmt (refused, s, buf) e = absurd cc

-- A chunk header of format 0, 1 or 2 whose bytes are not yet all there takes none of them, and once
-- more bytes have come, reading it again from the stream it has left gives what reading them all at
-- once gives.
pub read_header-resumes :
    (fmt : ℕ) (s s' : ChunkStream) (xs ys rest : Bytes)
    → fmt < 3
    → s.phase ≡ header
    → read_header fmt s xs ≡ (incomplete, s', rest)
    → (rest ≡ xs) × (read_header fmt s' (xs ++ ys) ≡ read_header fmt s (xs ++ ys))
read_header-resumes fmt s s' xs ys rest small at_header e =
    let out = read_header_of fmt s xs in
    let noted = sym (read_header-noted fmt s xs at_header) ∙ e in
    let (stopped, kept) = note_format-incomplete fmt out (ap (λ o. o.0) noted) in
    let (same, phase_kept, again) = read_header_of-ResumesHeader fmt s xs ys small stopped in
    let left : record out.1 { fmt = fmt } ≡ s' = ap (λ o. o.1) (sym kept ∙ noted) in
    (
      ap (λ o. o.2) (sym noted ∙ kept) ∙ same,
      subst (λ r. read_header fmt r (xs ++ ys) ≡ read_header fmt s (xs ++ ys)) left
          (read_header-noted fmt (record out.1 { fmt = fmt }) (xs ++ ys) (phase_kept ∙ at_header)
            ∙ again
            ∙ sym (read_header-noted fmt s (xs ++ ys) at_header)),
    )
