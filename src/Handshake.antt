-- ===== src/Handshake.antt =====
-- src/rtmp/src/DDS/rtmp/rtmp_handshake.hpp and .cpp. The functions take and give back the bytes that
-- the session has received. `hmac` stands for `HMAC(EVP_sha256(), …)` of OpenSSL, whose answer is null
-- on an error.
pub mod Replies
pub mod Places
pub mod Offsets
pub mod Answers
pub mod Echo
pub mod Verified
mod Examples
use drone_server.Chunk.{Answer, byte_in, complete, incomplete, refused}
use drone_server.Prelude.{
  Bool, Option, [], drop, if◌then◌else◌, leb, length, ltb, none, some, take, true, ℕ, ◌%◌, ◌*◌,
  ◌++◌, ◌+◌, ◌-◌, ◌==◌, ◌∷◌,
}
use drone_server.Prelude.Bytes.{Bytes, byte_at, bytes_eq}

pub record Handshake : Type 0 where
  pub c0_version : ℕ
  pub c1_time : ℕ
  pub c1_zero : ℕ
  pub old : Bool
  pub m : Bytes
  pub cdigest : Bytes
  pub sdigest : Bytes

-- RTMP_HANDSHAKE_KEYLEN
abbrev pub keylen : ℕ
keylen = 32

abbrev pub c0_size : ℕ
c0_size = 1

abbrev pub c1_size : ℕ
c1_size = 1536

abbrev pub c2_size : ℕ
c2_size = 1536

-- The bytes of RTMP_SERVER_KEY and RTMP_CLIENT_KEY after their text.
abbrev pub key_tail : Bytes
key_tail =
    0xF0 ∷ 0xEE ∷ 0xC2 ∷ 0x4A ∷ 0x80 ∷ 0x68 ∷ 0xBE ∷ 0xE8 ∷ 0x2E ∷ 0x00 ∷ 0xD0 ∷ 0xD1 ∷ 0x02 ∷ 0x9E
    ∷ 0x7E ∷ 0x57 ∷ 0x6E ∷ 0xEC ∷ 0x5D ∷ 0x2D ∷ 0x29 ∷ 0x80 ∷ 0x6F ∷ 0xAB ∷ 0x93 ∷ 0xB8 ∷ 0xE6
    ∷ 0x36 ∷ 0xCF ∷ 0xEB ∷ 0x31 ∷ 0xAE ∷ []

abbrev pub partial_server_key : Bytes
partial_server_key =
    b'G' ∷ b'e' ∷ b'n' ∷ b'u' ∷ b'i' ∷ b'n' ∷ b'e' ∷ b' ' ∷ b'A' ∷ b'd' ∷ b'o' ∷ b'b' ∷ b'e' ∷ b' '
    ∷ b'F' ∷ b'l' ∷ b'a' ∷ b's' ∷ b'h' ∷ b' ' ∷ b'M' ∷ b'e' ∷ b'd' ∷ b'i' ∷ b'a' ∷ b' ' ∷ b'S'
    ∷ b'e' ∷ b'r' ∷ b'v' ∷ b'e' ∷ b'r' ∷ b' ' ∷ b'0' ∷ b'0' ∷ b'1' ∷ []

abbrev pub partial_client_key : Bytes
partial_client_key =
    b'G' ∷ b'e' ∷ b'n' ∷ b'u' ∷ b'i' ∷ b'n' ∷ b'e' ∷ b' ' ∷ b'A' ∷ b'd' ∷ b'o' ∷ b'b' ∷ b'e' ∷ b' '
    ∷ b'F' ∷ b'l' ∷ b'a' ∷ b's' ∷ b'h' ∷ b' ' ∷ b'P' ∷ b'l' ∷ b'a' ∷ b'y' ∷ b'e' ∷ b'r' ∷ b' '
    ∷ b'0' ∷ b'0' ∷ b'1' ∷ []

abbrev pub server_key : Bytes
server_key = partial_server_key ++ key_tail

abbrev pub client_key : Bytes
client_key = partial_client_key ++ key_tail

-- What is hashed: the data without the `keylen` bytes at `skip`, where a place is given that is in it.
-- No caller gives a place whose `keylen` bytes reach past the end.
abbrev pub hashed : Bytes → Option ℕ → Bytes
hashed bytes none = bytes
hashed bytes (some skip) =
    if leb skip (length bytes) then take skip bytes ++ drop keylen (drop skip bytes) else bytes

abbrev pub sized : Bytes → Option Bytes
sized digest = if length digest == keylen then some digest else none

-- `for (n = 0; n < 4; ++n) offs += b[base + n];`
unfoldable pub sum_bytes : Bytes → ℕ → ℕ
sum_bytes b base =
    byte_in b base + byte_in b (base + 1) + byte_in b (base + 2) + byte_in b (base + 3)

unfoldable pub digest_offset : Bytes → ℕ → ℕ
digest_offset b base = sum_bytes b base % 728 + base + 4

-- `memcmp(digest, p, RTMP_HANDSHAKE_KEYLEN)`
abbrev pub same_digest : Bytes → Bytes → ℕ → Option ℕ
same_digest digest b offs = if bytes_eq digest (take keylen (drop offs b)) then some offs else none

-- A write into an array.
unfoldable pub put_at : ℕ → Bytes → Bytes → Bytes
put_at offs bytes b = take offs b ++ (bytes ++ drop (length bytes) (drop offs b))

-- The places of the four bytes are 8 to 11 past `base`.
unfoldable pub write_offset : Bytes → ℕ → ℕ
write_offset b base = sum_bytes b (base + 8) % 728 + base + 12

-- The bytes of a word, the least significant first.
abbrev pub read_word : Bytes → ℕ → ℕ
read_word p i =
    byte_in p i
    + byte_in p (i + 1) * 0x100
    + byte_in p (i + 2) * 0x1_0000
    + byte_in p (i + 3) * 0x100_0000

abbrev pub word_bytes : ℕ → Bytes
word_bytes d = byte_at d 0 ∷ byte_at d 1 ∷ byte_at d 2 ∷ byte_at d 3 ∷ []

unfoldable pub parse_c0 : Handshake → Bytes → Answer × Handshake × Bytes
parse_c0 h buf =
    let version = byte_in buf 0 in
    (if version == 3 then complete else refused, record h { c0_version = version }, drop 1 buf)

abbrev pub keep_cdigest : Handshake → Option Bytes → Answer × Handshake
keep_cdigest h none = (refused, h)
keep_cdigest h (some digest) = (complete, record h { cdigest = digest })

abbrev pub with_c1 : Bytes → Handshake → Handshake
with_c1 c1 h = record h { m = c1; c1_time = read_word c1 0; c1_zero = read_word c1 4 }

-- The digest of c2 is not held against the client: both answers are 0.
abbrev pub c2_digest : Option Bytes → Answer
c2_digest none = refused
c2_digest (some digest) = complete

abbrev pub c2_offset : Option ℕ → ℕ
c2_offset none = c2_size - keylen
c2_offset (some offs) = offs

module _ (hmac : Bytes → Bytes → Option Bytes) where
  -- The digest, or `none` for the answer -1.
  unfoldable pub hmac_sha256 : Bytes → Bytes → Option ℕ → Option Bytes
  hmac_sha256 key bytes skip = elim (hmac key (hashed bytes skip)) [
    | none ↦ none
    | some digest ↦ sized digest
  ]

  unfoldable pub find_digest : Bytes → Bytes → ℕ → Option ℕ
  find_digest b key base = elim (hmac_sha256 key b (some (digest_offset b base))) [
    | none ↦ none
    | some digest ↦ same_digest digest b (digest_offset b base)
  ]

  unfoldable pub write_digest : Bytes → Bytes → ℕ → Option (ℕ × Bytes)
  write_digest b key base = elim (hmac_sha256 key b (some (write_offset b base))) [
    | none ↦ none
    | some digest ↦ some (write_offset b base, put_at (write_offset b base) digest b)
  ]

  -- `find_digest` at 772, and else at 8.
  abbrev pub find_either : Bytes → Bytes → Option ℕ
  find_either b key = elim (find_digest b key 772) [
    | some offs ↦ some offs
    | none ↦ find_digest b key 8
  ]

  abbrev pub with_offset : Handshake → Option ℕ → Answer × Handshake
  with_offset h none = (complete, record h { old = true })
  with_offset h (some offs) =
      keep_cdigest h (hmac_sha256 server_key (take keylen (drop offs h.m)) none)

  abbrev pub c1_read : Handshake → Answer × Handshake
  c1_read h =
      if h.c1_zero == 0
      then (complete, record h { old = true })
      else with_offset h (find_either h.m partial_client_key)

  unfoldable pub parse_c1 : Handshake → Bytes → Answer × Handshake × Bytes
  parse_c1 h buf =
      let (answer, h') = c1_read (with_c1 (take c1_size buf) h) in (answer, h', drop c1_size buf)

  unfoldable pub parse_c2 : Handshake → Bytes → Answer × Handshake × Bytes
  parse_c2 h buf =
      if h.old
      then (complete, h, drop c2_size buf)
      else (let c2 = take c2_size buf in
          let offs = c2_offset (find_either c2 h.sdigest) in
          (
            c2_digest (hmac_sha256 h.sdigest (take offs c2) none),
            record h { m = c2 },
            drop c2_size buf,
          ))

  abbrev pub after_c0 : Answer × Handshake × Bytes → Answer × Handshake × Bytes
  after_c0 (complete, h, buf) = parse_c1 h buf
  after_c0 (answer, h, buf) = (refused, h, buf)

  unfoldable pub handle_c0c1 : Handshake → Bytes → Answer × Handshake × Bytes
  handle_c0c1 h buf =
      if ltb (length buf) (c0_size + c1_size)
      then (incomplete, h, buf)
      else after_c0 (parse_c0 h buf)

  unfoldable pub handle_c2 : Handshake → Bytes → Answer × Handshake × Bytes
  handle_c2 h buf = if ltb (length buf) c2_size then (incomplete, h, buf) else parse_c2 h buf
