-- ===== src/Session/Control.antt =====
-- `rtmp_session::handle_control_message` of rtmp_session_control_message.cpp. A read past the payload
-- of the message is a fault.
use drone_server.Chunk.{byte_in}
use drone_server.Chunk.Receiving.{update}
use drone_server.Prelude.{
  drop, if◌then◌else◌, length, ltb, none, some, take, ℕ, ◌%◌, ◌+◌, ◌==◌, ◌^◌,
}
use drone_server.Prelude.Bytes.{Bytes, number_of}
use drone_server.Prelude.Outcome.{Outcome, fault, ok, ◌>>=◌}
use drone_server.Session.{Session, clear_current, current}

-- `*reinterpret_cast<uint32_t*>(data + at)`, byte-swapped: the four bytes as a big-endian number.
abbrev pub word32_at : Bytes → ℕ → (ℕ → Outcome Session) → Outcome Session
word32_at bytes at next =
    if ltb (length bytes) (at + 4) then fault else next (number_of (take 4 (drop at bytes)))

abbrev pub word16_at : Bytes → ℕ → (ℕ → Outcome Session) → Outcome Session
word16_at bytes at next =
    if ltb (length bytes) (at + 2) then fault else next (number_of (take 2 (drop at bytes)))

-- Type 1.
abbrev pub set_chunk_size : Session → Bytes → Outcome Session
set_chunk_size s bytes =
    word32_at bytes 0 λ v. ok (record s { input = record s.input { max_chunk_size = v } })

-- Type 2: the key of `cs_in` has 16 bits.
abbrev pub abort_message : Session → Bytes → Outcome Session
abort_message s bytes =
    word32_at bytes 0 λ v.
      ok (record s { input = record s.input { cs_in = update s.input.cs_in (v % 2 ^ 16) none } })

-- Type 3: the number is read and logged.
abbrev pub acknowledgement : Session → Bytes → Outcome Session
acknowledgement s bytes = word32_at bytes 0 λ _. ok s

-- Type 4: the values are read and logged.
abbrev pub user_control : Session → Bytes → Outcome Session
user_control s bytes = word16_at bytes 0 λ et.
    if et == 3
    then word32_at bytes 2 (λ _. word32_at bytes 6 λ _. ok s)
    else if et == 7
    then word32_at bytes 2 (λ _. ok s)
    else ok s

-- Type 5.
abbrev pub window_acknowledgement_size : Session → Bytes → Outcome Session
window_acknowledgement_size s bytes = word32_at bytes 0 λ v. ok (record s { window_size = v })

-- Type 6: the kind is read with `at`.
abbrev pub set_peer_bandwidth : Session → Bytes → Outcome Session
set_peer_bandwidth s bytes = word32_at bytes 0 λ v.
    if ltb 4 (length bytes)
    then ok (record s { peer_bandwidth = v; peer_bandwidth_type = byte_in bytes 4 })
    else fault

abbrev pub apply_control : ℕ → Session → Bytes → Outcome Session
apply_control type s bytes =
    if type == 1
    then set_chunk_size s bytes
    else if type == 2
    then abort_message s bytes
    else if type == 3
    then acknowledgement s bytes
    else if type == 4
    then user_control s bytes
    else if type == 5
    then window_acknowledgement_size s bytes
    else if type == 6
    then set_peer_bandwidth s bytes
    else ok s

unfoldable pub handle_control_message : Session → Outcome Session
handle_control_message s = elim (current s) [
  | none ↦ fault
  | some c ↦ apply_control c.type s c.content >>= clear_current
]
