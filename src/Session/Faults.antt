-- ===== src/Session/Faults.antt =====
-- rtmp_session_control_message.cpp: what a peer can do with a chunk size of zero.
use drone_server.Chunk.{ChunkStream, clear_stream}
use drone_server.Chunk.Faults.{write_chunk-zero_size}
use drone_server.Chunk.Writing.{Message, write_chunk}
use drone_server.Prelude.{Bool, arith, length, refl, some, subst, sym, ℕ, ◌<◌, ◌∙◌, ◌∷◌, ◌≡◌}
use drone_server.Prelude.Bytes.{Bytes, number_of}
use drone_server.Prelude.Outcome.{ok, out_of_fuel}
use drone_server.Session.{Session, current, set_stream, stream_out, write_message}
use drone_server.Session.Control.{apply_control, handle_control_message}
use drone_server.Session.Settings.{clear_current-present, handle-applied}

set_to_zero :
    (s : Session) (r : Bytes)
    → apply_control 1 s (0 ∷ 0 ∷ 0 ∷ 0 ∷ r)
      ≡ ok (record s { input = record s.input { max_chunk_size = 0 } })
unfolding number_of
set_to_zero s r = ground arith

write_message-zero_size :
    (f csid : ℕ) (m : Message) (msg : Bytes) (force_f0 : Bool) (s : Session)
    → s.input.max_chunk_size ≡ 0
    → 0 < length msg
    → write_message f csid m msg force_f0 s ≡ out_of_fuel
unfolding write_message
write_message-zero_size f csid m msg force_f0 s z l =
    let stuck : write_chunk f s.input.max_chunk_size m msg force_f0 (stream_out s csid)
        ≡ out_of_fuel =
      subst (λ n. write_chunk f n m msg force_f0 (stream_out s csid) ≡ out_of_fuel) (sym z)
        (write_chunk-zero_size f m msg force_f0 (stream_out s csid) l) in
    rw stuck refl

-- A control message of type 1 with four zero bytes is handled, and after it no message that is not empty
-- can be sent: on any chunk stream and with any fuel, `write_chunk` does not come to an end.
pub handle_control_message-zero_size :
    (s : Session) (c : ChunkStream) (r : Bytes)
    → current s ≡ some c
    → c.type ≡ 1
    → c.content ≡ 0 ∷ 0 ∷ 0 ∷ 0 ∷ r
    → (s' : Session) × (handle_control_message s ≡ ok s')
      × ((f csid x : ℕ) (m : Message) (xs : Bytes) (force_f0 : Bool)
          → write_message f csid m (x ∷ xs) force_f0 s' ≡ out_of_fuel)
handle_control_message-zero_size s c r e one zeros =
    let s₁ = record s { input = record s.input { max_chunk_size = 0 } } in
    let applied : apply_control c.type s c.content ≡ ok s₁ =
      subst (λ t. apply_control t s c.content ≡ ok s₁) (sym one)
        (subst (λ w. apply_control 1 s w ≡ ok s₁) (sym zeros) (set_to_zero s r)) in
    (
      set_stream s₁ (some (clear_stream c)),
      handle-applied s c e ∙ rw applied (clear_current-present s₁ c e),
      λ f csid x m xs force_f0.
          write_message-zero_size f csid m (x ∷ xs) force_f0 (set_stream s₁ (some (clear_stream c)))
            refl (omega arith),
    )
