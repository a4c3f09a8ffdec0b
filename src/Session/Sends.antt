-- ===== src/Session/Sends.antt =====
-- What sending leaves of a session of rtmp_session.cpp.
use drone_server.Amf0.{Amf0Data}
use drone_server.Buffer.{empty_buffer}
use drone_server.Chunk.Writing.{Message, write_chunk}
use drone_server.Prelude.{Bool, List, arith, false, refl, ℕ, ◌≡◌}
use drone_server.Prelude.Bytes.{Bytes}
use drone_server.Prelude.Outcome.{Outcome, Permits, Permits-after, Permits-imp}
use drone_server.Session.{Session, stream_out, write_message}
use drone_server.Session.Replies.{send_values, write_values}

-- Everything but the outgoing streams and the packets is as before.
pub record Sends (s s' : Session) : Type 0 where
  pub same_input : s'.input ≡ s.input
  pub same_state : s'.state ≡ s.state
  pub same_app : s'.app ≡ s.app
  pub same_cid : s'.cid ≡ s.cid
  pub same_url : s'.url ≡ s.url

pub write_message-Sends :
    (fuel csid : ℕ) (m : Message) (msg : Bytes) (force_f0 : Bool) (s : Session)
    → Permits (Sends s) (write_message fuel csid m msg force_f0 s)
unfolding write_message
write_message-Sends fuel csid m msg force_f0 s =
    Permits-after (Sends s)
      (write_chunk fuel s.input.max_chunk_size m msg force_f0 (stream_out s csid)) _
      (λ r. record {
        same_input = refl;
        same_state = refl;
        same_app = refl;
        same_cid = refl;
        same_url = refl;
      })

pub Sends-trans : (s t u : Session) → Sends s t → Sends t u → Sends s u
Sends-trans s t u h k = ground arith

pub send_values-Sends :
    (fuel csid : ℕ) (ds : List Amf0Data) (s : Session)
    → Permits (Sends s) (send_values fuel csid ds s)
send_values-Sends fuel csid ds s =
    Permits-after (Sends s) (write_values ds empty_buffer) _
      (λ msg. write_message-Sends fuel csid _ msg false s)

-- Two sends, one after the other.
pub Sends-then :
    (s t : Session) (f : Session → Outcome Session)
    → Sends s t
    → ((u : Session) → Permits (Sends u) (f u))
    → Permits (Sends s) (f t)
Sends-then s t f h k = Permits-imp (Sends t) (Sends s) (f t) (k t) (λ u g. Sends-trans s t u h g)
