-- ===== src/Session/Delivery.antt =====
-- `write_media_packet` of rtmp_session.cpp, and what a session does to the others of the server.
use drone_server.Chunk.Receiving.{update}
use drone_server.Chunk.Writing.{Message}
use drone_server.Media.{MediaPacket, PacketType, audio, metadata, video}
use drone_server.Media.Stream.{demux_write, erase_media, stream_eof, to_session}
use drone_server.Prelude.{
  Bool-cases, List, [], ap, arith, if◌then◌else◌, inl, inr, length, refl, true, ℕ, ◌%◌, ◌==◌, ◌^◌,
  ◌∙◌, ◌∷◌, ◌≡◌,
}
use drone_server.Prelude.Outcome.{
  Outcome, Permits, Permits-bind, Permits-if, Permits-imp, ok, ◌>>=◌,
}
use drone_server.Session.{Session, write_message}
use drone_server.Session.Senders.{send_stream_eof}
use drone_server.Session.Sends.{Sends, write_message-Sends}
use drone_server.Session.World.{Action, by_stream, stream_created}

abbrev pub media_csid : PacketType → ℕ
media_csid video = 6
media_csid metadata = 6
media_csid audio = 4
media_csid t = 0

abbrev pub media_message : MediaPacket → Message
media_message pkt = record {
  time = pkt.dts % 2 ^ 32;
  dtime = 0;
  type_id = pkt.rtmp_type;
  stream_id = pkt.stream_id;
  size = length pkt.content;
}

unfoldable pub write_media_packet : ℕ → MediaPacket → Session → Outcome Session
write_media_packet fuel pkt s =
    if media_csid pkt.type == 0
    then ok s
    else write_message fuel (media_csid pkt.type) (media_message pkt) pkt.content true s

abbrev pub send_to : (ℕ → Session) → ℕ → Outcome Session → Outcome (ℕ → Session)
send_to sessions k r = r >>= λ s. ok (update sessions k s)

-- The calls of other sessions; the demuxer, the media manager and `on_stream_create` are outside.
unfoldable pub deliver_action : ℕ → Action → (ℕ → Session) → Outcome (ℕ → Session)
deliver_action fuel (by_stream (to_session k pkt)) sessions =
    send_to sessions k (write_media_packet fuel pkt (sessions k))
deliver_action fuel (by_stream (stream_eof k i)) sessions =
    send_to sessions k (send_stream_eof fuel i (sessions k))
deliver_action fuel action sessions = ok sessions

unfoldable pub deliver : ℕ → List Action → (ℕ → Session) → Outcome (ℕ → Session)
deliver fuel [] sessions = ok sessions
deliver fuel (a ∷ rest) sessions =
    deliver_action fuel a sessions >>= λ sessions'. deliver fuel rest sessions'

write_media_packet-Sends :
    (fuel : ℕ) (pkt : MediaPacket) (s : Session) → Permits (Sends s) (write_media_packet fuel pkt s)
unfolding write_media_packet
write_media_packet-Sends fuel pkt s =
    Permits-if (Sends s) (media_csid pkt.type == 0) _ _
      (λ _. record {
        same_input = refl;
        same_state = refl;
        same_app = refl;
        same_cid = refl;
        same_url = refl;
      })
      (λ _. write_message-Sends fuel (media_csid pkt.type) (media_message pkt) pkt.content true s)

send_stream_eof-Sends : (fuel i : ℕ) (s : Session) → Permits (Sends s) (send_stream_eof fuel i s)
unfolding send_stream_eof
send_stream_eof-Sends fuel i s = write_message-Sends fuel 2 _ _ true s

-- The states of all sessions are as before.
abbrev pub SameStates : (ℕ → Session) → (ℕ → Session) → Type 0
SameStates sessions sessions' = (k : ℕ) → (sessions' k).state ≡ (sessions k).state

send_to-SameStates :
    (sessions : ℕ → Session) (k : ℕ) (r : Outcome Session)
    → Permits (Sends (sessions k)) r
    → Permits (SameStates sessions) (send_to sessions k r)
send_to-SameStates sessions k r h =
    Permits-bind (Sends (sessions k)) (SameStates sessions) r _ h (λ s q j.
      elim (Bool-cases (k == j)) [
        | inl e ↦ rw e (q.same_state ∙ ap (λ i. (sessions i).state) (ground (arith, e)))
        | inr e ↦ rw e refl
      ])

deliver_action-SameStates :
    (fuel : ℕ) (a : Action) (sessions : ℕ → Session)
    → Permits (SameStates sessions) (deliver_action fuel a sessions)
unfolding deliver_action
deliver_action-SameStates fuel (by_stream (to_session k pkt)) sessions =
    send_to-SameStates sessions k _ (write_media_packet-Sends fuel pkt (sessions k))
deliver_action-SameStates fuel (by_stream (stream_eof k i)) sessions =
    send_to-SameStates sessions k _ (send_stream_eof-Sends fuel i (sessions k))
deliver_action-SameStates fuel (by_stream (erase_media cid)) sessions = λ k. refl
deliver_action-SameStates fuel (by_stream (demux_write pkt)) sessions = λ k. refl
deliver_action-SameStates fuel (stream_created cid) sessions = λ k. refl

pub deliver-SameStates :
    (fuel : ℕ) (actions : List Action) (sessions : ℕ → Session)
    → Permits (SameStates sessions) (deliver fuel actions sessions)
unfolding deliver
deliver-SameStates fuel [] sessions = λ k. refl
deliver-SameStates fuel (a ∷ rest) sessions =
    Permits-bind (SameStates sessions) (SameStates sessions) (deliver_action fuel a sessions) _
      (deliver_action-SameStates fuel a sessions)
      (λ f q.
        Permits-imp (SameStates f) (SameStates sessions) (deliver fuel rest f)
          (deliver-SameStates fuel rest f) (λ g p k. p k ∙ q k))
