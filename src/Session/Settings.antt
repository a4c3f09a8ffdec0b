-- ===== src/Session/Settings.antt =====
-- handle_control_message of rtmp_session_control_message.cpp on each kind of message.
use drone_server.Chunk.{ChunkStream, clear_stream}
use drone_server.Chunk.Receiving.{update}
use drone_server.Prelude.{Option, arith, length, none, some, take, ℕ, ◌%◌, ◌^◌, ◌∙◌, ◌≡◌, ◌≢◌, ◌≤◌}
use drone_server.Prelude.Bytes.{Bytes, number_of}
use drone_server.Prelude.Outcome.{Yields, Yields-bind, fault, ok, ◌>>=◌}
use drone_server.Session.{Session, clear_current, current, set_stream}
use drone_server.Session.Control.{apply_control, handle_control_message}

pub handle-applied :
    (s : Session) (c : ChunkStream)
    → current s ≡ some c
    → handle_control_message s ≡ apply_control c.type s c.content >>= clear_current
unfolding handle_control_message
handle-applied s c e = rw (e, handle_control_message)

clear_current-missing : (s : Session) → current s ≡ none → clear_current s ≡ fault
unfolding clear_current
clear_current-missing s e = rw (e, clear_current)

pub clear_current-present :
    (s : Session) (c : ChunkStream)
    → current s ≡ some c
    → clear_current s ≡ ok (set_stream s (some (clear_stream c)))
unfolding clear_current
clear_current-present s c e = rw (e, clear_current)

abort_self :
    (s : Session) (k v : ℕ)
    → k ≡ s.input.csid
    → current (record s { input = record s.input { cs_in = update s.input.cs_in k none } }) ≡ none
abort_self s k v e = ground arith

apply_control-abort :
    (s : Session) (bytes : Bytes)
    → 4 ≤ length bytes
    → apply_control 2 s bytes
      ≡ ok (record s {
        input = record s.input {
          cs_in = update s.input.cs_in (number_of (take 4 bytes) % 2 ^ 16) none;
        };
      })
apply_control-abort s bytes enough = ground arith

-- An abort message that names the chunk stream it comes on is a fault: the stream that is cleared at
-- the end is no longer there.
pub handle_control_message-abort_self :
    (s : Session) (c : ChunkStream)
    → current s ≡ some c
    → c.type ≡ 2
    → 4 ≤ length c.content
    → number_of (take 4 c.content) % 2 ^ 16 ≡ s.input.csid
    → handle_control_message s ≡ fault
handle_control_message-abort_self s c e two enough self =
    rw (handle-applied s c e, two)
      (rw (apply_control-abort s c.content enough)
        (clear_current-missing _ (abort_self s (number_of (take 4 c.content) % 2 ^ 16) 0 self)))

-- What every control message leaves as it was, the stream of the message among it.
pub record IsKept (s s' : Session) : Type 0 where
  pub same_current : current s' ≡ current s
  pub same_csid : s'.input.csid ≡ s.input.csid
  pub same_buf : s'.input.recv_buf ≡ s.input.recv_buf
  pub same_out : s'.cs_out ≡ s.cs_out
  pub same_state : s'.state ≡ s.state
  pub same_written : s'.written ≡ s.written

apply_control-IsKept :
    (type : ℕ) (s : Session) (bytes : Bytes)
    → 10 ≤ length bytes
    → (type ≡ 2 → number_of (take 4 bytes) % 2 ^ 16 ≢ s.input.csid)
    → Yields (IsKept s) (apply_control type s bytes)
apply_control-IsKept type s bytes enough other = ground arith

-- What a control message leaves once it is handled: its stream is cleared, and the bytes still to read,
-- the streams to send on, the state and what was sent are as before.
pub record IsHandled (s : Session) (c : ChunkStream) (s' : Session) : Type 0 where
  pub cleared : current s' ≡ some (clear_stream c)
  pub same_buf : s'.input.recv_buf ≡ s.input.recv_buf
  pub same_out : s'.cs_out ≡ s.cs_out
  pub same_state : s'.state ≡ s.state
  pub same_written : s'.written ≡ s.written

current-set_stream : (s : Session) (c : Option ChunkStream) → current (set_stream s c) ≡ c
current-set_stream s c = ground arith

clear_current-IsHandled :
    (s s' : Session) (c : ChunkStream)
    → current s ≡ some c
    → IsKept s s'
    → Yields (IsHandled s c) (clear_current s')
clear_current-IsHandled s s' c e k = rw (clear_current-present s' c (k.same_current ∙ e)) (record {
  cleared = current-set_stream s' (some (clear_stream c));
  same_buf = k.same_buf;
  same_out = k.same_out;
  same_state = k.same_state;
  same_written = k.same_written;
})

-- A control message of ten bytes or more, of any type, is handled without a fault and its stream is
-- cleared, unless it is an abort of its own stream. The bytes still to read, the streams to send on,
-- the state and the packets that were sent are as before.
pub handle_control_message-IsHandled :
    (s : Session) (c : ChunkStream)
    → current s ≡ some c
    → 10 ≤ length c.content
    → (c.type ≡ 2 → number_of (take 4 c.content) % 2 ^ 16 ≢ s.input.csid)
    → Yields (IsHandled s c) (handle_control_message s)
handle_control_message-IsHandled s c e enough other = rw (handle-applied s c e) (
    Yields-bind (IsKept s) (IsHandled s c) (apply_control c.type s c.content) clear_current
      (apply_control-IsKept c.type s c.content enough other)
      (λ s' k. clear_current-IsHandled s s' c e k))
