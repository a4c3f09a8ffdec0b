-- ===== src/Session/CommandExamples.antt =====
-- A second publisher and the end of a handshake in rtmp_session.cpp, on concrete input.
use drone_server.Amf0.Reading.{expect_marker, read_amf0_string, read_null}
use drone_server.Amf0.Standard.{eight_bytes}
use drone_server.Buffer.{SimpleBuffer, read_1byte, read_2bytes, read_string, require}
use drone_server.Chunk.{ChunkStream, clear_stream, header}
use drone_server.Chunk.Writing.{Message}
use drone_server.Handshake.Answers.{IsSha256}
use drone_server.Media.Stream.{Stream}
use drone_server.Prelude.{
  Option, [], arith, drop, false, length, length-append, length-replicate, none, refl, replicate,
  some, true, ℕ, ◌++◌, ◌∷◌, ◌≡◌, ◌≤◌,
}
use drone_server.Prelude.Bytes.{Bytes, bytes_eq}
use drone_server.Prelude.Outcome.{Yields, ok}
use drone_server.Session.{create_stream, handshake_c2, set_stream}
use drone_server.Session.Arrival.{HandlesSent, handle_rounds-write_chunk}
use drone_server.Session.Commands.{
  handle_command_message, named, next_name, next_null, next_string, on_publish,
}
use drone_server.Session.Creating.{
  AnswersCreateStream, create_stream_command, handle_command_message-create_stream,
}
use drone_server.Session.Examples.{fresh_stream, fresh_stream-Agrees, idle_session}
use drone_server.Session.Greeting.{IsGreeted, handle-IsGreeted}
use drone_server.Session.Interleaving.{world_of}
use drone_server.Session.Publishing.{ChangesNothing, TellsPublish, on_publish-second}
use drone_server.Session.Reading.{handle, with_handshake}
use drone_server.Session.ServerExamples.{
  busy_server, publish_command, publish_url, read_two, ready_server, ready_session, watched_stream,
}
use drone_server.Session.World.{World, update_stream}

-- What comes after the name and the number of the command.
abbrev publish_arguments : Bytes
publish_arguments = 5 ∷ 2 ∷ 0 ∷ 2 ∷ b'a' ∷ b'b' ∷ 2 ∷ 0 ∷ 4 ∷ b'l' ∷ b'i' ∷ b'v' ∷ b'e' ∷ []

abbrev at_place : ℕ → SimpleBuffer
at_place i = record { content = publish_arguments; pos = i }

name_read : next_name (at_place 0) ≡ ok (b'a' ∷ b'b' ∷ [], at_place 6)
unfolding next_name next_null read_null expect_marker require read_1byte next_string
    read_amf0_string read_2bytes read_string
name_read = refl

app_read : next_string (at_place 6) ≡ ok (b'l' ∷ b'i' ∷ b'v' ∷ b'e' ∷ [], at_place 13)
unfolding next_string read_amf0_string expect_marker require read_1byte read_2bytes read_string
app_read = refl

-- A third session, that publishes where session 0 does.
abbrev known_stream : ChunkStream
known_stream = record {
  time = 0;
  dtime = 0;
  len = 0;
  stream_id = 1;
  type = 20;
  ext_ts = false;
  fmt = 0;
  csid = 4;
  content = [];
  rem = 0;
  ready = false;
  phase = header;
}

abbrev rival : World
rival = record {
  session = record ready_session {
    input = record ready_session.input { cs_in = λ k. some known_stream };
  };
  self = 2;
  streams = busy_server.streams;
  actions = [];
}

rival_sees : rival.streams publish_url ≡ some watched_stream
unfolding bytes_eq
rival_sees = refl

on_publish-second_example :
    Yields
      (λ w'.
        ChangesNothing rival w'
        × TellsPublish 300 1
            (named (b'l' ∷ b'i' ∷ b'v' ∷ b'e' ∷ []) (b'a' ∷ b'b' ∷ []) rival.session)
            w'.session)
      (on_publish read_two 300 rival (at_place 0))
on_publish-second_example =
    on_publish-second read_two 300 rival (at_place 0) (b'a' ∷ b'b' ∷ [], at_place 6)
      (b'l' ∷ b'i' ∷ b'v' ∷ b'e' ∷ [], at_place 13) known_stream watched_stream name_read app_read
      rival_sees refl refl (omega arith) (omega arith)

-- The same where the publisher has left and the viewer waits.
abbrev waiting_stream : Stream
waiting_stream = record watched_stream { peers = (1, false) ∷ []; publisher = none }

abbrev successor : World
successor = record rival {
  streams = update_stream busy_server.streams publish_url (some waiting_stream);
}

-- A digest that is the same for all.
abbrev zero_hmac : Bytes → Bytes → Option Bytes
zero_hmac key b = some (replicate 32 0)

abbrev zero_hmac-IsSha256 : IsSha256 zero_hmac
zero_hmac-IsSha256 = record {
  digest = λ key b. replicate 32 0;
  answers = λ key b. refl;
  length-digest = λ key b. refl;
}

-- c2 has arrived, with the command publish after it.
abbrev late_c2 : World
late_c2 =
    with_handshake
      (record (world_of 0 ready_server) { session = record ready_session { state = handshake_c2 } })
      ready_session.hs (replicate 1536 0 ++ publish_command)

late_c2-length : 1536 ≤ length late_c2.session.input.recv_buf
late_c2-length = omega (
  arith,
  length-append (replicate {A = ℕ} 1536 0) publish_command,
  length-replicate {A = ℕ} 1536 0,
)

handle-IsGreeted_example :
    Yields
      (IsGreeted late_c2 (drop 1536 late_c2.session.input.recv_buf))
      (handle read_two zero_hmac 10 0 10 none late_c2)
handle-IsGreeted_example =
    handle-IsGreeted read_two zero_hmac zero_hmac-IsSha256 10 0 10 none late_c2 refl late_c2-length

-- A message of 200 bytes, which takes two chunks.
abbrev long_message : Message
long_message = record { time = 0; dtime = 0; type_id = 3; stream_id = 0; size = 200 }

abbrev idle_world : World
idle_world = record (world_of 0 ready_server) { session = idle_session }

handle_rounds-write_chunk_example :
    HandlesSent read_two 300 0 201 201 5 idle_world fresh_stream long_message
      (replicate 200 7)
      (9 ∷ [])
      false
handle_rounds-write_chunk_example =
    handle_rounds-write_chunk read_two 300 0 201 201 5 idle_world fresh_stream fresh_stream
      long_message (replicate 200 7) (9 ∷ []) false (omega arith) refl (omega arith) refl
      fresh_stream-Agrees
      (record {
        time_fits = λ e. absurd (omega (arith, e));
        dtime_fits = λ e. absurd (omega (arith, e));
        size_fits = omega arith;
        type_fits = omega arith;
        stream_fits = omega arith;
      })
      refl (omega arith) (omega arith)

-- createStream with the number 2.0, which is all of the message.
abbrev two : ℕ
two = 0x4000_0000_0000_0000

abbrev creating_stream : ChunkStream
creating_stream = record known_stream {
  content = create_stream_command (eight_bytes two) [];
  ready = true;
}

abbrev creating_world : World
creating_world = record (world_of 0 ready_server) {
  session = record ready_session {
    state = create_stream;
    input = record ready_session.input { cs_in = λ k. some creating_stream };
  };
}

handle_command_message-create_stream_example :
    Yields
      (λ w'.
        (w'.streams ≡ creating_world.streams)
        × (w'.actions ≡ creating_world.actions)
        × AnswersCreateStream 300
            (0x40 ∷ 0 ∷ 0 ∷ 0 ∷ 0 ∷ 0 ∷ 0 ∷ 0 ∷ [])
            (set_stream creating_world.session (some (clear_stream creating_stream)))
            w'.session)
      (handle_command_message read_two 300 0 creating_world)
handle_command_message-create_stream_example =
    handle_command_message-create_stream read_two 300 0 two creating_world creating_stream [] refl
      refl (omega arith) (omega arith) (omega arith) refl
