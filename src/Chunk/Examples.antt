-- ===== src/Chunk/Examples.antt =====
-- Chunks of rtmp_chunk_stream.cpp on concrete input.
use drone_server.Chunk.{
  ChunkStream, complete, header, incomplete, payload, read_f1, read_header, read_header_of,
}
use drone_server.Chunk.Bounds.{HasMessage, receive_total}
use drone_server.Chunk.Faults.{read_header-retry, write_chunk-zero_size}
use drone_server.Chunk.Headers.{FitsWire}
use drone_server.Chunk.Messages.{Transfers, receive-write_chunk}
use drone_server.Chunk.Payload.{waiting}
use drone_server.Chunk.Receiving.{Input, receive}
use drone_server.Chunk.Resumption.{read_header-resumes}
use drone_server.Chunk.Sending.{Agrees}
use drone_server.Chunk.Writing.{Message, write_chunk}
use drone_server.Prelude.{
  Option, [], arith, false, if◌then◌else◌, none, refl, some, true, ℕ, ◌++◌, ◌==◌, ◌∷◌, ◌≡◌,
}
use drone_server.Prelude.Bytes.{Bytes}
use drone_server.Prelude.Outcome.{Ensures, out_of_fuel}

-- A stream that has sent and read nothing.
abbrev fresh : ChunkStream
fresh = record {
  time = 0xffff_ffff;
  dtime = 0xffff_ffff;
  len = 0;
  stream_id = 0xffff_ffff;
  type = 0;
  ext_ts = false;
  fmt = 0;
  csid = 5;
  content = [];
  rem = 0;
  ready = false;
  phase = header;
}

abbrev streams : ℕ → Option ChunkStream
streams k = if k == 5 then some fresh else none

-- A message of five bytes in chunks of two.
abbrev five_bytes : Bytes
five_bytes = 1 ∷ 2 ∷ 3 ∷ 4 ∷ 5 ∷ []

abbrev video_message : Message
video_message = record { time = 70; dtime = 0; type_id = 9; stream_id = 30; size = 5 }

fresh-Agrees : Agrees fresh fresh
fresh-Agrees = (
  record { len_synced = refl; type_synced = refl; stream_synced = refl },
  record {
    no_extended = refl;
    at_header = refl;
    no_content = refl;
    not_ready = refl;
    nothing_left = refl;
  },
  refl,
)

video_message-FitsWire : FitsWire video_message
video_message-FitsWire = record {
  time_fits = λ e. absurd (omega arith);
  dtime_fits = λ e. absurd (omega arith);
  size_fits = omega arith;
  type_fits = omega arith;
  stream_fits = omega arith;
}

receive-write_chunk_example :
    Transfers 2 0 0 6 6 fresh fresh video_message five_bytes (7 ∷ []) true streams 0 0
receive-write_chunk_example =
    receive-write_chunk 2 0 0 6 6 fresh fresh video_message five_bytes (7 ∷ []) true streams 0 0
      (omega arith) (omega arith) refl fresh-Agrees video_message-FitsWire refl (omega arith)
      (omega arith)

abbrev some_input : Input
some_input = waiting 2 0 0 streams 0 0 (5 ∷ 0 ∷ 0 ∷ [])

receive_total_example : Ensures HasMessage (receive 4 some_input)
receive_total_example = receive_total 4 some_input (omega arith)

write_chunk-zero_size_example : write_chunk 100 0 video_message five_bytes true fresh ≡ out_of_fuel
write_chunk-zero_size_example =
    write_chunk-zero_size 100 video_message five_bytes true fresh (omega arith)

-- A stream on which a header of format 0 with an extended time was read and its message is whole.
abbrev extended_stream : ChunkStream
extended_stream = record fresh { ext_ts = true; len = 2 }

read_header-retry_example :
    (s' : ChunkStream) × (read_header 3 extended_stream (1 ∷ []) ≡ (incomplete, s', 1 ∷ []))
    × (read_header 3 s' (1 ∷ 0 ∷ 0 ∷ 0 ∷ 8 ∷ 9 ∷ []) ≡ (
      complete,
      record extended_stream { fmt = 3; phase = payload; content = []; rem = 2; ready = false },
      1 ∷ 0 ∷ 0 ∷ 0 ∷ 8 ∷ 9 ∷ [],
    ))
    × (read_header 3 extended_stream (1 ∷ 0 ∷ 0 ∷ 0 ∷ 8 ∷ 9 ∷ []) ≡ (
      complete,
      record extended_stream {
        time = 1;
        fmt = 3;
        phase = payload;
        content = [];
        rem = 2;
        ready = false;
      },
      8 ∷ 9 ∷ [],
    ))
read_header-retry_example =
    read_header-retry extended_stream (1 ∷ []) (0 ∷ 0 ∷ 0 ∷ 8 ∷ 9 ∷ []) refl refl refl refl
      (omega arith) (omega arith)

-- Nine bytes of a header of format 1 with an extended time, and the two that end its time.
abbrev nine_bytes : Bytes
nine_bytes = 255 ∷ 255 ∷ 255 ∷ 0 ∷ 0 ∷ 5 ∷ 9 ∷ 1 ∷ 0 ∷ []

nine_bytes-stop :
    read_header 1 fresh nine_bytes
    ≡ (incomplete, record fresh { ext_ts = true; fmt = 1 }, nine_bytes)
unfolding read_header read_header_of read_f1
nine_bytes-stop = refl

read_header-resumes_example :
    (nine_bytes ≡ nine_bytes)
    × (read_header 1 (record fresh { ext_ts = true; fmt = 1 }) (nine_bytes ++ 0 ∷ 0 ∷ [])
        ≡ read_header 1 fresh (nine_bytes ++ 0 ∷ 0 ∷ []))
read_header-resumes_example =
    read_header-resumes 1 fresh (record fresh { ext_ts = true; fmt = 1 }) nine_bytes (0 ∷ 0 ∷ [])
      nine_bytes (omega arith) refl nine_bytes-stop
