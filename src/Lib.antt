-- ===== src/Lib.antt =====
-- drone_server receives video of drones over RTMP, shows it to viewers, and keeps it. This is a model
-- of the parts that carry a message from the bytes of a connection to the viewers of a stream, with
-- theorems on them. The paths are those of the repository.
--
-- The parts and their files:
--   * Buffer: src/rtmp/src/DDS/rtmp/amf0/simple_buffer.cpp and .h. A SimpleBuffer is the bytes and the
--     read position; each read_… and write_… is the function of that name. Buffer/Words, Buffer/Cursor
--     and Buffer/Progress have the lemmas.
--   * Amf0: src/rtmp/src/DDS/rtmp/amf0/amf0.cpp and .h. Amf0Data has a constructor for each class, with
--     the marker that the object holds; Amf0/Writing has the write and Amf0/Reading the read functions,
--     and create_amf0data. Amf0/Standard has the AMF0 encoding apart from the code.
--   * Chunk: src/rtmp/src/DDS/rtmp/rtmp_chunk_stream.cpp and .hpp, here with the state and the reading
--     side; Chunk/Writing has write_chunk. Chunk/Receiving has read_chunk_stream of
--     src/rtmp/src/DDS/rtmp/rtmp_session.cpp and the part of handle that calls it until a message is
--     whole.
--   * Session: the state and write_chunk of src/rtmp/src/DDS/rtmp/rtmp_session.hpp and .cpp; in
--     Session/Control and Session/Senders all of
--     src/rtmp/src/DDS/rtmp/rtmp_session_control_message.cpp; in Session/World, Session/Replies and
--     Session/Commands all of src/rtmp/src/DDS/rtmp/rtmp_session_command_message.cpp, with the global
--     map streams_; in Session/Handling, Session/Reading and Session/Delivery the rest of
--     rtmp_session.cpp: handle, on_read, handle_chunk_stream and write_media_packet.
--     Session/Interleaving has the server, whose sessions take turns. The other files are proofs.
--   * Handshake: src/rtmp/src/DDS/rtmp/rtmp_handshake.hpp and .cpp, with send_s0s1s2 in
--     Handshake/Replies.
--   * Tcp: the write queue and close of src/core/src/DDS/core/tcp_session.hpp; Tcp/Steps has the order
--     of calls and completions.
--   * Clients: src/core/src/DDS/core/client.hpp, and src/core/src/DDS/core/client_pool.hpp in
--     Clients/Pool.
--   * Async: src/core/src/DDS/core/async_handler.hpp; Async/Jobs has the order of the threads' steps.
--   * Media: src/rtmp/src/DDS/rtmp/media_packet.hpp; Media/GopCache has gop_cache.cpp and .hpp,
--     Media/Conversion and Media/Stream have rtmp_stream.cpp and .hpp beside it.
--   * Prelude: numbers, lists, bytes and outcomes, that all of them use.
--
-- How they interact: a session first does the handshake; then handle reads chunks from its buffer into
-- the chunk streams of its table until one of them has a message. A control message changes the settings
-- of the session; a command moves its state on, names its stream, and joins or leaves the stream in the
-- map that all sessions share; a message with media goes to that stream, which converts it to a packet,
-- puts it into the cache and sends it, or at first the whole cache, to each viewer. Sending cuts a message
-- into chunks again, which the write queue hands to the socket one by one.
--
-- A World is a session in its turn, with the map and a list of what it does to others. The source calls
-- the other sessions at once; here they are called at the end of the turn, which reads nothing of them and
-- never has its own session among them.
--
-- Outcome says how a piece of the program ends: with a value, with a fault (a failed assert, an
-- exception of at, a null pointer or a read past the end of an array), or with the model out of fuel.
--
-- Fuel: create_amf0data takes fuel for nested objects and properties, of which each has a byte or more,
-- so that fuel for each unread byte is enough. receive takes fuel for its rounds, of which each reads a
-- byte or more, save one that finishes a chunk whose header stands read. send_rest takes fuel for the
-- chunks after the first; a positive chunk size makes the length of the message enough. handle_rounds
-- takes fuel for its rounds, and passes on the fuel for reading properties and for sending; what is proved
-- of a whole turn is proved for whatever fuel lets it end.
--
-- The parameters: std::stoul is an argument of what uses it; a new chunk stream's fmt_ and rem_, which
-- the source leaves unset, are arguments too, and so is the value of a number that could not be read.
-- HMAC is an argument, and so are the bytes that RAND_bytes gives. A double is its pattern of 64 bits.
-- The peers of a stream stand in a list, in whatever order the hash map is walked; a session is a number
-- there. The read position of a SimpleBuffer is never negative: skip, which could make it so, is called
-- only by create_amf0data, to go back over a byte that was read.
--
-- Not modelled: the accepting TCP server, the managers of media and flight data, and the
-- services around them, are left for later; the calls of FFmpeg, libpqxx, the web socket and the JSON
-- library have no source here; the JSON library is a copy of another project's.
pub mod Prelude
pub mod Buffer
pub mod Amf0
pub mod Chunk
pub mod Session
pub mod Media
pub mod Handshake
pub mod Tcp
pub mod Clients
pub mod Async
