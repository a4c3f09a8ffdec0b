-- ===== src/Buffer/Examples.antt =====
-- A buffer of simple_buffer.cpp on concrete input.
use drone_server.Buffer.{
  read_1byte, read_2bytes, read_3bytes, read_4bytes, read_8bytes, write_1byte, write_2bytes,
  write_3bytes, write_4bytes, write_8bytes,
}
use drone_server.Buffer.Words.{exhausted, read-write}
use drone_server.Prelude.{[], ◌++◌, ◌∷◌, ◌≡◌}
use drone_server.Prelude.Bytes.{big_endian}
use drone_server.Prelude.Outcome.{ok}

read-write_example :
    (read_1byte (write_1byte 300 (exhausted (7 ∷ []))) ≡ ok (44, exhausted (7 ∷ 44 ∷ [])))
    × (read_2bytes (write_2bytes 300 (exhausted (7 ∷ [])))
        ≡ ok (300, exhausted ((7 ∷ []) ++ big_endian 2 300)))
    × (read_3bytes (write_3bytes 300 (exhausted (7 ∷ [])))
        ≡ ok (300, exhausted ((7 ∷ []) ++ big_endian 3 300)))
    × (read_4bytes (write_4bytes 300 (exhausted (7 ∷ [])))
        ≡ ok (300, exhausted ((7 ∷ []) ++ big_endian 4 300)))
    × (read_8bytes (write_8bytes 300 (exhausted (7 ∷ [])))
        ≡ ok (300, exhausted ((7 ∷ []) ++ big_endian 8 300)))
read-write_example = read-write (7 ∷ []) 300
