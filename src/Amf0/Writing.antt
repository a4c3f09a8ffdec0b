-- ===== src/Amf0/Writing.antt =====
-- The `write` methods of amf0.cpp. A property whose pointer is null is written through that pointer:
-- a fault.
use drone_server.Amf0.{
  Amf0Data, Items, Pointer, Properties, boolean, count, count_items, ecma_array, item,
  marker_object_end, no_items, no_properties, null, null_pointer, number, object, object_end,
  property, strict_array, string, to, undefined,
}
use drone_server.Buffer.{
  SimpleBuffer, write_1byte, write_2bytes, write_4bytes, write_8bytes, write_string,
}
use drone_server.Prelude.{if◌then◌else◌, length, ℕ}
use drone_server.Prelude.Outcome.{Outcome, fault, ok, ◌>>=◌}

unfoldable pub write_object_end : ℕ → SimpleBuffer → SimpleBuffer
write_object_end marker b = write_1byte marker (write_2bytes 0x00 b)

unfoldable mutual
  pub write : Amf0Data → SimpleBuffer → Outcome SimpleBuffer
  write (number marker value) b = ok (write_8bytes value (write_1byte marker b))
  write (boolean marker value) b =
      ok (write_1byte (if value then 0x01 else 0x00) (write_1byte marker b))
  write (string marker value) b =
      ok (write_string value (write_2bytes (length value) (write_1byte marker b)))
  write (object marker ps) b = write_properties ps (write_1byte marker b) >>= λ b'.
      ok (write_object_end marker_object_end b')
  write (object_end marker) b = ok (write_object_end marker b)
  write (null marker) b = ok (write_1byte marker b)
  write (undefined marker) b = ok (write_1byte marker b)
  write (ecma_array marker ps) b =
      write_properties ps (write_4bytes (count ps) (write_1byte marker b)) >>= λ b'.
      ok (write_object_end marker_object_end b')
  write (strict_array marker vs) b =
      write_items vs (write_4bytes (count_items vs) (write_1byte marker b))

  pub write_pointer : Pointer → SimpleBuffer → Outcome SimpleBuffer
  write_pointer null_pointer b = fault
  write_pointer (to v) b = write v b

  pub write_properties : Properties → SimpleBuffer → Outcome SimpleBuffer
  write_properties no_properties b = ok b
  write_properties (property name v ps) b =
      write_pointer v (write_string name (write_2bytes (length name) b)) >>= λ b'.
      write_properties ps b'

  pub write_items : Items → SimpleBuffer → Outcome SimpleBuffer
  write_items no_items b = ok b
  write_items (item v vs) b = write_pointer v b >>= λ b'. write_items vs b'
