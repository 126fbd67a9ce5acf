-- ===== src/Tests/Suite/Passed.antt =====
-- src/packet.rs: its test functions pass, on either byte order.
use rfs_utp.Common.{
  ℕ, arith, ◌≡◌, refl, List, [], ◌∷◌, Bool, true, ◌&&◌, ◌==◌, Result, ok, err, Ends, seen, gives,
  fails, panics, hangs,
}
use rfs_utp.Common.Target.{Target, little, big}
use rfs_utp.Packet.Header.{header_try_from}
use rfs_utp.Packet.Extensions.{try_from, check_extensions}
use rfs_utp.Packet.Parse.{header-Ends, check-Ends}
use rfs_utp.Tests.Suite.Asserts.{same_list}
use rfs_utp.Tests.Suite.PacketTests.{
  sack_buf, zeros, test_packet_decode, test_decode_packet_with_extension,
  test_packet_decode_with_missing_extension, test_packet_decode_with_malformed_extension,
  test_decode_packet_with_unknown_extensions, test_packet_set_type,
  test_packet_set_selective_acknowledgment,
}
use rfs_utp.Tests.Suite.EncodeTests.{
  look, run, test_packet_encode, test_packet_encode_with_payload, test_reversible,
  test_decode_evil_sequence, test_decode_empty_packet, extension_iterator,
}

same_list_refl : (xs : List ℕ) → same_list xs xs ≡ true
unfolding same_list
same_list_refl [] = refl
same_list_refl (x ∷ xs) = ground (arith, same_list_refl xs)

-- The run of quicktest holds on every list of bytes: `try_from` gives an error when the header's
-- check or the extensions' check does, and the bytes themselves otherwise; none of the three calls
-- panics or loops.
pub run_holds : (x : List ℕ) → run x ≡ ok true
unfolding run look try_from
run_holds x = elim (seen (header_try_from x)) [
  | panics e ↦ absurd ((header-Ends x).0 e)
  | hangs e ↦ absurd ((header-Ends x).1 e)
  | fails er e ↦ elim (seen (check_extensions x)) [
    | panics e' ↦ absurd ((check-Ends x).0 e')
    | hangs e' ↦ absurd ((check-Ends x).1 e')
    | fails er' e' ↦ rw (e, e') refl
    | gives u e' ↦ rw (e, e') refl
  ]
  | gives h e ↦ elim (seen (check_extensions x)) [
    | panics e' ↦ absurd ((check-Ends x).0 e')
    | hangs e' ↦ absurd ((check-Ends x).1 e')
    | fails er' e' ↦ rw (e, e') refl
    | gives u e' ↦ rw (e, e', same_list_refl x) refl
  ]
]

abbrev pub big_dev : Target
big_dev = record { endian = big; overflow_checks = true }

abbrev pub little_dev : Target
little_dev = record { endian = little; overflow_checks = true }

test_packet_decode_passes :
    (test_packet_decode big_dev ≡ ok true) × (test_packet_decode little_dev ≡ ok true)
unfolding test_packet_decode try_from header_try_from rfs_utp.Packet.Types.packet_type_from_u8
    check_extensions rfs_utp.Packet.Types.extension_type_from_u8
    rfs_utp.Packet.Extensions.check_loop rfs_utp.Packet.Extensions.collect
    rfs_utp.Packet.Extensions.next rfs_utp.Packet.Extensions.extensions
    rfs_utp.Packet.Extensions.slice rfs_utp.Packet.Extensions.payload
    rfs_utp.Packet.Extensions.payload_loop rfs_utp.Tests.Suite.PacketTests.assert_extensions
    rfs_utp.Tests.Suite.PacketTests.assert_fields same_list rfs_utp.Tests.Suite.Asserts.same_type
    rfs_utp.Packet.Types.packet_type_to_u8 rfs_utp.Packet.Header.get_type rfs_utp.Packet.Header.cast
    rfs_utp.Packet.Header.get_version rfs_utp.Packet.Header.get_extension_type
    rfs_utp.Time.delay_from_u32 rfs_utp.Packet.Fields.get_type rfs_utp.Packet.Fields.get_version
    rfs_utp.Packet.Fields.get_extension_type rfs_utp.Packet.Fields.ack_nr
    rfs_utp.Packet.Fields.connection_id rfs_utp.Packet.Fields.seq_nr rfs_utp.Packet.Fields.timestamp
    rfs_utp.Packet.Fields.timestamp_difference rfs_utp.Packet.Fields.wnd_size
    rfs_utp.Packet.Words.load_u16 rfs_utp.Packet.Words.load_u32 rfs_utp.Packet.Words.swap_u16
    rfs_utp.Packet.Words.swap_u32 rfs_utp.Packet.Words.u8_to_unsigned_be
test_packet_decode_passes = (refl, refl)

test_decode_packet_with_extension_passes :
    (test_decode_packet_with_extension big_dev ≡ ok true)
    × (test_decode_packet_with_extension little_dev ≡ ok true)
unfolding test_decode_packet_with_extension try_from header_try_from
    rfs_utp.Packet.Types.packet_type_from_u8 check_extensions
    rfs_utp.Packet.Types.extension_type_from_u8 rfs_utp.Packet.Extensions.check_loop
    rfs_utp.Packet.Extensions.collect rfs_utp.Packet.Extensions.next
    rfs_utp.Packet.Extensions.extensions rfs_utp.Packet.Extensions.slice
    rfs_utp.Packet.Extensions.payload rfs_utp.Packet.Extensions.payload_loop
    rfs_utp.Tests.Suite.PacketTests.assert_extensions rfs_utp.Tests.Suite.PacketTests.assert_fields
    same_list rfs_utp.Tests.Suite.Asserts.same_type rfs_utp.Packet.Types.packet_type_to_u8
    rfs_utp.Packet.Header.get_type rfs_utp.Packet.Header.cast rfs_utp.Packet.Header.get_version
    rfs_utp.Packet.Header.get_extension_type rfs_utp.Time.delay_from_u32
    rfs_utp.Packet.Fields.get_type rfs_utp.Packet.Fields.get_version
    rfs_utp.Packet.Fields.get_extension_type rfs_utp.Packet.Fields.ack_nr
    rfs_utp.Packet.Fields.connection_id rfs_utp.Packet.Fields.seq_nr rfs_utp.Packet.Fields.timestamp
    rfs_utp.Packet.Fields.timestamp_difference rfs_utp.Packet.Fields.wnd_size
    rfs_utp.Packet.Words.load_u16 rfs_utp.Packet.Words.load_u32 rfs_utp.Packet.Words.swap_u16
    rfs_utp.Packet.Words.swap_u32 rfs_utp.Packet.Words.u8_to_unsigned_be
test_decode_packet_with_extension_passes = (refl, refl)

test_packet_decode_with_missing_extension_passes : test_packet_decode_with_missing_extension ≡ true
unfolding test_packet_decode_with_missing_extension try_from header_try_from
    rfs_utp.Packet.Types.packet_type_from_u8 check_extensions
    rfs_utp.Packet.Types.extension_type_from_u8
test_packet_decode_with_missing_extension_passes = refl

test_packet_decode_with_malformed_extension_passes :
    test_packet_decode_with_malformed_extension ≡ true
unfolding test_packet_decode_with_malformed_extension try_from header_try_from
    rfs_utp.Packet.Types.packet_type_from_u8 check_extensions rfs_utp.Packet.Extensions.check_loop
    rfs_utp.Packet.Types.extension_type_from_u8
test_packet_decode_with_malformed_extension_passes = refl

test_decode_packet_with_unknown_extensions_passes :
    (test_decode_packet_with_unknown_extensions big_dev ≡ ok true)
    × (test_decode_packet_with_unknown_extensions little_dev ≡ ok true)
unfolding test_decode_packet_with_unknown_extensions try_from header_try_from
    rfs_utp.Packet.Types.packet_type_from_u8 check_extensions
    rfs_utp.Packet.Types.extension_type_from_u8 rfs_utp.Packet.Extensions.check_loop
    rfs_utp.Packet.Extensions.collect rfs_utp.Packet.Extensions.next
    rfs_utp.Packet.Extensions.extensions rfs_utp.Packet.Extensions.slice
    rfs_utp.Packet.Extensions.payload rfs_utp.Packet.Extensions.payload_loop
    rfs_utp.Tests.Suite.PacketTests.assert_extensions rfs_utp.Tests.Suite.PacketTests.assert_fields
    same_list rfs_utp.Tests.Suite.Asserts.same_type rfs_utp.Packet.Types.packet_type_to_u8
    rfs_utp.Packet.Header.get_type rfs_utp.Packet.Header.cast rfs_utp.Packet.Header.get_version
    rfs_utp.Packet.Header.get_extension_type rfs_utp.Time.delay_from_u32
    rfs_utp.Packet.Fields.get_type rfs_utp.Packet.Fields.get_version
    rfs_utp.Packet.Fields.get_extension_type rfs_utp.Packet.Fields.ack_nr
    rfs_utp.Packet.Fields.connection_id rfs_utp.Packet.Fields.seq_nr rfs_utp.Packet.Fields.timestamp
    rfs_utp.Packet.Fields.timestamp_difference rfs_utp.Packet.Fields.wnd_size
    rfs_utp.Packet.Words.load_u16 rfs_utp.Packet.Words.load_u32 rfs_utp.Packet.Words.swap_u16
    rfs_utp.Packet.Words.swap_u32 rfs_utp.Packet.Words.u8_to_unsigned_be
test_decode_packet_with_unknown_extensions_passes = (refl, refl)

test_packet_set_type_passes :
    (test_packet_set_type big_dev ≡ ok true) × (test_packet_set_type little_dev ≡ ok true)
unfolding test_packet_set_type rfs_utp.Packet.Fields.get_type rfs_utp.Packet.Header.get_type
    rfs_utp.Packet.Types.packet_type_from_u8 rfs_utp.Packet.Header.cast
    rfs_utp.Packet.Fields.set_type rfs_utp.Packet.Fields.new rfs_utp.Packet.Header.as_ref
    rfs_utp.Packet.Header.set_type rfs_utp.Packet.Types.packet_type_to_u8
    rfs_utp.Packet.Header.default_header rfs_utp.Tests.Suite.Asserts.same_type
test_packet_set_type_passes = (refl, refl)

test_packet_set_selective_acknowledgment_passes :
    (test_packet_set_selective_acknowledgment big_dev ≡ ok true)
    × (test_packet_set_selective_acknowledgment little_dev ≡ ok true)
unfolding test_packet_set_selective_acknowledgment rfs_utp.Packet.Sack.set_sack
    rfs_utp.Packet.Types.extension_type_from_u8 rfs_utp.Packet.Fields.new
    rfs_utp.Packet.Header.as_ref rfs_utp.Packet.Header.default_header rfs_utp.Packet.Sack.insert
    rfs_utp.Packet.Words.store_u16 rfs_utp.Packet.Words.store_u32 rfs_utp.Packet.Sack.insert_all
    rfs_utp.Tests.Suite.PacketTests.assert_extensions rfs_utp.Packet.Extensions.collect
    rfs_utp.Packet.Extensions.next rfs_utp.Packet.Extensions.extensions
    rfs_utp.Packet.Types.extension_type_to_u8 rfs_utp.Packet.Extensions.slice
    rfs_utp.Packet.Sack.set_sack_loop same_list rfs_utp.Packet.Types.packet_type_to_u8
test_packet_set_selective_acknowledgment_passes = (refl, refl)

test_packet_encode_passes :
    (test_packet_encode big_dev ≡ ok true) × (test_packet_encode little_dev ≡ ok true)
unfolding test_packet_encode try_from header_try_from rfs_utp.Packet.Types.packet_type_from_u8
    check_extensions rfs_utp.Packet.Types.extension_type_from_u8
    rfs_utp.Packet.Extensions.check_loop rfs_utp.Packet.Extensions.collect
    rfs_utp.Packet.Extensions.next rfs_utp.Packet.Extensions.extensions
    rfs_utp.Packet.Extensions.slice rfs_utp.Packet.Extensions.payload
    rfs_utp.Packet.Extensions.payload_loop rfs_utp.Tests.Suite.PacketTests.assert_extensions
    rfs_utp.Tests.Suite.PacketTests.assert_fields same_list rfs_utp.Tests.Suite.Asserts.same_type
    rfs_utp.Packet.Types.packet_type_to_u8 rfs_utp.Packet.Header.get_type rfs_utp.Packet.Header.cast
    rfs_utp.Packet.Header.get_version rfs_utp.Packet.Header.get_extension_type
    rfs_utp.Time.delay_from_u32 rfs_utp.Packet.Fields.get_type rfs_utp.Packet.Fields.get_version
    rfs_utp.Packet.Fields.get_extension_type rfs_utp.Packet.Fields.ack_nr
    rfs_utp.Packet.Fields.connection_id rfs_utp.Packet.Fields.seq_nr rfs_utp.Packet.Fields.timestamp
    rfs_utp.Packet.Fields.timestamp_difference rfs_utp.Packet.Fields.wnd_size
    rfs_utp.Packet.Words.load_u16 rfs_utp.Packet.Words.load_u32 rfs_utp.Packet.Words.swap_u16
    rfs_utp.Packet.Words.swap_u32 rfs_utp.Packet.Words.u8_to_unsigned_be
    rfs_utp.Packet.Fields.set_seq_nr rfs_utp.Packet.Fields.set_ack_nr
    rfs_utp.Packet.Fields.set_connection_id rfs_utp.Packet.Fields.set_wnd_size
    rfs_utp.Packet.Fields.set_timestamp rfs_utp.Packet.Fields.set_timestamp_difference
    rfs_utp.Packet.Fields.set_type rfs_utp.Packet.Fields.with_payload rfs_utp.Packet.Words.store_u16
    rfs_utp.Packet.Words.store_u32 rfs_utp.Packet.Words.write_bytes rfs_utp.Packet.Header.set_type
    rfs_utp.Packet.Header.as_ref rfs_utp.Packet.Header.default_header rfs_utp.Time.delay_to_u32
    rfs_utp.Common.Int.as_unsigned rfs_utp.Tests.Suite.EncodeTests.assert_encoded
    rfs_utp.Tests.Suite.EncodeTests.encoded
test_packet_encode_passes = (refl, refl)

test_packet_encode_with_payload_passes :
    (test_packet_encode_with_payload big_dev ≡ ok true)
    × (test_packet_encode_with_payload little_dev ≡ ok true)
unfolding test_packet_encode_with_payload try_from header_try_from
    rfs_utp.Packet.Types.packet_type_from_u8 check_extensions
    rfs_utp.Packet.Types.extension_type_from_u8 rfs_utp.Packet.Extensions.check_loop
    rfs_utp.Packet.Extensions.collect rfs_utp.Packet.Extensions.next
    rfs_utp.Packet.Extensions.extensions rfs_utp.Packet.Extensions.slice
    rfs_utp.Packet.Extensions.payload rfs_utp.Packet.Extensions.payload_loop
    rfs_utp.Tests.Suite.PacketTests.assert_extensions rfs_utp.Tests.Suite.PacketTests.assert_fields
    same_list rfs_utp.Tests.Suite.Asserts.same_type rfs_utp.Packet.Types.packet_type_to_u8
    rfs_utp.Packet.Header.get_type rfs_utp.Packet.Header.cast rfs_utp.Packet.Header.get_version
    rfs_utp.Packet.Header.get_extension_type rfs_utp.Time.delay_from_u32
    rfs_utp.Packet.Fields.get_type rfs_utp.Packet.Fields.get_version
    rfs_utp.Packet.Fields.get_extension_type rfs_utp.Packet.Fields.ack_nr
    rfs_utp.Packet.Fields.connection_id rfs_utp.Packet.Fields.seq_nr rfs_utp.Packet.Fields.timestamp
    rfs_utp.Packet.Fields.timestamp_difference rfs_utp.Packet.Fields.wnd_size
    rfs_utp.Packet.Words.load_u16 rfs_utp.Packet.Words.load_u32 rfs_utp.Packet.Words.swap_u16
    rfs_utp.Packet.Words.swap_u32 rfs_utp.Packet.Words.u8_to_unsigned_be
    rfs_utp.Packet.Fields.set_seq_nr rfs_utp.Packet.Fields.set_ack_nr
    rfs_utp.Packet.Fields.set_connection_id rfs_utp.Packet.Fields.set_wnd_size
    rfs_utp.Packet.Fields.set_timestamp rfs_utp.Packet.Fields.set_timestamp_difference
    rfs_utp.Packet.Fields.set_type rfs_utp.Packet.Fields.with_payload rfs_utp.Packet.Words.store_u16
    rfs_utp.Packet.Words.store_u32 rfs_utp.Packet.Words.write_bytes rfs_utp.Packet.Header.set_type
    rfs_utp.Packet.Header.as_ref rfs_utp.Packet.Header.default_header rfs_utp.Time.delay_to_u32
    rfs_utp.Common.Int.as_unsigned rfs_utp.Tests.Suite.EncodeTests.assert_encoded
    rfs_utp.Tests.Suite.EncodeTests.encoded
test_packet_encode_with_payload_passes = (refl, refl)

test_reversible_passes : test_reversible ≡ ok true
unfolding test_reversible try_from header_try_from rfs_utp.Packet.Types.packet_type_from_u8
    check_extensions rfs_utp.Packet.Extensions.check_loop
    rfs_utp.Packet.Types.extension_type_from_u8 same_list
test_reversible_passes = refl

test_decode_evil_sequence_passes : test_decode_evil_sequence ≡ true
unfolding test_decode_evil_sequence try_from header_try_from
test_decode_evil_sequence_passes = refl

test_decode_empty_packet_passes : test_decode_empty_packet ≡ true
unfolding test_decode_empty_packet try_from header_try_from
test_decode_empty_packet_passes = refl

extension_iterator_passes : extension_iterator ≡ ok true
unfolding extension_iterator try_from header_try_from rfs_utp.Packet.Types.packet_type_from_u8
    check_extensions rfs_utp.Packet.Types.extension_type_from_u8
    rfs_utp.Packet.Extensions.check_loop rfs_utp.Packet.Extensions.collect
    rfs_utp.Packet.Extensions.next rfs_utp.Packet.Extensions.extensions
    rfs_utp.Tests.Suite.PacketTests.assert_extensions rfs_utp.Packet.Extensions.slice same_list
extension_iterator_passes = refl
