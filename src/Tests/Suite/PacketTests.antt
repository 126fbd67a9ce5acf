-- ===== src/Tests/Suite/PacketTests.antt =====
-- src/packet.rs: its test functions. Each gives whether all that it asserts holds; a panic of the
-- code under test is a panic of the test.
use rfs_utp.Common.{ℕ, ◌^◌, List, [], ◌∷◌, length, take, Bool, true, ◌&&◌, ◌==◌, Result, ok, ◌>>=◌}
use rfs_utp.Common.Int.{pos}
use rfs_utp.Common.Target.{Target}
use rfs_utp.Error.{ParseError}
use rfs_utp.Packet.Types.{
  PacketType, ExtensionType, data_, fin, state, reset, syn, none_, selective_ack,
}
use rfs_utp.Packet.Fields
use rfs_utp.Packet.Fields.{Packet, new, with_payload}
use rfs_utp.Packet.Extensions
use rfs_utp.Packet.Extensions.{Extension, try_from, check_extensions, payload, extensions}
use rfs_utp.Packet.Sack.{set_sack}
use rfs_utp.Tests.Suite.Asserts.{
  same_list, same_type, same_extension, same_delay, same_extensions, is_err,
}

-- A run of a test.
abbrev pub TestRun : Type 0
TestRun = Result ParseError Bool

-- The fields that the tests of decoding and encoding assert, in their order.
pub record Expected : Type 0 where
  pub extension_type : ExtensionType
  pub packet_type : PacketType
  pub connection_id : ℕ
  pub timestamp : ℕ
  pub timestamp_difference : ℕ
  pub wnd_size : ℕ
  pub seq_nr : ℕ
  pub ack_nr : ℕ
  pub payload : List ℕ

unfoldable pub assert_fields : Target → Packet → Expected → TestRun
assert_fields t p e = Fields.get_type t p >>= λ ty. payload p >>= λ pl. ok (
    (Fields.get_version t p == 1)
    && same_extension (Fields.get_extension_type t p) e.extension_type
    && same_type ty e.packet_type
    && (Fields.connection_id t p == e.connection_id)
    && (Fields.timestamp t p == e.timestamp)
    && same_delay (Fields.timestamp_difference t p) (pos e.timestamp_difference)
    && (Fields.wnd_size t p == e.wnd_size)
    && (Fields.seq_nr t p == e.seq_nr)
    && (Fields.ack_nr t p == e.ack_nr)
    && same_list pl e.payload)

-- `packet.extensions().collect()` against the extensions that are asserted.
unfoldable pub assert_extensions : Packet → List Extension → TestRun
assert_extensions p xs =
    Extensions.collect (length p) (extensions p) >>= λ found. ok (same_extensions found xs)

-- One test after the other.
abbrev pub both : TestRun → TestRun → TestRun
both a b = a >>= λ x. b >>= λ y. ok (x && y)

abbrev pub zeros : List ℕ
zeros = 0 ∷ 0 ∷ 0 ∷ 0 ∷ []

abbrev pub decode_buf : List ℕ
decode_buf =
    0x21 ∷ 0x00 ∷ 0x41 ∷ 0xa8 ∷ 0x99 ∷ 0x2f ∷ 0xd0 ∷ 0x2a ∷ 0x9f ∷ 0x4a ∷ 0x26 ∷ 0x21 ∷ 0x00 ∷ 0x10
    ∷ 0x00 ∷ 0x00 ∷ 0x3a ∷ 0xf2 ∷ 0x6c ∷ 0x79 ∷ []

unfoldable pub test_packet_decode : Target → TestRun
test_packet_decode t = try_from decode_buf >>= λ p.
    both
      (assert_fields t p (record {
        extension_type = none_;
        packet_type = state;
        connection_id = 16808;
        timestamp = 2570047530;
        timestamp_difference = 2672436769;
        wnd_size = 2 ^ 20;
        seq_nr = 15090;
        ack_nr = 27769;
        payload = [];
      }))
      (ok (Fields.len p == length decode_buf))

abbrev pub sack_buf : List ℕ → List ℕ
sack_buf rest =
    0x21 ∷ 0x01 ∷ 0x41 ∷ 0xa7 ∷ 0x00 ∷ 0x00 ∷ 0x00 ∷ 0x00 ∷ 0x00 ∷ 0x00 ∷ 0x00 ∷ 0x00 ∷ 0x00 ∷ 0x00
    ∷ 0x05 ∷ 0xdc ∷ 0xab ∷ 0x53 ∷ 0x3a ∷ 0xf5 ∷ rest

abbrev pub sack_fields : Expected
sack_fields = record {
  extension_type = selective_ack;
  packet_type = state;
  connection_id = 16807;
  timestamp = 0;
  timestamp_difference = 0;
  wnd_size = 1500;
  seq_nr = 43859;
  ack_nr = 15093;
  payload = [];
}

unfoldable pub test_decode_packet_with_extension : Target → TestRun
test_decode_packet_with_extension t =
    let buf = sack_buf (0x00 ∷ 0x04 ∷ zeros) in
    try_from buf >>= λ p. both (assert_fields t p sack_fields) (
      both (assert_extensions p (record { ty = selective_ack; bytes = zeros } ∷ []))
        (ok ((Fields.len p == length buf) && same_list p buf)))

unfoldable pub test_packet_decode_with_missing_extension : Bool
test_packet_decode_with_missing_extension = is_err (
    try_from (
      0x21 ∷ 0x01 ∷ 0x41 ∷ 0xa8 ∷ 0x99 ∷ 0x2f ∷ 0xd0 ∷ 0x2a ∷ 0x9f ∷ 0x4a ∷ 0x26 ∷ 0x21 ∷ 0x00
      ∷ 0x10 ∷ 0x00 ∷ 0x00 ∷ 0x3a ∷ 0xf2 ∷ 0x6c ∷ 0x79 ∷ []))

unfoldable pub test_packet_decode_with_malformed_extension : Bool
test_packet_decode_with_malformed_extension = is_err (
    try_from (
      0x21 ∷ 0x01 ∷ 0x41 ∷ 0xa8 ∷ 0x99 ∷ 0x2f ∷ 0xd0 ∷ 0x2a ∷ 0x9f ∷ 0x4a ∷ 0x26 ∷ 0x21 ∷ 0x00
      ∷ 0x10 ∷ 0x00 ∷ 0x00 ∷ 0x3a ∷ 0xf2 ∷ 0x6c ∷ 0x79 ∷ 0x00 ∷ 0x04 ∷ 0x00 ∷ []))

-- Of the two extensions the test asserts the first, and their number.
unfoldable pub test_decode_packet_with_unknown_extensions : Target → TestRun
test_decode_packet_with_unknown_extensions t =
    try_from (sack_buf (0xff ∷ 0x04 ∷ 0x00 ∷ 0x00 ∷ 0x00 ∷ 0x00 ∷ 0x00 ∷ 0x04 ∷ zeros)) >>= λ p.
    both (assert_fields t p sack_fields) (
      Extensions.collect (length p) (extensions p) >>= λ xs. ok (
        (length xs == 2)
        && same_extensions (take 1 xs) (record { ty = selective_ack; bytes = zeros } ∷ [])))

-- `set_type` and then `get_type`, one type after the other.
unfoldable pub set_types : Target → List PacketType → Packet → TestRun
set_types t [] p = ok true
set_types t (ty ∷ tys) p =
    let p' = Fields.set_type t p ty in
    Fields.get_type t p' >>= λ got. both (ok (same_type got ty)) (set_types t tys p')

unfoldable pub test_packet_set_type : Target → TestRun
unfolding set_types
test_packet_set_type t = set_types t (syn ∷ state ∷ fin ∷ reset ∷ data_ ∷ []) (new t)

abbrev pub first_sack : Extension
first_sack = record { ty = selective_ack; bytes = 1 ∷ 2 ∷ 3 ∷ 4 ∷ [] }

abbrev pub second_sack : Extension
second_sack = record { ty = selective_ack; bytes = 5 ∷ 6 ∷ 7 ∷ 8 ∷ 9 ∷ 10 ∷ 11 ∷ 12 ∷ [] }

unfoldable pub test_packet_set_selective_acknowledgment : Target → TestRun
test_packet_set_selective_acknowledgment t = set_sack (new t) first_sack.bytes >>= λ p.
    assert_extensions p (first_sack ∷ []) >>= λ a. set_sack p second_sack.bytes >>= λ q.
    assert_extensions q (first_sack ∷ second_sack ∷ []) >>= λ b. ok (a && b)
