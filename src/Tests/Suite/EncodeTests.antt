-- ===== src/Tests/Suite/EncodeTests.antt =====
-- src/packet.rs: its test functions on encoding, and on bytes that come from elsewhere.
use rfs_utp.Common.{
  ℕ, ◌+◌, List, [], ◌∷◌, length, Bool, false, ◌&&◌, ◌||◌, ◌==◌, Result, ok, err, panic, hang, ◌>>=◌,
  if◌then◌else◌,
}
use rfs_utp.Common.Int.{pos}
use rfs_utp.Common.Target.{Target}
use rfs_utp.Packet.Types.{data_, none_, selective_ack, unknown}
use rfs_utp.Packet.Header.{header_size, header_try_from, unwrap}
use rfs_utp.Packet.Fields
use rfs_utp.Packet.Fields.{Packet, with_payload}
use rfs_utp.Packet.Extensions
use rfs_utp.Packet.Extensions.{Extension, try_from, check_extensions, extensions}
use rfs_utp.Tests.Suite.Asserts.{same_list, is_err}
use rfs_utp.Tests.Suite.PacketTests.{
  TestRun, assert_fields, assert_extensions, both, decode_buf, sack_buf, zeros,
}

-- "Hello\n"
abbrev pub hello : List ℕ
hello = 0x48 ∷ 0x65 ∷ 0x6c ∷ 0x6c ∷ 0x6f ∷ 0x0a ∷ []

abbrev pub encoded_buf : List ℕ
encoded_buf =
    0x01 ∷ 0x00 ∷ 0x41 ∷ 0xa8 ∷ 0x00 ∷ 0xe9 ∷ 0x03 ∷ 0x89 ∷ 0x65 ∷ 0xbf ∷ 0x5d ∷ 0xba ∷ 0x00 ∷ 0x10
    ∷ 0x00 ∷ 0x00 ∷ 0x3a ∷ 0xf2 ∷ 0x42 ∷ 0xc8 ∷ hello

-- The setters that both tests of encoding call after the constructor, in their order.
unfoldable pub encoded : Target → Packet → Packet
encoded t p0 =
    let p1 = Fields.set_timestamp t p0 15270793 in
    let p2 = Fields.set_timestamp_difference t p1 (pos 1707040186) in
    let p3 = Fields.set_connection_id t p2 16808 in
    let p4 = Fields.set_seq_nr t p3 15090 in
    let p5 = Fields.set_ack_nr t p4 17096 in Fields.set_wnd_size t p5 1048576

-- What both tests of encoding assert.
unfoldable pub assert_encoded : Target → Packet → TestRun
assert_encoded t p =
    both
      (assert_fields t p (record {
        extension_type = none_;
        packet_type = data_;
        connection_id = 16808;
        timestamp = 15270793;
        timestamp_difference = 1707040186;
        wnd_size = 1048576;
        seq_nr = 15090;
        ack_nr = 17096;
        payload = hello;
      }))
      (ok (
        (Fields.len p == length encoded_buf)
        && (Fields.len p == header_size + length hello)
        && same_list p encoded_buf))

unfoldable pub test_packet_encode : Target → TestRun
test_packet_encode t = assert_encoded t (encoded t (Fields.set_type t (with_payload t hello) data_))

unfoldable pub test_packet_encode_with_payload : Target → TestRun
test_packet_encode_with_payload t = assert_encoded t (encoded t (with_payload t hello))

unfoldable pub test_reversible : TestRun
test_reversible = unwrap (try_from encoded_buf) >>= λ p. ok (same_list p encoded_buf)

unfoldable pub test_decode_evil_sequence : Bool
test_decode_evil_sequence = is_err (
    try_from
      (0 ∷ 1 ∷ 0 ∷ 0 ∷ 0 ∷ 0 ∷ 0 ∷ 0 ∷ 0 ∷ 0 ∷ 0 ∷ 0 ∷ 0 ∷ 0 ∷ 0 ∷ 0 ∷ 0 ∷ 0 ∷ 0 ∷ 0 ∷ 0 ∷ []))

unfoldable pub test_decode_empty_packet : Bool
test_decode_empty_packet = is_err (try_from [])

unfoldable pub extension_iterator : TestRun
extension_iterator = unwrap (try_from decode_buf) >>= λ p.
    Extensions.collect (length p) (extensions p) >>= λ xs.
    unwrap (try_from (sack_buf (0x00 ∷ 0x04 ∷ zeros))) >>= λ q.
    assert_extensions q (record { ty = selective_ack; bytes = zeros } ∷ []) >>= λ b.
    unwrap (try_from (sack_buf (0xff ∷ 0x04 ∷ 1 ∷ 2 ∷ 3 ∷ 4 ∷ 0x00 ∷ 0x04 ∷ 5 ∷ 6 ∷ 7 ∷ 8 ∷ [])))
    >>= λ r.
        assert_extensions r (
          record { ty = selective_ack; bytes = 1 ∷ 2 ∷ 3 ∷ 4 ∷ [] }
          ∷ record { ty = unknown 0xff; bytes = 5 ∷ 6 ∷ 7 ∷ 8 ∷ [] }
          ∷ [])
        >>= λ c. ok ((length xs == 0) && b && c)

-- A result that a test looks at; a panic is the test's.
unfoldable pub look {ℓ κ μ} :
    {E : Type ℓ} {F : Type κ} {A : Type μ} → Result E A → Result F (Result E A)
look (ok a) = ok (ok a)
look (err e) = ok (err e)
look panic = panic
look hang = hang

-- `run` of `quicktest`. The argument of `and` is computed before the call, whatever the header is.
unfoldable pub run : List ℕ → TestRun
run x = look (try_from x) >>= λ packet. look (header_try_from x) >>= λ header.
    look (check_extensions x) >>= λ checked.
    if is_err header || is_err checked
    then ok (is_err packet)
    else elim packet [ ok p ↦ ok (same_list p x) | err e ↦ ok false | panic ↦ panic | hang ↦ hang ]
