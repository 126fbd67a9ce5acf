-- ===== src/Tests/Packets.antt =====
-- Packets, extensions and bits.
use rfs_utp.Common.{
  ◌++◌, ◌+◌, ◌^◌, ◌%◌, ltb, if◌then◌else◌, panic, ℕ, suc, ◌*◌, ◌<◌, ◌≤◌, ◌≡◌, refl, arith, List, [],
  ◌∷◌, length, drop, ok, err, Bool, false, none, some, Ends,
}
use rfs_utp.Common.Int.{pos}
use rfs_utp.Common.Target.{Target, big}
use rfs_utp.Error.{invalid_packet_type}
use rfs_utp.Packet.Types.{
  fin, selective_ack, packet_type_from_u8, packet_type_to_u8, packet_type_codes,
}
use rfs_utp.Packet.Fields
use rfs_utp.Packet.Fields.{Packet, with_payload}
use rfs_utp.Packet.Wire.{fields, getters_wire}
use rfs_utp.Packet.Setters.{Write, seq_nr_, ack_nr_, type_, write_all, assign_all, setters_refine}
use rfs_utp.Packet.Fresh.{with_payload-round_trip}
use rfs_utp.Packet.Extensions
use rfs_utp.Packet.Extensions.{Extension, extensions, payload, try_from}
use rfs_utp.Packet.Parse.{IsWellFormed, try_from_accepts}
use rfs_utp.Packet.Reading.{reads_chain}
use rfs_utp.Packet.Sack.{get_sack}
use rfs_utp.Packet.SetSack.{SackSet, set_sack_lem}
use rfs_utp.Common.{◌≢◌}
use rfs_utp.Stream.{ready, poll_read, poll_read_header}
use rfs_utp.Packet.GetSack.{get_sack_first, get_sack_misses}
use rfs_utp.BitIterator.Defs as Iter
use rfs_utp.BitIterator.Defs.{from_bytes, count_ones, size_hint}
use rfs_utp.BitIterator.Bits.{
  bits_from, count_true, at, collect-from_bytes, count_ones-collect, size_hint_stale,
}
use rfs_utp.Tests.Samples.{
  dev, data_packet, sack_packet, sack_bytes, two_extensions, unknown_first,
  sack_packet-IsWellFormed, two_extensions-IsWellFormed,
}

abbrev router : Target
router = record { endian = big; overflow_checks = false }

try_from_accepts_example :
    ((xs : List Extension) (pl : List ℕ)
      → IsWellFormed two_extensions xs pl
      → try_from two_extensions ≡ ok two_extensions)
    × ((p : Packet)
        → try_from two_extensions ≡ ok p
        → (p ≡ two_extensions)
          × ((xs : List Extension) × (pl : List ℕ) × IsWellFormed two_extensions xs pl))
    × Ends (try_from two_extensions)
try_from_accepts_example = try_from_accepts two_extensions (omega arith)

reads_chain_example :
    (payload {E = ⊥} two_extensions ≡ ok (104 ∷ []))
    × (Extensions.collect {E = ⊥} (length two_extensions) (extensions two_extensions)
        ≡ ok (unknown_first ∷ record { ty = selective_ack; bytes = sack_bytes } ∷ []))
reads_chain_example = reads_chain {E = ⊥} two_extensions _ (104 ∷ []) two_extensions-IsWellFormed

set_sack_lem_example :
    SackSet ⊥ sack_packet (record { ty = selective_ack; bytes = sack_bytes } ∷ []) [] sack_bytes
set_sack_lem_example =
    set_sack_lem ⊥ sack_packet (record { ty = selective_ack; bytes = sack_bytes } ∷ []) []
      sack_bytes sack_packet-IsWellFormed (omega arith) refl (omega arith)

abbrev three_writes : List Write
three_writes = seq_nr_ 65_535 ∷ type_ fin ∷ ack_nr_ 258 ∷ []

setters_refine_example :
    (fields (write_all router (data_packet 3) three_writes)
      ≡ assign_all (fields (data_packet 3)) three_writes)
    × (drop 20 (write_all router (data_packet 3) three_writes) ≡ drop 20 (data_packet 3))
    × (length (write_all router (data_packet 3) three_writes) ≡ length (data_packet 3))
setters_refine_example =
    setters_refine router three_writes (data_packet 3) (omega arith) (omega arith) (omega arith)

getters_wire_example :
    (Fields.seq_nr dev (data_packet 3) ≡ (fields (data_packet 3)).seq_nr)
    × (Fields.ack_nr dev (data_packet 3) ≡ (fields (data_packet 3)).ack_nr)
    × (Fields.connection_id dev (data_packet 3) ≡ (fields (data_packet 3)).connection_id)
    × (Fields.wnd_size dev (data_packet 3) ≡ (fields (data_packet 3)).wnd_size)
    × (Fields.timestamp dev (data_packet 3) ≡ (fields (data_packet 3)).timestamp)
    × (Fields.timestamp_difference dev (data_packet 3)
        ≡ pos (fields (data_packet 3)).timestamp_difference)
getters_wire_example = getters_wire dev (data_packet 3) (omega arith)

with_payload-round_trip_example :
    (try_from (with_payload dev (1 ∷ 255 ∷ [])) ≡ ok (with_payload dev (1 ∷ 255 ∷ [])))
    × (payload {E = ⊥} (with_payload dev (1 ∷ 255 ∷ [])) ≡ ok (1 ∷ 255 ∷ []))
    × (Extensions.collect {E = ⊥}
          (length (with_payload dev (1 ∷ 255 ∷ [])))
          (extensions (with_payload dev (1 ∷ 255 ∷ [])))
        ≡ ok [])
with_payload-round_trip_example = with_payload-round_trip dev (1 ∷ 255 ∷ []) (omega arith)

get_sack_first_example : get_sack {E = ⊥} sack_packet ≡ ok (some sack_bytes)
get_sack_first_example =
    get_sack_first {E = ⊥} sack_packet [] [] sack_bytes sack_packet-IsWellFormed

get_sack_misses_example : get_sack {E = ⊥} two_extensions ≡ ok none
get_sack_misses_example =
    get_sack_misses {E = ⊥} two_extensions unknown_first sack_bytes (104 ∷ []) refl
      two_extensions-IsWellFormed

collect-from_bytes_example :
    Iter.collect {E = ⊥} (suc 32) (from_bytes sack_bytes) ≡ ok (bits_from sack_bytes 0 32)
collect-from_bytes_example = collect-from_bytes {E = ⊥} sack_bytes (omega arith)

count_ones-collect_example :
    (bits : List Bool) × (Iter.collect {E = ⊥} (suc (length sack_bytes * 8)) (from_bytes sack_bytes)
      ≡ ok bits)
    × (count_ones {E = ⊥} dev (at sack_bytes 9) ≡ (
        if ltb (count_true bits) (2 ^ 32)
        then ok (count_true bits)
        else if dev.overflow_checks
        then panic
        else ok (count_true bits % 2 ^ 32)))
count_ones-collect_example = count_ones-collect {E = ⊥} dev sack_bytes 9 (omega arith)

size_hint_stale_example :
    (bits : List Bool) × (Iter.collect {E = ⊥} (suc 29) (at sack_bytes 3) ≡ ok bits)
    × (size_hint (at sack_bytes 3) ≡ (length bits + 3, some (length bits + 3)))
    × (size_hint (at sack_bytes 3) ≡ (length sack_bytes * 8, some (length sack_bytes * 8)))
    × (length bits < (size_hint (at sack_bytes 3)).0)
size_hint_stale_example =
    size_hint_stale {E = ⊥} sack_bytes 3 (omega arith) (omega arith) (omega arith)

packet_type_codes_example :
    (packet_type_from_u8 (packet_type_to_u8 fin) ≡ ok fin)
    × (packet_type_from_u8 9 ≡ ok fin → packet_type_to_u8 fin ≡ 9)
    × (6 ≤ 9 → packet_type_from_u8 9 ≡ err (invalid_packet_type 9))
packet_type_codes_example = packet_type_codes 9 fin

poll_read_header_example :
    (poll_read (ready (some two_extensions)) 64 ≡ ready two_extensions)
    × (payload {E = ⊥} two_extensions ≡ ok (104 ∷ []))
    × ((front : List ℕ) × (two_extensions ≡ front ++ (104 ∷ [])) × (20 ≤ length front))
    × (two_extensions ≢ 104 ∷ [])
poll_read_header_example =
    poll_read_header two_extensions _ (104 ∷ []) 64 two_extensions-IsWellFormed (omega arith)
