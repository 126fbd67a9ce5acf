-- ===== src/Packet/Fresh.antt =====
-- src/packet.rs: the packets that the constructors make.
use rfs_utp.Common.{
  ℕ, ◌+◌, ◌≤◌, ◌≡◌, refl, ap, ◌∙◌, arith, List, [], ◌++◌, length, get_or, drop, All, ok,
  length-append, All-append,
}
use mathlib.Core.List.{append-nil}
use rfs_utp.Packet.Extensions.{try_from, payload, collect, extensions}
use rfs_utp.Packet.Reading.{reads_chain}
use rfs_utp.Common.Target.{Target, Endian, little, big}
use rfs_utp.Packet.Types.{data_, packet_type_to_u8, extension_type_from_u8}
use rfs_utp.Packet.Words.{IsByte, store_u16, store_u32}
use rfs_utp.Packet.Header
use rfs_utp.Packet.Header.{PacketHeader, as_ref, default_header}
use rfs_utp.Packet.Fields.{Packet, new, with_payload}
use rfs_utp.Packet.Wire.{fields}
use rfs_utp.Packet.Chain.{end}
use rfs_utp.Packet.Parse.{IsWellFormed, try_from_accepts}

-- The fields of a new packet: a data packet of version 1 with nothing else set.
abbrev pub blank : PacketHeader
blank = record {
  type_ver = 1;
  extension = 0;
  connection_id = 0;
  timestamp = 0;
  timestamp_difference = 0;
  wnd_size = 0;
  seq_nr = 0;
  ack_nr = 0;
}

front_blank :
    (e : Endian) (payload : List ℕ)
    → (fields (as_ref e default_header ++ payload) ≡ blank)
      × (length (as_ref e default_header) ≡ 20)
      × (drop 20 (as_ref e default_header ++ payload) ≡ payload)
      × All IsByte (as_ref e default_header)
unfolding fields as_ref default_header store_u16 store_u32 packet_type_to_u8
front_blank little payload = (refl, refl, refl, omega arith)
front_blank big payload = (refl, refl, refl, omega arith)

-- `Packet::new` gives twenty bytes with the fields of a blank header, on either target.
pub new-fields :
    (t : Target)
    → (fields (new t) ≡ blank) × (length (new t) ≡ 20) × (drop 20 (new t) ≡ []) × All IsByte (new t)
unfolding new
new-fields t = rw append-nil at (front_blank t.endian [])

same_header : Header.set_type default_header data_ ≡ default_header
unfolding Header.set_type default_header packet_type_to_u8
same_header = refl

-- A packet with a blank header and these bytes behind it.
blank-IsWellFormed :
    (p : Packet) (pl : List ℕ)
    → fields p ≡ blank
    → 20 ≤ length p
    → drop 20 p ≡ pl
    → IsWellFormed p [] pl
unfolding fields extension_type_from_u8
blank-IsWellFormed p pl f l d =
    let v : get_or p 0 0 ≡ 1 = ap (λ h. h.type_ver) f in
    let x : get_or p 1 0 ≡ 0 = ap (λ h. h.extension) f in
    record {
      sized = l;
      version = rw v;
      known_type = rw v (omega arith);
      chain = rw (x, d) (end pl refl);
    }

pub with_payload-bytes :
    (t : Target) (payload : List ℕ)
    → (fields (with_payload t payload) ≡ blank)
      × (length (with_payload t payload) ≡ 20 + length payload)
      × (drop 20 (with_payload t payload) ≡ payload)
      × (All IsByte payload → All IsByte (with_payload t payload))
unfolding with_payload
with_payload-bytes t payload =
    let (f, l, d, b) = front_blank t.endian payload in
    rw same_header (
      f,
      length-append (as_ref t.endian default_header) payload ∙ ap (λ n. n + length payload) l,
      d,
      λ h. All-append IsByte (as_ref t.endian default_header) payload b h,
    )

-- A packet made from a payload of bytes is accepted by the parser, its `payload` is that payload,
-- and it has no extensions, whatever the byte order of the target.
pub with_payload-round_trip :
    (t : Target) (pl : List ℕ)
    → All IsByte pl
    → (try_from (with_payload t pl) ≡ ok (with_payload t pl))
      × (payload {E = ⊥} (with_payload t pl) ≡ ok pl)
      × (collect {E = ⊥} (length (with_payload t pl)) (extensions (with_payload t pl)) ≡ ok [])
with_payload-round_trip t pl h =
    let (f, l, d, b) = with_payload-bytes t pl in
    let w = blank-IsWellFormed (with_payload t pl) pl f (omega arith) d in
    let (a, c) = reads_chain {E = ⊥} (with_payload t pl) [] pl w in
    ((try_from_accepts (with_payload t pl) (b h)).0 [] pl w, a, c)
