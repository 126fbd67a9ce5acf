-- ===== src/Packet/Setters.antt =====
-- src/packet.rs: the setters of a packet against a record of fields.
use rfs_utp.Common.{
  ℕ, ◌+◌, ◌*◌, ◌/◌, ◌%◌, ◌^◌, ◌<◌, ◌≤◌, ◌≡◌, refl, ap, ◌∙◌, arith, List, [], ◌∷◌, length, get_or,
  set, drop, All,
}
use rfs_utp.Common.{All-set}
use rfs_utp.Common.Target.{Target, Endian, little, big}
use rfs_utp.Common.Bits.{low_nibble, shift_or}
use rfs_utp.Common.Int.{pos}
use rfs_utp.Time.{Delay, delay_to_u32}
use rfs_utp.Packet.Types.{PacketType, packet_type_to_u8}
use rfs_utp.Packet.Words.{
  IsByte, store-swap_u16, store-swap_u32, write_bytes, store_u16, store_u32, get_or-IsByte,
}
use rfs_utp.Packet.Header
use rfs_utp.Packet.Header.{PacketHeader, header_size, cast}
use rfs_utp.Packet.Wire.{fields}
use rfs_utp.Common.{bit_and, bit_or}
use rfs_utp.Common.Int.{negsuc, as_unsigned}
use rfs_utp.Packet.Types.{packet_type_to_u8-lt}
use rfs_utp.Packet.Fields.{
  Packet, set_type, set_timestamp, set_timestamp_difference, set_seq_nr, set_ack_nr,
  set_connection_id, set_wnd_size,
}
use rfs_utp.Packet.Spread.{Agrees, two_bytes, spread_four, join_two, join_four}

-- One call of a setter.
pub data Write : Type 0 where
  type_ : PacketType → Write
  seq_nr_ : ℕ → Write
  ack_nr_ : ℕ → Write
  connection_id_ : ℕ → Write
  wnd_size_ : ℕ → Write
  timestamp_ : ℕ → Write
  timestamp_difference_ : Delay → Write

-- The values that the setters' argument types hold.
abbrev pub InRange : Write → Type 0
InRange (type_ ty) = Unit {0}
InRange (seq_nr_ v) = v < 2 ^ 16
InRange (ack_nr_ v) = v < 2 ^ 16
InRange (connection_id_ v) = v < 2 ^ 16
InRange (wnd_size_ v) = v < 2 ^ 32
InRange (timestamp_ v) = v < 2 ^ 32
InRange (timestamp_difference_ d) = Unit {0}

-- The setter that a write stands for.
unfoldable pub write : Target → Packet → Write → Packet
write t p (type_ ty) = set_type t p ty
write t p (seq_nr_ v) = set_seq_nr t p v
write t p (ack_nr_ v) = set_ack_nr t p v
write t p (connection_id_ v) = set_connection_id t p v
write t p (wnd_size_ v) = set_wnd_size t p v
write t p (timestamp_ v) = set_timestamp t p v
write t p (timestamp_difference_ d) = set_timestamp_difference t p d

-- The same as a change of one field of a record.
unfoldable pub assign : PacketHeader → Write → PacketHeader
assign h (type_ ty) = record h { type_ver = packet_type_to_u8 ty * 16 + h.type_ver % 16 }
assign h (seq_nr_ v) = record h { seq_nr = v }
assign h (ack_nr_ v) = record h { ack_nr = v }
assign h (connection_id_ v) = record h { connection_id = v }
assign h (wnd_size_ v) = record h { wnd_size = v }
assign h (timestamp_ v) = record h { timestamp = v }
assign h (timestamp_difference_ d) = record h { timestamp_difference = delay_to_u32 d }

as_unsigned-lt : (d : Delay) → delay_to_u32 d < 2 ^ 32
unfolding delay_to_u32 as_unsigned
as_unsigned-lt (pos n) = omega arith
as_unsigned-lt (negsuc n) = omega arith

-- The byte that `set_type` writes.
type_byte :
    (ty : PacketType) (x : ℕ)
    → x < 256
    → bit_or (packet_type_to_u8 ty * 16 % 256) (bit_and 15 x) ≡ packet_type_to_u8 ty * 16 + x % 16
type_byte ty x h =
    ground
      (arith, low_nibble x, packet_type_to_u8-lt ty, shift_or 4 (packet_type_to_u8 ty) (x % 16))

-- A setter changes its own field and no other, keeps the rest of the packet and its length, and
-- does so whatever the byte order of the target.
pub write_step :
    (t : Target) (p : Packet) (w : Write)
    → 20 ≤ length p
    → All IsByte p
    → InRange w
    → Agrees p (write t p w) (assign (fields p) w)
unfolding write assign
write_step t p (type_ ty) h b r =
    unfold set_type Header.set_type cast fields in
    rw (type_byte ty (get_or p 0 0) (get_or-IsByte p 0 b))
      (two_bytes p (packet_type_to_u8 ty * 16 + get_or p 0 0 % 16) 0 h).3
write_step t p (seq_nr_ v) h b r =
    unfold set_seq_nr in
    rw (store-swap_u16 t.endian v r) (rw (join_two v) at (two_bytes p (v / 256) (v % 256) h).0)
write_step t p (ack_nr_ v) h b r =
    unfold set_ack_nr in
    rw (store-swap_u16 t.endian v r) (rw (join_two v) at (two_bytes p (v / 256) (v % 256) h).1)
write_step t p (connection_id_ v) h b r =
    unfold set_connection_id in
    rw (store-swap_u16 t.endian v r) (rw (join_two v) at (two_bytes p (v / 256) (v % 256) h).2)
write_step t p (wnd_size_ v) h b r =
    unfold set_wnd_size in
    rw (store-swap_u32 t.endian v r) (rw (join_four v) at (spread_four p v h).0)
write_step t p (timestamp_ v) h b r =
    unfold set_timestamp in
    rw (store-swap_u32 t.endian v r) (rw (join_four v) at (spread_four p v h).1)
write_step t p (timestamp_difference_ d) h b r =
    unfold set_timestamp_difference in
    rw (store-swap_u32 t.endian (delay_to_u32 d) (as_unsigned-lt d))
      (rw (join_four (delay_to_u32 d)) at (spread_four p (delay_to_u32 d) h).2)

write_bytes-IsByte :
    (p : Packet) (i : ℕ) (bs : List ℕ)
    → All IsByte p
    → All IsByte bs
    → All IsByte (write_bytes p i bs)
unfolding write_bytes
write_bytes-IsByte p i [] h k = h
write_bytes-IsByte p i (x ∷ bs) h k =
    write_bytes-IsByte (set p i x) (i + 1) bs (All-set IsByte p i x h k.0) k.1

store_u16-IsByte : (e : Endian) (v : ℕ) → All IsByte (store_u16 e v)
unfolding store_u16
store_u16-IsByte little v = omega arith
store_u16-IsByte big v = omega arith

store_u32-IsByte : (e : Endian) (v : ℕ) → All IsByte (store_u32 e v)
unfolding store_u32
store_u32-IsByte little v = omega arith
store_u32-IsByte big v = omega arith

-- A setter leaves bytes.
pub write-IsByte : (t : Target) (p : Packet) (w : Write) → All IsByte p → All IsByte (write t p w)
unfolding write set_seq_nr set_ack_nr set_connection_id set_wnd_size set_timestamp
    set_timestamp_difference
write-IsByte t p (type_ ty) h =
    unfold set_type Header.set_type cast in
    All-set IsByte p 0 _ h (
      rw (type_byte ty (get_or p 0 0) (get_or-IsByte p 0 h))
        (omega (arith, packet_type_to_u8-lt ty)))
write-IsByte t p (seq_nr_ v) h = write_bytes-IsByte p 16 _ h (store_u16-IsByte t.endian _)
write-IsByte t p (ack_nr_ v) h = write_bytes-IsByte p 18 _ h (store_u16-IsByte t.endian _)
write-IsByte t p (connection_id_ v) h = write_bytes-IsByte p 2 _ h (store_u16-IsByte t.endian _)
write-IsByte t p (wnd_size_ v) h = write_bytes-IsByte p 12 _ h (store_u32-IsByte t.endian _)
write-IsByte t p (timestamp_ v) h = write_bytes-IsByte p 4 _ h (store_u32-IsByte t.endian _)
write-IsByte t p (timestamp_difference_ d) h =
    write_bytes-IsByte p 8 _ h (store_u32-IsByte t.endian _)

-- A sequence of calls of setters, on the packet and on the record.
unfoldable pub write_all : Target → Packet → List Write → Packet
write_all t p [] = p
write_all t p (w ∷ ws) = write_all t (write t p w) ws

unfoldable pub assign_all : PacketHeader → List Write → PacketHeader
assign_all h [] = h
assign_all h (w ∷ ws) = assign_all (assign h w) ws

pub write_all-IsByte :
    (t : Target) (p : Packet) (ws : List Write) → All IsByte p → All IsByte (write_all t p ws)
unfolding write_all
write_all-IsByte t p [] h = h
write_all-IsByte t p (w ∷ ws) h = write_all-IsByte t (write t p w) ws (write-IsByte t p w h)

-- A packet refines a record of fields: after any sequence of calls of its setters, with values of
-- the setters' types, on a packet of at least twenty bytes, the fields on the wire are those of
-- the record after the same assignments, whatever the byte order of the target. The rest of the
-- packet and its length stay.
pub setters_refine :
    (t : Target) (ws : List Write) (p : Packet)
    → 20 ≤ length p
    → All IsByte p
    → All InRange ws
    → (fields (write_all t p ws) ≡ assign_all (fields p) ws)
      × (drop 20 (write_all t p ws) ≡ drop 20 p)
      × (length (write_all t p ws) ≡ length p)
unfolding write_all assign_all
setters_refine t [] p h b r = (refl, refl, refl)
setters_refine t (w ∷ ws) p h b r =
    let (e, d, l) = write_step t p w h b r.0 in
    let (e', d', l') = setters_refine t ws (write t p w) (omega arith) (write-IsByte t p w b) r.1 in
    (e' ∙ ap (λ f. assign_all f ws) e, d' ∙ d, l' ∙ l)
