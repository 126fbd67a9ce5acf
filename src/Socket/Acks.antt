-- ===== src/Socket/Acks.antt =====
-- src/socket.rs: selective ACKs: `build_selective_ack` by the receiver of data and
-- `get_lost_seq_nr` by its sender.
use rfs_utp.Common.{
  ℕ, zero, suc, ◌+◌, ◌-◌, ◌*◌, ◌/◌, ◌%◌, ◌^◌, List, [], ◌∷◌, ◌++◌, length, get_or, set, replicate,
  Result, ok, ◌>>=◌, ltb, leb, ◌==◌, if◌then◌else◌, Bool, none, some, bit_or,
}
use rfs_utp.Common.Target.{Target, add_u16}
use rfs_utp.Packet.Types.{is_selective_ack}
use rfs_utp.Packet.Fields.{Packet, ack_nr}
use rfs_utp.Packet.Extensions
use rfs_utp.Packet.Extensions.{Extension, extensions}
use rfs_utp.BitIterator.Defs as Bits
use rfs_utp.BitIterator.Defs.{from_bytes}
use rfs_utp.BTreeMap.{BTreeMap, last_key_value, remove_all}
use rfs_utp.Socket.State.{UtpSocketState}

-- `resize(n, 0)` where the vector is shorter.
abbrev pub grow : List ℕ → ℕ → List ℕ
grow sack n = sack ++ replicate (n - length sack) 0

-- `sack[byte] |= 1 << bit`
unfoldable pub set_bit : List ℕ → ℕ → List ℕ
set_bit sack diff =
    let byte = diff / 8 in
    let bit = diff % 8 in
    let wide = if leb (length sack) byte then grow sack (byte + 1) else sack in
    set wide byte (bit_or (get_or wide byte 0) (2 ^ bit))

-- The loop of `build_selective_ack` over the buffer.
unfoldable pub sack_bits : ℕ → BTreeMap Packet → List ℕ → List ℕ
sack_bits last_acked [] sack = sack
sack_bits last_acked ((seq_nr, packet) ∷ rest) sack =
    sack_bits last_acked rest
      (if ltb last_acked seq_nr then set_bit sack (seq_nr - last_acked - 1) else sack)

-- `while sack.len() % 4 != 0 { sack.push(0) }`: three rounds at most.
unfoldable pub pad : ℕ → List ℕ → List ℕ
pad zero sack = sack
pad (suc f) sack = pad f (if length sack % 4 == 0 then sack else sack ++ (0 ∷ []))

-- `build_selective_ack`
unfoldable pub build_selective_ack : UtpSocketState → List ℕ
build_selective_ack peer = pad 3 (sack_bits peer.last_acked peer.out_of_order [])

-- The sequence numbers that one selective ACK says have arrived, and those it says have not.
pub record Split : Type 0 where
  pub acked : List ℕ
  pub lost : List ℕ

-- The loop over the bits of an extension, below the last key of the send window. The number of a
-- bit is `packet.ack_nr() + 1 + idx as u16`.
unfoldable pub split_bits {ℓ} :
    {E : Type ℓ} → Target → ℕ → ℕ → ℕ → List Bool → Split → Result E Split
split_bits t ack last_seq_nr idx [] s = ok s
split_bits t ack last_seq_nr idx (received ∷ bits) s = add_u16 t ack 1 >>= λ next_nr.
    add_u16 t next_nr (idx % 65536) >>= λ seq_nr. split_bits t ack last_seq_nr (idx + 1) bits (
      if ltb seq_nr last_seq_nr
      then if received
        then record { acked = s.acked ++ (seq_nr ∷ []); lost = s.lost }
        else record { acked = s.acked; lost = s.lost ++ (seq_nr ∷ []) }
      else s)

-- The loop over the extensions.
unfoldable pub split_extensions {ℓ} :
    {E : Type ℓ} → Target → ℕ → BTreeMap Packet → List Extension → Split → Result E Split
split_extensions t ack sent [] s = ok s
split_extensions t ack sent (x ∷ xs) s =
    (if is_selective_ack x.ty
      then elim (last_key_value sent) [
        | none ↦ ok s
        | some (last_seq_nr, _) ↦
            (Bits.collect (suc (length x.bytes * 8)) (from_bytes x.bytes) >>= λ bits.
            split_bits t ack last_seq_nr 0 bits s)
      ]
      else ok s)
    >>= λ s'. split_extensions t ack sent xs s'

-- `get_lost_seq_nr`: the numbers to send again, and the peer without the packets that arrived.
unfoldable pub get_lost_seq_nr {ℓ} :
    {E : Type ℓ} → Target → Packet → UtpSocketState → Result E (List ℕ × UtpSocketState)
get_lost_seq_nr t packet peer = Extensions.collect (length packet) (extensions packet) >>= λ xs.
    split_extensions t (ack_nr t packet) peer.sent_window xs (record { acked = []; lost = [] })
    >>= λ s. ok (s.lost, record peer { sent_window = remove_all s.acked peer.sent_window })
