-- ===== src/Socket/DataPacket.antt =====
-- src/socket.rs: the packet that `send_packets` makes of a chunk.
use rfs_utp.Common.{
  ℕ, ◌+◌, ◌^◌, ◌<◌, ◌≤◌, ◌≡◌, refl, ap, ◌∙◌, arith, List, [], ◌∷◌, length, length-drop, get_or,
  drop, All, ok,
}
use rfs_utp.Common.Target.{Target}
use rfs_utp.Packet.Types.{data_, packet_type_from_u8, extension_type_from_u8}
use rfs_utp.Packet.Words.{IsByte}
use rfs_utp.Packet.Header
use rfs_utp.Packet.Header.{PacketHeader, cast}
use rfs_utp.Packet.Fields
use rfs_utp.Packet.Fields.{Packet, with_payload}
use rfs_utp.Packet.Wire.{fields, getters_wire}
use rfs_utp.Packet.Setters.{
  Write, connection_id_, seq_nr_, ack_nr_, write, write_all, assign, assign_all, write_all-IsByte,
  setters_refine,
}
use rfs_utp.Packet.Fresh.{with_payload-bytes, blank}
use rfs_utp.Packet.Chain.{end}
use rfs_utp.Packet.Parse.{IsWellFormed}
use rfs_utp.Socket.State.{UtpSocketState}
use rfs_utp.Socket.Peers.{Net, data_packet}

module _ (n : Net) (id : ℕ) (chunk : List ℕ) (peer : UtpSocketState) where
  abbrev t : Target
  t = n.world.target

  abbrev header : PacketHeader
  header = record blank { seq_nr = peer.seq_nr; ack_nr = peer.ack_nr; connection_id = id }

  abbrev writes : List Write
  writes = seq_nr_ peer.seq_nr ∷ ack_nr_ peer.ack_nr ∷ connection_id_ id ∷ []

  as_writes : data_packet n id chunk peer ≡ write_all t (with_payload t chunk) writes
  unfolding data_packet write_all write
  as_writes = refl

  module _ (id_small : id < 2 ^ 16) (seq_small : peer.seq_nr < 2 ^ 16)
      (ack_small : peer.ack_nr < 2 ^ 16) (b : All IsByte chunk) where
    pub packet-IsByte : All IsByte (data_packet n id chunk peer)
    packet-IsByte =
        rw as_writes
          (write_all-IsByte t (with_payload t chunk) writes ((with_payload-bytes t chunk).3 b))

    pub packet_fields :
        (fields (data_packet n id chunk peer) ≡ header)
        × (drop 20 (data_packet n id chunk peer) ≡ chunk)
        × (20 ≤ length (data_packet n id chunk peer))
    unfolding assign assign_all
    packet_fields =
        let (f, l, d, b') = with_payload-bytes t chunk in
        let (f', d', l') =
          setters_refine t writes (with_payload t chunk) (omega arith) (b' b) (omega arith) in
        rw as_writes (f' ∙ ap (λ h. assign_all h writes) f, d' ∙ d, omega arith)

    pub packet-IsWellFormed : IsWellFormed (data_packet n id chunk peer) [] chunk
    unfolding fields extension_type_from_u8
    packet-IsWellFormed =
        let (f, d, l) = packet_fields in
        let v : get_or (data_packet n id chunk peer) 0 0 ≡ 1 = ap (λ h. h.type_ver) f in
        let x : get_or (data_packet n id chunk peer) 1 0 ≡ 0 = ap (λ h. h.extension) f in
        record {
          sized = l;
          version = rw v refl;
          known_type = rw v (omega arith);
          chain = rw (x, d) (end chunk refl);
        }

    pub packet-seq_nr : Fields.seq_nr t (data_packet n id chunk peer) ≡ peer.seq_nr
    packet-seq_nr = (getters_wire t _ packet-IsByte).0 ∙ ap (λ h. h.seq_nr) packet_fields.0

    pub packet-get_type : Fields.get_type {E = ⊥} t (data_packet n id chunk peer) ≡ ok data_
    unfolding Fields.get_type Header.get_type cast packet_type_from_u8 fields
    packet-get_type =
        let v : get_or (data_packet n id chunk peer) 0 0 ≡ 1 =
          ap (λ h. h.type_ver) packet_fields.0 in
        rw v refl

    pub packet-length : length (data_packet n id chunk peer) ≡ 20 + length chunk
    packet-length =
        let (f, d, l) = packet_fields in
        omega (arith, length-drop 20 (data_packet n id chunk peer), ap length d)
