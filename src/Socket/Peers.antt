-- ===== src/Socket/Peers.antt =====
-- src/socket.rs: the socket with its map of peers: `connect` and
-- `send_packets`. The lock on a peer is held for the whole of an operation, so the state in
-- the map is the state that the operation leaves.
use rfs_utp.Common.{
  ℕ, zero, suc, ◌+◌, ◌%◌, List, [], ◌∷◌, ◌++◌, length, take, drop, Result, ok, err, panic, ◌&&◌,
  if◌then◌else◌, Bool, true, false, Option, none, some,
}
use rfs_utp.Error.{
  ErrorKind, kind_already_exists, kind_not_found, kind_network_unreachable, socket_error_kind,
  connection_closed,
}
use rfs_utp.Util.{generate_u16_from_uuid_v4}
use rfs_utp.Packet.Types.{syn}
use rfs_utp.Packet.Fields
use rfs_utp.Packet.Fields.{Packet}
use rfs_utp.BTreeMap
use rfs_utp.BTreeMap.{BTreeMap}
use rfs_utp.Socket.State.{
  SocketState, syn_sent, closed, SocketAddr, SocketAddr-discrete, UtpSocketState, new, World,
  Datagram, buf_size,
}

-- A concurrent map of peers, by what it holds at each address.
abbrev pub Peers : Type 0
Peers = SocketAddr → Option UtpSocketState

-- The map with one entry written.
unfoldable pub put : SocketAddr → UtpSocketState → Peers → Peers
put addr peer m a = elim (SocketAddr-discrete a addr) [ yes e ↦ some peer | no n ↦ m a ]

pub record UtpSocket : Type 0 where
  pub peers : Peers
  pub id : ℕ  -- u16
  pub drop_packets : Bool  -- `drop`
  pub client : Bool

-- How a `send` on the bounded channel goes: the packet is taken, at once or once there is room; the
-- receiver is gone; or the channel is full and no packet is read from it any more, so that the send
-- waits without an end.
pub data Offer : Type 0 where
  offer_taken offer_closed offer_full : Offer

-- What an operation meets outside the crate: the world of the handlers; the answers of the UDP
-- socket to `connect` and `send`; the peer that an iteration over the map meets first; whether the
-- simulated loss strikes; and how the send of a packet on the channel goes, after as many others.
pub record Net : Type 0 where
  pub world : World
  pub udp_connect : SocketAddr → Option ErrorKind
  pub udp_send_connected : Packet → Option ErrorKind
  pub first_peer : Peers → Option SocketAddr
  pub lost : Bool
  pub channel : ℕ → Packet → Offer

-- What an operation answers, which is `hang` while it waits for a channel that stays full; the
-- socket it leaves, the datagrams it sent, and the packets it put in the channel of the stream.
pub record Outcome (A : Type 0) : Type 0 where
  pub answer : Result ErrorKind A
  pub socket : UtpSocket
  pub sent : List Datagram
  pub delivered : List Packet

-- `UtpSocket::bind`, by whether the UDP socket is bound and a channel is given, and from the bytes
-- of the random UUID: a socket without peers.
unfoldable pub bind : Bool → Bool → List ℕ → Bool → Bool → Result ⊥ UtpSocket
bind bound sender uuid drop_packets client =
    if bound && sender
    then ok (record {
      peers = λ a. none;
      id = generate_u16_from_uuid_v4 uuid;
      drop_packets = drop_packets;
      client = client;
    })
    else panic

-- `state == SocketState::Closed`
abbrev pub is_closed : SocketState → Bool
is_closed closed = true
is_closed _ = false

-- `register_peer`
unfoldable pub register_peer : SocketAddr → UtpSocketState → UtpSocket → UtpSocket
register_peer addr peer s = record s { peers = put addr peer s.peers }

-- `get_peer`
unfoldable pub get_peer : SocketAddr → UtpSocket → Option UtpSocketState
get_peer addr s = s.peers addr

-- `buf.chunks(BUF_SIZE)`: a chunk is not empty, so `length buf` rounds are enough.
unfoldable pub chunks : ℕ → List ℕ → List (List ℕ)
chunks f [] = []
chunks zero (b ∷ buf) = []
chunks (suc f) (b ∷ buf) = take buf_size (b ∷ buf) ∷ chunks f (drop buf_size (b ∷ buf))

module _ (n : Net) where
  abbrev w : World
  w = n.world

  -- The Syn of `connect`.
  unfoldable pub syn_packet : ℕ → ℕ → Packet
  syn_packet id seq_nr =
      let t = w.target in
      Fields.set_seq_nr t (Fields.set_connection_id t (Fields.set_type t (Fields.new t) syn) id)
        seq_nr

  -- `connect`, where the random identifier is `id`.
  unfoldable pub connect : ℕ → SocketAddr → UtpSocket → Outcome (Unit {0})
  connect id addr s = elim (s.peers addr) [
    | some _ ↦ record { answer = err kind_already_exists; socket = s; sent = []; delivered = [] }
    | none ↦
        let fresh = new id in
        let packet = syn_packet s.id fresh.seq_nr in
        let peer = record fresh {
          state = syn_sent;
          connected_to = some addr;
          sent_window = BTreeMap.insert (Fields.seq_nr w.target packet) packet fresh.sent_window;
        } in
        let s' = register_peer addr peer s in
        elim (n.udp_connect addr) [
          | some e ↦ record { answer = err e; socket = s'; sent = []; delivered = [] }
          | none ↦
              let sent = record { packet = packet; addr = addr } ∷ [] in
              elim (n.udp_send_connected packet) [
                | some e ↦ record { answer = err e; socket = s'; sent = sent; delivered = [] }
                | none ↦ record { answer = ok tt; socket = s'; sent = sent; delivered = [] }
              ]
        ]
  ]

  -- The packet of a chunk.
  unfoldable pub data_packet : ℕ → List ℕ → UtpSocketState → Packet
  data_packet id chunk peer =
      let t = w.target in
      Fields.set_connection_id t
        (Fields.set_ack_nr t (Fields.set_seq_nr t (Fields.with_payload t chunk) peer.seq_nr)
          peer.ack_nr)
        id

  -- The loop over the chunks.
  unfoldable pub queue_chunks : ℕ → List (List ℕ) → UtpSocketState → UtpSocketState
  queue_chunks id [] peer = peer
  queue_chunks id (chunk ∷ rest) peer =
      let packet = data_packet id chunk peer in
      queue_chunks id rest (record peer {
        sent_window = BTreeMap.insert (Fields.seq_nr w.target packet) packet peer.sent_window;
        seq_nr = (peer.seq_nr + 1) % 65536;
      })

  -- The loop over the window, after the datagrams `sent`.
  unfoldable pub send_window :
      SocketAddr → BTreeMap Packet → List Datagram → Result ErrorKind (Unit {0}) × List Datagram
  send_window addr [] sent = (ok tt, sent)
  send_window addr ((k, p) ∷ rest) sent =
      let sent' = sent ++ (record { packet = p; addr = addr } ∷ []) in
      elim (w.udp_send (length sent) p addr) [
        | none ↦ send_window addr rest sent'
        | some e ↦ (err kind_network_unreachable, sent')
      ]

  -- The peer of `send_packets`.
  unfoldable pub choose_peer : Option SocketAddr → UtpSocket → Option (SocketAddr × UtpSocketState)
  choose_peer addr s =
      let chosen : Option SocketAddr = elim addr [
        | some a ↦ some a
        | none ↦ n.first_peer s.peers
      ] in
      elim chosen [
        | none ↦ none
        | some a ↦ elim (s.peers a) [ none ↦ none | some peer ↦ some (a, peer) ]
      ]

  -- The part of `send_packets` behind the test of the state.
  unfoldable pub send_to_peer :
      List ℕ → SocketAddr → UtpSocketState → UtpSocket → Outcome (Unit {0})
  send_to_peer buf a peer s =
      let peer' = queue_chunks s.id (chunks (length buf) buf) peer in
      let r = send_window a peer'.sent_window [] in
      record { answer = r.0; socket = register_peer a peer' s; sent = r.1; delivered = [] }

  -- `send_packets`
  unfoldable pub send_packets : List ℕ → Option SocketAddr → UtpSocket → Outcome (Unit {0})
  send_packets buf addr s = elim (choose_peer addr s) [
    | none ↦ record { answer = err kind_not_found; socket = s; sent = []; delivered = [] }
    | some (a, peer) ↦
        if is_closed peer.state
        then record {
          answer = err (socket_error_kind connection_closed);
          socket = s;
          sent = [];
          delivered = [];
        }
        else send_to_peer buf a peer s
  ]
