-- ===== src/Socket/Arrivals.antt =====
-- src/socket.rs: `recv_packets_from`.
use rfs_utp.Common.{
  ℕ, ◌==◌, List, [], ◌∷◌, ◌++◌, length, take, drop, ok, err, panic, hang, ◌>>=◌, if◌then◌else◌, not,
  ◌&&◌, none, some,
}
use rfs_utp.Error.{kind_invalid_data, kind_broken_pipe, kind_other, parse_error_kind}
use rfs_utp.Packet.Fields
use rfs_utp.Packet.Fields.{Packet}
use rfs_utp.Packet.Extensions.{try_from}
use rfs_utp.Socket.State.{SocketAddr, UtpSocketState, new, World, Datagram}
use rfs_utp.Socket.Handle.{Handled, Run, handle_packet}
use rfs_utp.Socket.Peers.{
  Offer, offer_taken, offer_closed, offer_full, Net, UtpSocket, Outcome, register_peer,
}

-- A datagram read into a buffer, which keeps what it held behind the datagram.
unfoldable pub fill : List ℕ → List ℕ → List ℕ
fill buf datagram = take (length buf) datagram ++ drop (length (take (length buf) datagram)) buf

module _ (n : Net) where
  abbrev w : World
  w = n.world

  -- The loop that empties the incoming buffer: how its last send went, what is left in the buffer,
  -- and what the channel has taken.
  unfoldable pub forward : List Packet → List Packet → Offer × List Packet × List Packet
  forward [] out = (offer_taken, [], out)
  forward (p ∷ ps) out = elim (n.channel (length out) p) [
    | offer_taken ↦ forward ps (out ++ (p ∷ []))
    | offer_closed ↦ (offer_closed, ps, out)
    | offer_full ↦ (offer_full, ps, out)
  ]

  -- The end of `recv_packets_from`: the incoming buffer goes to the channel.
  unfoldable pub finish :
      SocketAddr → UtpSocketState → List Datagram → UtpSocket → Outcome SocketAddr
  finish addr peer sent s =
      let r = forward peer.incoming_buffer [] in
      record {
        answer = elim r.0 [
          | offer_taken ↦ ok addr
          | offer_closed ↦ err kind_other
          | offer_full ↦ hang
        ];
        socket = register_peer addr (record peer { incoming_buffer = r.1 }) s;
        sent = sent;
        delivered = r.2;
      }

  -- The answer to the peer.
  unfoldable pub respond : SocketAddr → Handled → UtpSocket → Outcome SocketAddr
  respond addr h s = elim h.answer [
    | ok (some rsp) ↦
        let sent = h.sent ++ (record { packet = rsp; addr = addr } ∷ []) in
        elim (w.udp_send (length h.sent) rsp addr) [
          | none ↦ finish addr h.peer sent s
          | some e ↦ record {
            answer = err kind_broken_pipe;
            socket = register_peer addr h.peer s;
            sent = sent;
            delivered = [];
          }
        ]
    | _ ↦ finish addr h.peer h.sent s
  ]

  -- The state for an address, a new one where there is none.
  unfoldable pub entry : SocketAddr → Packet → UtpSocket → UtpSocketState
  entry addr packet s = elim (s.peers addr) [
    | some peer ↦ peer
    | none ↦ record (new (Fields.connection_id w.target packet)) { connected_to = some addr }
  ]

  -- The second part of `recv_packets_from`: the whole buffer is parsed, and handled.
  unfoldable pub accept_buffer :
      List ℕ → SocketAddr → UtpSocketState → UtpSocket → Run (Outcome SocketAddr)
  accept_buffer buf addr peer s = elim (try_from buf) [
    | err e ↦ ok (record {
      answer = err (parse_error_kind e);
      socket = register_peer addr peer s;
      sent = [];
      delivered = [];
    })
    | ok packet ↦ (handle_packet w s.id packet peer >>= λ h. ok (respond addr h s))
    | panic ↦ panic
    | hang ↦ hang
  ]

  -- `recv_packets_from`, for the datagram that arrives, with the buffer that it leaves.
  unfoldable pub recv_packets_from :
      List ℕ → SocketAddr → List ℕ → UtpSocket → Run (Outcome SocketAddr × List ℕ)
  recv_packets_from datagram addr buf s =
      let buf' = fill buf datagram in
      elim (try_from (take (length (take (length buf) datagram)) buf')) [
        | err e ↦
            ok (
              record { answer = err kind_invalid_data; socket = s; sent = []; delivered = [] },
              buf',
            )
        | ok packet ↦
            if (s.drop_packets && not (Fields.seq_nr w.target packet == 1)) && n.lost
            then ok (record { answer = ok addr; socket = s; sent = []; delivered = [] }, buf')
            else (accept_buffer buf' addr (entry addr packet s) s >>= λ r. ok (r, buf'))
        | panic ↦ panic
        | hang ↦ hang
      ]
