-- ===== src/Socket/Sending.antt =====
-- src/socket.rs: what `send_packets` puts in the window of a peer.
use rfs_utp.Common.{
  ℕ, ◌+◌, ◌^◌, ◌<◌, ◌≡◌, refl, ap, ◌∙◌, arith, List, [], ◌∷◌, ◌++◌, length, All, ok, none, some,
  ◌≢◌, false,
}
use mathlib.Core.List.{append_assoc, append-nil}
use rfs_utp.Packet.Words.{IsByte}
use rfs_utp.Packet.Fields.{Packet}
use rfs_utp.BTreeMap.{BTreeMap, Below}
use rfs_utp.Socket.State.{UtpSocketState, SocketState, closed, SocketAddr, Datagram}
use rfs_utp.Socket.Peers.{
  Net, UtpSocket, register_peer, send_window, choose_peer, send_to_peer, send_packets, is_closed,
}
use rfs_utp.Socket.Queueing.{Carries, Sizes, Queued, queued, datagrams}

pub send_window_all :
    (n : Net) (addr : SocketAddr) (m : BTreeMap Packet) (sent : List Datagram)
    → ((i : ℕ) (p : Packet) (a : SocketAddr) → n.world.udp_send i p a ≡ none)
    → send_window n addr m sent ≡ (ok tt, sent ++ datagrams addr m)
unfolding send_window
send_window_all n addr [] sent h = rw append-nil refl
send_window_all n addr ((k, p) ∷ m) sent h =
    rw (h (length sent) p addr, send_window)
      (send_window_all n addr m (sent ++ (record { packet = p; addr = addr } ∷ [])) h
        ∙ ap (λ l. (ok tt, l)) (append_assoc sent _ (datagrams addr m)))

pub choose_peer_lem :
    (n : Net) (s : UtpSocket) (addr : SocketAddr) (peer : UtpSocketState)
    → s.peers addr ≡ some peer
    → choose_peer n (some addr) s ≡ some (addr, peer)
unfolding choose_peer
choose_peer_lem n s addr peer known = rw (known, choose_peer) refl

pub not_closed : (s : SocketState) → s ≢ closed → is_closed s ≡ false
not_closed closed h = absurd (h refl)
not_closed _ h = refl

-- What `send_packets` does for a peer: the packets that it puts behind the window, and the run.
pub record Sent (n : Net) (s : UtpSocket) (addr : SocketAddr) (peer : UtpSocketState) (buf : List ℕ)
    : Type 0 where
  pub packets : List (ℕ × Packet)
  pub carries : Carries n.world.target peer.seq_nr packets buf
  pub sizes : Sizes packets (length buf)
  pub bytes : All (λ e. All IsByte e.1) packets
  pub result : send_packets n buf (some addr) s ≡ (
      let window = peer.sent_window ++ packets in
      let peer' = record peer { sent_window = window; seq_nr = peer.seq_nr + length packets } in
      record {
        answer = ok tt;
        socket = register_peer addr peer' s;
        sent = datagrams addr window;
        delivered = [];
      })

pub send_to_open :
    (n : Net) (s : UtpSocket) (addr : SocketAddr) (peer : UtpSocketState) (buf : List ℕ)
    → s.peers addr ≡ some peer
    → peer.state ≢ closed
    → send_packets n buf (some addr) s ≡ send_to_peer n buf addr peer s
unfolding send_packets
send_to_open n s addr peer buf known open_ =
    rw (choose_peer_lem n s addr peer known, send_packets) (rw (not_closed peer.state open_) refl)

send-Queued :
    (n : Net) (s : UtpSocket) (addr : SocketAddr) (peer : UtpSocketState) (buf : List ℕ)
    → ((i : ℕ) (p : Packet) (a : SocketAddr) → n.world.udp_send i p a ≡ none)
    → (q : Queued n s.id (length buf) buf peer)
    → send_to_peer n buf addr peer s ≡ (
        let window = peer.sent_window ++ q.packets in
        let peer' = record peer { sent_window = window; seq_nr = peer.seq_nr + length q.packets } in
        record {
          answer = ok tt;
          socket = register_peer addr peer' s;
          sent = datagrams addr window;
          delivered = [];
        })
unfolding send_to_peer
send-Queued n s addr peer buf taken q =
    rw (q.result, send_window_all n addr (peer.sent_window ++ q.packets) [] taken) refl

-- Sending a buffer of bytes to a known peer that is not closed, by a socket whose datagrams are
-- taken, where the numbers of the window lie below `seq_nr` and the new ones in the u16 range: the
-- window grows by data packets with consecutive numbers from `seq_nr` on, each well formed, each
-- with BUF_SIZE bytes of payload but for the last, which may have fewer, whose payloads one after
-- the other are the buffer; `seq_nr` moves past them; and the whole window, with what was sent
-- before, goes to the peer's address.
pub send_packets_carries :
    (n : Net) (s : UtpSocket) (addr : SocketAddr) (peer : UtpSocketState) (buf : List ℕ)
    → s.peers addr ≡ some peer
    → peer.state ≢ closed
    → s.id < 2 ^ 16
    → peer.ack_nr < 2 ^ 16
    → peer.seq_nr + length buf < 65536
    → Below peer.seq_nr peer.sent_window
    → All IsByte buf
    → ((i : ℕ) (p : Packet) (a : SocketAddr) → n.world.udp_send i p a ≡ none)
    → Sent n s addr peer buf
send_packets_carries n s addr peer buf known open_ id_small ack_small room below b taken =
    let q = queued n s.id id_small (length buf) buf peer (omega arith) b room ack_small below in
    record {
      packets = q.packets;
      carries = q.carries;
      sizes = q.sizes;
      bytes = q.bytes;
      result = send_to_open n s addr peer buf known open_ ∙ send-Queued n s addr peer buf taken q;
    }
