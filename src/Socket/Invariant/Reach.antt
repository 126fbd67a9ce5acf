-- ===== src/Socket/Invariant/Reach.antt =====
-- src/socket.rs: the sockets that the operations of a socket lead to.
use rfs_utp.Common.{ℕ, ◌<◌, ◌≡◌, arith, List, ok, Bool, true, Option, none, some, All}
use mathlib.Core.Path.{subst}
use rfs_utp.Common.Target.{Target, u16_mod}
use rfs_utp.Packet.Words.{IsByte, get_or-IsByte}
use rfs_utp.Util.{generate_u16_from_uuid_v4}
use rfs_utp.Socket.State.{SocketAddr, UtpSocketState}
use rfs_utp.Socket.OnOk.{OnOk-eq}
use rfs_utp.Socket.Peers.{Net, UtpSocket, Outcome, bind, connect, send_packets}
use rfs_utp.Socket.Arrivals.{recv_packets_from}
use rfs_utp.Socket.Invariant.Defs.{IsValid, IsSound}
use rfs_utp.Socket.Invariant.Incoming.{recv_packets_from-IsSound}
use rfs_utp.Socket.Invariant.Outgoing.{connect-IsSound, send_packets-IsSound}

-- One operation of a socket on this target: whatever the caller, the random numbers, the clock and
-- the network choose.
pub data Step (t : Target) : UtpSocket → UtpSocket → Type 0 where
  connects :
      (n : Net) (id : ℕ) (addr : SocketAddr) (s : UtpSocket)
      → n.world.target ≡ t
      → id < u16_mod
      → Step t s (connect n id addr s).socket
  sends :
      (n : Net) (buf : List ℕ) (addr : Option SocketAddr) (s : UtpSocket)
      → n.world.target ≡ t
      → All IsByte buf
      → Step t s (send_packets n buf addr s).socket
  receives :
      (n : Net) (datagram : List ℕ) (addr : SocketAddr) (buf : List ℕ) (s : UtpSocket)
      (o : Outcome SocketAddr) (buf' : List ℕ)
      → n.world.target ≡ t
      → All IsByte datagram
      → All IsByte buf
      → recv_packets_from n datagram addr buf s ≡ ok (o, buf')
      → Step t s o.socket

-- The sockets that operations lead to, from a socket that is bound.
pub data Reach (t : Target) : UtpSocket → Type 0 where
  bound :
      (uuid : List ℕ) (drop_packets client : Bool) (s : UtpSocket)
      → All IsByte uuid
      → bind true true uuid drop_packets client ≡ ok s
      → Reach t s
  later : {s u : UtpSocket} → Reach t s → Step t s u → Reach t u

bind-IsSound :
    (t : Target) (uuid : List ℕ) (drop_packets client : Bool) (s : UtpSocket)
    → All IsByte uuid
    → bind true true uuid drop_packets client ≡ ok s
    → IsSound t s
unfolding bind generate_u16_from_uuid_v4
bind-IsSound t uuid drop_packets client s b e =
    let nobody : (a : SocketAddr) → s.peers a ≡ none = λ a. ground (arith, e) in
    record {
      peers = λ a p q. cc (nobody a, q);
      id_small = ground (arith, e, get_or-IsByte uuid 0 b, get_or-IsByte uuid 1 b);
    }

Step-IsSound : {t : Target} {s u : UtpSocket} → Step t s u → IsSound t s → IsSound t u
Step-IsSound (connects n id addr s e small) h =
    subst (λ x. IsSound x s → IsSound x (connect n id addr s).socket) e
      (connect-IsSound n id addr s small) h
Step-IsSound (sends n buf addr s e b) h =
    subst (λ x. IsSound x s → IsSound x (send_packets n buf addr s).socket) e
      (send_packets-IsSound n buf addr s b) h
Step-IsSound (receives n d addr buf s o buf' e bd bb r) h =
    subst (λ x. IsSound x s → IsSound x o.socket) e
      (λ h'.
        OnOk-eq (λ q. IsSound n.world.target q.0.socket) (recv_packets_from n d addr buf s)
          (o, buf') (recv_packets_from-IsSound n d addr buf s bd bb h') r)
      h

pub Reach-IsSound : {t : Target} {s : UtpSocket} → Reach t s → IsSound t s
Reach-IsSound {t} (bound uuid drop_packets client s b e) =
    bind-IsSound t uuid drop_packets client s b e
Reach-IsSound (later r st) = Step-IsSound st (Reach-IsSound r)

-- Whatever a socket has done since it was bound, by connecting, sending buffers of bytes and
-- receiving datagrams of bytes, each with any outcome, and however the clock, the network and the
-- channel behave: all its peers are valid. The numbers of a peer are u16 values; its window and its
-- out-of-order buffer are sorted by number, with each packet under its own number; the window holds
-- well formed packets, and the two buffers of received packets hold well formed data packets only;
-- and it knows the address under which it stands.
pub reached_peers-IsValid :
    (t : Target) (s : UtpSocket) (addr : SocketAddr) (peer : UtpSocketState)
    → Reach t s
    → s.peers addr ≡ some peer
    → IsValid t addr peer
reached_peers-IsValid t s addr peer r e = (Reach-IsSound r).peers addr peer e
