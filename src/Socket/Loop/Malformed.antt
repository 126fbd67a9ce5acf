-- ===== src/Socket/Loop/Malformed.antt =====
-- src/socket.rs: the end of `start_receiving` at a datagram that is no packet.
use rfs_utp.Common.{
  ℕ, ◌≤◌, ◌≡◌, refl, ap, ◌∙◌, List, [], ◌∷◌, length, take, drop, ok, some, All, take_all,
  take-append, gives, fails, panics, hangs, seen,
}
use rfs_utp.Error.{kind_invalid_data}
use rfs_utp.Packet.Words.{IsByte}
use rfs_utp.Packet.Extensions.{Extension, try_from}
use rfs_utp.Packet.Parse.{IsWellFormed, try_from_accepts}
use rfs_utp.Socket.State.{SocketAddr}
use rfs_utp.Socket.Peers.{UtpSocket}
use rfs_utp.Socket.Arrivals.{fill, recv_packets_from}
use rfs_utp.Socket.Receiving.{fill_lem}
use rfs_utp.Socket.Loop.{Round, datagram, recv_round, receive_loop}

-- The part of the buffer that is validated is the datagram.
front_lem :
    (buf d : List ℕ) → length d ≤ length buf → take (length (take (length buf) d)) (fill buf d) ≡ d
front_lem buf d fits =
    rw (take_all (length buf) d fits, fill_lem buf d fits)
      (take-append (length d) d (drop (length d) buf) refl)

-- One datagram that is no packet ends the receive loop for good: where bytes arrive, from any
-- address, that fit the buffer and are not a well formed packet, the loop ends with InvalidData,
-- and what arrives after them is received no more, from whatever peer it comes. Nothing is sent or
-- put in the channel for them, and the peers stay as they are.
pub malformed_ends_loop :
    (r : Round) (rs : List Round) (d : List ℕ) (addr : SocketAddr) (buf : List ℕ) (s : UtpSocket)
    → r.arrival ≡ datagram d addr
    → length d ≤ length buf
    → All IsByte d
    → ((xs : List Extension) (pl : List ℕ) → ¬ IsWellFormed d xs pl)
    → receive_loop (r ∷ rs) buf s
      ≡ ok (record {
        ended = some kind_invalid_data;
        socket = s;
        buf = fill buf d;
        sent = [];
        delivered = [];
      })
unfolding receive_loop recv_round recv_packets_from
malformed_ends_loop r rs d addr buf s e fits b malformed =
    let front = front_lem buf d fits in
    elim (seen (try_from d)) [
      | gives p q ↦
          let (same, (xs, pl, w)) = (try_from_accepts d b).1 p q in absurd (malformed xs pl w)
      | panics q ↦ absurd ((try_from_accepts d b).2.0 q)
      | hangs q ↦ absurd ((try_from_accepts d b).2.1 q)
      | fails x q ↦
          let parsed = ap try_from front ∙ q in
          rw (e, receive_loop) (rw (parsed, recv_packets_from) refl)
    ]
