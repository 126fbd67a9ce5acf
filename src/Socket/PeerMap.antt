-- ===== src/Socket/PeerMap.antt =====
-- src/socket.rs: the laws of the map of peers.
use rfs_utp.Common.{◌≡◌, refl, Option, some, ◌⊎◌, inl, inr}
use rfs_utp.Socket.State.{SocketAddr, SocketAddr-discrete, UtpSocketState}
use rfs_utp.Socket.Peers.{Peers, put}

module _ (addr : SocketAddr) (peer : UtpSocketState) (m : Peers) where
  -- The peer that is written is the peer that is found.
  pub put-same : put addr peer m addr ≡ some peer
  unfolding put
  put-same =
      elim (SocketAddr-discrete addr addr)
        as (λ x.
          (elim x as (λ _. Option UtpSocketState) [ yes e ↦ some peer | no n ↦ m addr ])
          ≡ some peer) [ yes e ↦ refl | no n ↦ absurd (n refl) ]

  -- A peer that is found is the one that was written, or stood there before.
  pub put-found :
      (a : SocketAddr) (found : UtpSocketState)
      → put addr peer m a ≡ some found
      → ((a ≡ addr) × (peer ≡ found)) ⊎ (m a ≡ some found)
  unfolding put
  put-found a found =
      elim (SocketAddr-discrete a addr)
        as (λ x.
          (elim x as (λ _. Option UtpSocketState) [ yes e ↦ some peer | no n ↦ m a ]) ≡ some found
          → ((a ≡ addr) × (peer ≡ found)) ⊎ (m a ≡ some found)) [
            | yes e ↦ (λ h. inl (e, cc))
            | no n ↦ (λ h. inr h)
          ]
