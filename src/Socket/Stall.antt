-- ===== src/Socket/Stall.antt =====
-- src/socket.rs: the session that goes on after the loss of a packet.
use rfs_utp.Common.{ℕ, ◌+◌, ◌<◌, ◌≤◌, ◌≡◌, List, [], ◌∷◌, ok, leb, if◌then◌else◌}
use rfs_utp.Common.Target.{Target}
use rfs_utp.Packet.Fields
use rfs_utp.Packet.Fields.{Packet}
use rfs_utp.Socket.State.{World, UtpSocketState}
use rfs_utp.Socket.Handle.{Run}
use rfs_utp.Socket.Delivery.{IsData}
use rfs_utp.Socket.Session.{session}

-- No condition on a packet.
abbrev pub Any : Packet → Type 0
Any p = Unit {0}

-- Data packets of which none leaves a gap behind the number `k` and the packets before it.
abbrev pub NoneAhead : Target → ℕ → List Packet → Type 0
NoneAhead t k [] = Unit {0}
NoneAhead t k (d ∷ ds) =
    IsData t d
    × (Fields.seq_nr t d ≤ k + 1)
    × NoneAhead t (if leb (Fields.seq_nr t d) k then k else Fields.seq_nr t d) ds

-- The selective ACK of what `receive` gives.
abbrev sack_of : Run (UtpSocketState × List ℕ) → List ℕ
sack_of (ok (peer, sack)) = sack
sack_of _ = []

-- A session that leaves the sender behind the receiver, as it was.
pub record Stalled (w : World) (id : ℕ) (ws : World) (ids : ℕ) (ds : List Packet)
    (receiver sender : UtpSocketState) : Type 0 where
  pub receiver' : UtpSocketState
  pub result : session w id ws ids ds receiver sender ≡ ok (receiver', sender)
  pub behind : sender.last_acked + 1 < receiver'.last_acked
