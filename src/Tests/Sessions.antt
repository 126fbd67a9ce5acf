-- ===== src/Tests/Sessions.antt =====
-- A session without loss, and one after a loss.
use rfs_utp.Common.{◌≤◌, refl, arith, [], ◌∷◌, length, inl}
use rfs_utp.Socket.State.{UtpSocketState}
use rfs_utp.Socket.Handle.{map_snd}
use rfs_utp.Socket.Queueing.{Sizes-length}
use rfs_utp.Socket.Session.{Emptied, session_empties}
use rfs_utp.Tests.Samples.{data_packet, peer_with, world}
use rfs_utp.Tests.Loops.{sent_twelve, twelve}

-- A sender with two chunks in its window.
abbrev writer : UtpSocketState
writer = peer_with sent_twelve.packets

session_empties_example :
    Emptied world 9 world 7 (map_snd sent_twelve.packets) (peer_with []) writer
session_empties_example =
    session_empties world 9 world 7 (omega arith) (omega arith) sent_twelve.packets twelve
      (peer_with []) writer sent_twelve.carries refl refl (inl refl) (inl refl) refl
      (omega (arith, few)) (omega (arith, few))
  where
    few : length sent_twelve.packets ≤ 12
    few = Sizes-length sent_twelve.packets 12 sent_twelve.sizes

-- A receiver that has the second packet and misses the first.
abbrev gapped : UtpSocketState
gapped = record (peer_with []) { out_of_order = (2, data_packet 2) ∷ [] }
