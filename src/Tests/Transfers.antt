-- ===== src/Tests/Transfers.antt =====
-- A transfer of three packets that arrive out of order.
use rfs_utp.Common.{◌≤◌, ℕ, ◌<◌, ◌≡◌, refl, arith, List, [], ◌∷◌, drop, All, true, inl}
use rfs_utp.Packet.Fields.{Packet}
use rfs_utp.Socket.Transfer.{IsCopy, Transferred, transfer_complete}
use rfs_utp.BTreeMap.{get}
use rfs_utp.Socket.Queueing.{Carries}
use rfs_utp.Socket.Delivery.{carries}
use rfs_utp.Tests.Samples.{
  dev, data_packet, data_packet-get_type, data_packet-seq_nr, data_packet-IsWellFormed, world,
}
use rfs_utp.Tests.Peers.{stream, fresh_peer}

-- The three packets, and the data that they carry.
abbrev three : List (ℕ × Packet)
three = (1, data_packet 1) ∷ (2, data_packet 2) ∷ (3, data_packet 3) ∷ []

abbrev hi_three : List ℕ
hi_three = 104 ∷ 105 ∷ 104 ∷ 105 ∷ 104 ∷ 105 ∷ []

three-Carries : Carries dev 1 three hi_three
three-Carries =
    let (a, b, c) = data_packet-seq_nr in
    let hi = 104 ∷ 105 ∷ [] in
    (
      refl,
      a,
      data_packet-get_type 1,
      (
        hi,
        drop 2 hi_three,
        data_packet-IsWellFormed 1,
        omega arith,
        refl,
        (
          refl,
          b,
          data_packet-get_type 2,
          (
            hi,
            hi,
            data_packet-IsWellFormed 2,
            omega arith,
            refl,
            (
              refl,
              c,
              data_packet-get_type 3,
              (hi, [], data_packet-IsWellFormed 3, omega arith, refl, refl),
            ),
          ),
        ),
      ),
    )

stream-IsCopy : All (IsCopy dev three) stream
unfolding get
stream-IsCopy =
    let (a, b, c) = data_packet-seq_nr in (rw c refl, (rw b refl, (rw b refl, (rw a refl, tt))))

stream_complete : (k : ℕ) → 0 < k → k ≤ 3 → carries dev k stream ≡ true
stream_complete k low high = ground (arith, data_packet-seq_nr)

transfer_complete_example : Transferred world 9 three hi_three stream fresh_peer
transfer_complete_example =
    transfer_complete world 9 three hi_three stream fresh_peer three-Carries (omega arith)
      (omega arith) (inl refl) refl refl (omega arith) (omega arith) stream-IsCopy stream_complete
