-- ===== src/Packet/LongSack.antt =====
-- src/packet.rs: `set_sack` with more bytes than the length byte can say.
use rfs_utp.Common.{ℕ, ◌%◌, ◌≤◌, ◌≡◌, List, [], ◌∷◌, ◌++◌, length, set, take, All}
use rfs_utp.Packet.Words.{IsByte}
use rfs_utp.Packet.Fields.{Packet}
use rfs_utp.Packet.Chain.{Chain}
use rfs_utp.Packet.Parse.{IsWellFormed}

module _ (p : Packet) (pl bv : List ℕ) (f : IsWellFormed p [] pl) (bp : All IsByte p)
    (bb : All IsByte bv) (long : 256 ≤ length bv) (mul : length bv % 256 ≡ 0) where
  abbrev front : List ℕ
  front = take 20 (set p 1 1)

  abbrev written : Packet
  written = front ++ (0 ∷ length bv % 256 ∷ (bv ++ pl))
