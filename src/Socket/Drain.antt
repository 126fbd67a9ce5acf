-- ===== src/Socket/Drain.antt =====
-- src/socket.rs: the packets of the out-of-order buffer that continue a run.
use rfs_utp.Common.{
  ℕ, ◌+◌, ◌<◌, ◌≡◌, refl, ap, arith, List, [], ◌∷◌, ◌++◌, length, ok, ltb, leb, ◌||◌, ◌&&◌,
}
use native.Mathlib.Decide.{ℕ_discrete}
use rfs_utp.Common.Target.{add_u16_ok}
use rfs_utp.Packet.Fields.{Packet}
use rfs_utp.BTreeMap.{BTreeMap, get, remove, remove_all, Above, Below, IsSorted}
use rfs_utp.BTreeMap.Laws.{Above-trans}
use rfs_utp.Socket.State.{World}
use rfs_utp.Socket.Handle.{drain, map_fst}
use rfs_utp.Socket.SackBits.{has}

-- Keys one after the other from `a` on.
abbrev pub Consecutive : ℕ → List (ℕ × Packet) → Type 0
Consecutive a [] = Unit {0}
Consecutive a ((j, p) ∷ r) = (j ≡ a) × Consecutive (a + 1) r

-- The answer of `drain` after the number `last`.
pub record Drained (w : World) (id last : ℕ) (m : BTreeMap Packet) : Type 0 where
  pub run : List (ℕ × Packet)
  pub rest : BTreeMap Packet
  pub result : drain w id last m ≡ ok (run, last + length run)
  pub split : m ≡ run ++ rest
  pub consecutive : Consecutive (last + 1) run
  pub ahead : Above (last + length run + 1) rest
  pub sorted : IsSorted rest
  pub below : Below 65535 rest
  pub bounded : last + length run < 65535

module _ (w : World) (id : ℕ) where
  -- On a sorted buffer above `last` the loop takes the longest run that continues it.
  pub drained :
      (last : ℕ) (m : BTreeMap Packet)
      → last < 65535
      → IsSorted m
      → Above last m
      → Below 65535 m
      → Drained w id last m
  unfolding drain
  drained last [] l s a b = record {
    run = [];
    rest = [];
    result = ground arith;
    split = refl;
    consecutive = tt;
    ahead = tt;
    sorted = tt;
    below = tt;
    bounded = omega arith;
  }
  drained last ((j, p) ∷ m) l s a b = elim (ℕ_discrete j (last + 1)) [
    | yes e ↦
        let d = drained j m b.0 s.1 s.0 b.1 in
        record {
          run = (j, p) ∷ d.run;
          rest = d.rest;
          result = ground (arith, add_u16_ok {E = ⊥} w.target last 1, d.result);
          split = ap (◌∷◌ (j, p)) d.split;
          consecutive = (e, rw e at d.consecutive);
          ahead = Above-trans _ _ d.rest (omega arith) d.ahead;
          sorted = d.sorted;
          below = d.below;
          bounded = omega (arith, d.bounded);
        }
    | no n ↦ record {
      run = [];
      rest = (j, p) ∷ m;
      result = ground (arith, add_u16_ok {E = ⊥} w.target last 1);
      split = refl;
      consecutive = tt;
      ahead = (ground arith, Above-trans _ _ m (ground arith) s.0);
      sorted = s;
      below = b;
      bounded = omega arith;
    }
  ]

-- The removals leave what the loop did not take.
pub remove_all-run :
    (run : List (ℕ × Packet)) (rest : BTreeMap Packet)
    → remove_all (map_fst run) (run ++ rest) ≡ rest
unfolding remove_all remove
remove_all-run [] rest = refl
remove_all-run ((j, p) ∷ run) rest = ground (arith, remove_all-run run rest)

-- A run has the keys that it counts through.
pub has-run :
    (a k : ℕ) (run : List (ℕ × Packet)) (rest : BTreeMap Packet)
    → Consecutive a run
    → has k (run ++ rest) ≡ ((leb a k && ltb k (a + length run)) || has k rest)
unfolding get
has-run a k [] rest c = ground arith
has-run a k ((j, p) ∷ run) rest c = ground (arith, has-run (a + 1) k run rest c.1)
