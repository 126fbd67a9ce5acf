-- ===== src/BTreeMap/Laws.antt =====
-- The laws of the map that stands for std::collections::BTreeMap in src/socket.rs.
use rfs_utp.Common.{ℕ, ◌<◌, ◌≤◌, ◌≡◌, refl, arith, List, [], ◌∷◌, none, some, ◌==◌, if◌then◌else◌}
use rfs_utp.BTreeMap.{BTreeMap, get, insert, remove, remove_all, Above, Below, IsSorted}

module _ {V : Type 0} where
  pub Above-trans : (j k : ℕ) (m : BTreeMap V) → j ≤ k → Above k m → Above j m
  Above-trans j k [] h a = tt
  Above-trans j k ((i, w) ∷ m) h a = (omega arith, Above-trans j k m h a.1)

  pub get-Above : (k : ℕ) (m : BTreeMap V) → Above k m → get k m ≡ none
  unfolding get
  get-Above k [] a = refl
  get-Above k ((j, w) ∷ m) a = ground (arith, get-Above k m a.1)

  pub get-insert :
      (k j : ℕ) (v : V) (m : BTreeMap V)
      → get j (insert k v m) ≡ (if k == j then some v else get j m)
  unfolding get insert
  get-insert k j v [] = refl
  get-insert k j v ((i, w) ∷ m) = ground (arith, get-insert k j v m)

  pub get-remove :
      (k j : ℕ) (m : BTreeMap V)
      → IsSorted m
      → get j (remove k m) ≡ (if k == j then none else get j m)
  unfolding get remove
  get-remove k j [] s = ground arith
  get-remove k j ((i, w) ∷ m) s = ground (arith, get-remove k j m s.1, get-Above i m s.0)

  pub insert-Above : (j k : ℕ) (v : V) (m : BTreeMap V) → j < k → Above j m → Above j (insert k v m)
  unfolding insert
  insert-Above j k v [] h a = (h, tt)
  insert-Above j k v ((i, w) ∷ m) h a = ground (arith, insert-Above j k v m h a.1)

  pub remove-Above : (j k : ℕ) (m : BTreeMap V) → Above j m → Above j (remove k m)
  unfolding remove
  remove-Above j k [] a = tt
  remove-Above j k ((i, w) ∷ m) a = ground (arith, remove-Above j k m a.1)

  pub insert-IsSorted : (k : ℕ) (v : V) (m : BTreeMap V) → IsSorted m → IsSorted (insert k v m)
  unfolding insert
  insert-IsSorted k v [] s = (tt, tt)
  insert-IsSorted k v ((i, w) ∷ m) s =
      ground (arith, insert-IsSorted k v m s.1, insert-Above i k v m, Above-trans k i m)

  pub remove-IsSorted : (k : ℕ) (m : BTreeMap V) → IsSorted m → IsSorted (remove k m)
  unfolding remove
  remove-IsSorted k [] s = tt
  remove-IsSorted k ((i, w) ∷ m) s = ground (arith, remove-IsSorted k m s.1, remove-Above i k m s.0)

  pub remove_all-IsSorted : (ks : List ℕ) (m : BTreeMap V) → IsSorted m → IsSorted (remove_all ks m)
  unfolding remove_all
  remove_all-IsSorted [] m s = s
  remove_all-IsSorted (k ∷ ks) m s = remove_all-IsSorted ks (remove k m) (remove-IsSorted k m s)

  pub insert-Below : (j k : ℕ) (v : V) (m : BTreeMap V) → k < j → Below j m → Below j (insert k v m)
  unfolding insert
  insert-Below j k v [] h a = (h, tt)
  insert-Below j k v ((i, w) ∷ m) h a = ground (arith, insert-Below j k v m h a.1)
