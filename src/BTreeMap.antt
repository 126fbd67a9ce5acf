-- ===== src/BTreeMap.antt =====
-- std::collections::BTreeMap with u16 keys: a list of entries in the order of the keys.
pub mod Laws
use rfs_utp.Common.{
  ℕ, ◌<◌, List, [], ◌∷◌, Option, none, some, ltb, ◌==◌, if◌then◌else◌, map, Bool, true, false,
}

abbrev pub BTreeMap {ℓ} : Type ℓ → Type ℓ
BTreeMap V = List (ℕ × V)

module _ {ℓ} {V : Type ℓ} where
  unfoldable pub get : ℕ → BTreeMap V → Option V
  get k [] = none
  get k ((j, w) ∷ m) = if j == k then some w else get k m

  unfoldable pub insert : ℕ → V → BTreeMap V → BTreeMap V
  insert k v [] = (k, v) ∷ []
  insert k v ((j, w) ∷ m) =
      if ltb k j then (k, v) ∷ (j, w) ∷ m else if j == k then (k, v) ∷ m else (j, w) ∷ insert k v m

  unfoldable pub remove : ℕ → BTreeMap V → BTreeMap V
  remove k [] = []
  remove k ((j, w) ∷ m) = if j == k then m else (j, w) ∷ remove k m

  -- `last_key_value`
  unfoldable pub last_key_value : BTreeMap V → Option (ℕ × V)
  last_key_value [] = none
  last_key_value (e ∷ []) = some e
  last_key_value (e ∷ (e' ∷ m)) = last_key_value (e' ∷ m)

  -- `is_empty`
  abbrev pub is_empty : BTreeMap V → Bool
  is_empty [] = true
  is_empty (e ∷ m) = false

  -- Removing keys one after the other.
  unfoldable pub remove_all : List ℕ → BTreeMap V → BTreeMap V
  remove_all [] m = m
  remove_all (k ∷ ks) m = remove_all ks (remove k m)

  -- Every key lies above `k`.
  abbrev pub Above : ℕ → BTreeMap V → Type 0
  Above k [] = Unit {0}
  Above k ((j, w) ∷ m) = (k < j) × Above k m

  -- The keys rise.
  abbrev pub IsSorted : BTreeMap V → Type 0
  IsSorted [] = Unit {0}
  IsSorted ((j, w) ∷ m) = Above j m × IsSorted m

  -- Every key lies below `k`.
  abbrev pub Below : ℕ → BTreeMap V → Type 0
  Below k [] = Unit {0}
  Below k ((j, w) ∷ m) = (j < k) × Below k m
