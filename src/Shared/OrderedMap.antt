-- ===== src/Shared/OrderedMap.antt =====
-- std::map<uint32_t, V>: an association list kept in ascending order of the keys.
use Prim.Native.Nat.{ℕ, suc, ◌+◌, ◌≤◌}
use mathlib.Core.Path.{◌≡◌, refl}
use mathlib.Core.Option.{Option, none, some}
use mathlib.Core.List.{List, [], ◌∷◌}
use native.Mathlib.Omega.{arith}
use transaction_manager.Shared.Tests.{ltb, ◌==◌, if◌then◌else◌, is_some}
use transaction_manager.Shared.Lists.{length}

abbrev pub OrderedMap {ℓ} : Type ℓ → Type ℓ
OrderedMap V = List (ℕ × V)

module _ {ℓ} {V : Type ℓ} where
  -- find(k), with `none` for end()
  unfoldable pub find : ℕ → OrderedMap V → Option V
  find k [] = none
  find k ((j, v) ∷ m) = if j == k then some v else find k m

  -- m[k] = v
  unfoldable pub insert : ℕ → V → OrderedMap V → OrderedMap V
  insert k v [] = (k, v) ∷ []
  insert k v ((j, w) ∷ m) =
      if k == j then (k, v) ∷ m else if ltb k j then (k, v) ∷ (j, w) ∷ m else (j, w) ∷ insert k v m

  unfoldable pub erase : ℕ → OrderedMap V → OrderedMap V
  erase k [] = []
  erase k ((j, v) ∷ m) = let rest = erase k m in if j == k then rest else (j, v) ∷ rest

  -- The keys, in the order in which a loop over the map meets them.
  unfoldable pub keys : OrderedMap V → List ℕ
  keys [] = []
  keys ((j, v) ∷ m) = j ∷ keys m

  pub find-insert :
      (j k : ℕ) (v : V) (m : OrderedMap V)
      → find j (insert k v m) ≡ (if k == j then some v else find j m)
  unfolding find insert
  find-insert j k v [] = refl
  find-insert j k v ((i, w) ∷ m) = ground (arith, find-insert j k v m)

  pub find-erase :
      (j k : ℕ) (m : OrderedMap V) → find j (erase k m) ≡ (if k == j then none else find j m)
  unfolding find erase
  find-erase j k [] = ground arith
  find-erase j k ((i, w) ∷ m) = ground (arith, find-erase j k m)

  -- Ascending keys, all of them at least `lo`.
  abbrev pub AscendsFrom : ℕ → OrderedMap V → Type 0
  AscendsFrom lo [] = Unit
  AscendsFrom lo ((k, v) ∷ m) = (lo ≤ k) × AscendsFrom (suc k) m

  pub AscendsFrom-mono :
      {lo hi : ℕ} (m : OrderedMap V) → lo ≤ hi → AscendsFrom hi m → AscendsFrom lo m
  AscendsFrom-mono [] h a = tt
  AscendsFrom-mono ((k, v) ∷ m) h a = (omega arith, a.1)

  pub find_below : (k lo : ℕ) (m : OrderedMap V) → suc k ≤ lo → AscendsFrom lo m → find k m ≡ none
  unfolding find
  find_below k lo [] h a = refl
  find_below k lo ((j, v) ∷ m) h a = ground (arith, find_below k (suc j) m)

  pub insert-AscendsFrom :
      (k : ℕ) (v : V) (lo : ℕ) (m : OrderedMap V)
      → lo ≤ k
      → AscendsFrom lo m
      → AscendsFrom lo (insert k v m)
  unfolding insert
  insert-AscendsFrom k v lo [] h a = (h, tt)
  insert-AscendsFrom k v lo ((j, w) ∷ m) h a = ground (arith, insert-AscendsFrom k v (suc j) m)

  pub erase-AscendsFrom :
      (k lo : ℕ) (m : OrderedMap V) → AscendsFrom lo m → AscendsFrom lo (erase k m)
  unfolding erase
  erase-AscendsFrom k lo [] a = tt
  erase-AscendsFrom k lo ((j, w) ∷ m) a = ground (
    arith,
    erase-AscendsFrom k (suc j) m a.1,
    AscendsFrom-mono {lo = lo} {hi = suc j} (erase k m),
  )

  pub erase_absent : (k : ℕ) (m : OrderedMap V) → find k m ≡ none → erase k m ≡ m
  unfolding erase find
  erase_absent k [] h = refl
  erase_absent k ((j, w) ∷ m) h = ground (arith, erase_absent k m)

  -- A key that is there is overwritten, a new one makes the map longer by one.
  pub length-insert :
      (k : ℕ) (v : V) (lo : ℕ) (m : OrderedMap V)
      → AscendsFrom lo m
      → length (insert k v m) ≡ length m + (if is_some (find k m) then 0 else 1)
  unfolding find insert
  length-insert k v lo [] a = refl
  length-insert k v lo ((j, w) ∷ m) a =
      ground (arith, length-insert k v (suc j) m a.1, find_below k (suc j) m)

  pub length-erase :
      (k lo : ℕ) (m : OrderedMap V)
      → AscendsFrom lo m
      → length (erase k m) + (if is_some (find k m) then 1 else 0) ≡ length m
  unfolding find erase
  length-erase k lo [] a = refl
  length-erase k lo ((j, w) ∷ m) a =
      ground (arith, length-erase k (suc j) m a.1, find_below k (suc j) m)

  pub ruleset map_laws = (find-insert, find-erase)

abbrev pub IsOrdered {ℓ} : {V : Type ℓ} → OrderedMap V → Type 0
IsOrdered m = AscendsFrom 0 m
