-- ===== src/Shared/OrderedSet.antt =====
-- std::set<uint32_t>: a list kept in ascending order.
use Prim.Native.Nat.{ℕ, suc, ◌≤◌}
use mathlib.Core.Path.{◌≡◌, refl}
use mathlib.Core.Bool.{Bool, false, ◌||◌}
use mathlib.Core.List.{List, [], ◌∷◌}
use native.Mathlib.Omega.{arith}
use transaction_manager.Shared.Tests.{ltb, ◌==◌, if◌then◌else◌}

abbrev pub OrderedSet : Type 0
OrderedSet = List ℕ

unfoldable pub contains : ℕ → OrderedSet → Bool
contains a [] = false
contains a (x ∷ s) = x == a || contains a s

unfoldable pub insert : ℕ → OrderedSet → OrderedSet
insert a [] = a ∷ []
insert a (x ∷ s) = if a == x then x ∷ s else if ltb a x then a ∷ x ∷ s else x ∷ insert a s

unfoldable pub erase : ℕ → OrderedSet → OrderedSet
erase a [] = []
erase a (x ∷ s) = let rest = erase a s in if x == a then rest else x ∷ rest

pub contains-insert :
    (b a : ℕ) (s : OrderedSet) → contains b (insert a s) ≡ (a == b || contains b s)
unfolding contains insert
contains-insert b a [] = refl
contains-insert b a (x ∷ s) = ground (arith, contains-insert b a s)

pub contains-erase :
    (b a : ℕ) (s : OrderedSet) → contains b (erase a s) ≡ (if a == b then false else contains b s)
unfolding contains erase
contains-erase b a [] = ground arith
contains-erase b a (x ∷ s) = ground (arith, contains-erase b a s)

-- Strictly ascending, and nothing below `lo`.
abbrev pub AscendsFrom : ℕ → OrderedSet → Type 0
AscendsFrom lo [] = Unit
AscendsFrom lo (x ∷ s) = (lo ≤ x) × AscendsFrom (suc x) s

pub AscendsFrom-mono : {lo hi : ℕ} (s : OrderedSet) → lo ≤ hi → AscendsFrom hi s → AscendsFrom lo s
AscendsFrom-mono [] h a = tt
AscendsFrom-mono (x ∷ s) h a = (omega arith, a.1)

pub insert-AscendsFrom :
    (a lo : ℕ) (s : OrderedSet) → lo ≤ a → AscendsFrom lo s → AscendsFrom lo (insert a s)
unfolding insert
insert-AscendsFrom a lo [] h o = (h, tt)
insert-AscendsFrom a lo (x ∷ s) h o = ground (arith, insert-AscendsFrom a (suc x) s)

pub erase-AscendsFrom : (a lo : ℕ) (s : OrderedSet) → AscendsFrom lo s → AscendsFrom lo (erase a s)
unfolding erase
erase-AscendsFrom a lo [] o = tt
erase-AscendsFrom a lo (x ∷ s) o =
    ground (
      arith,
      erase-AscendsFrom a (suc x) s o.1,
      AscendsFrom-mono {lo = lo} {hi = suc x} (erase a s),
    )

pub ruleset set_laws = (contains-insert, contains-erase)
