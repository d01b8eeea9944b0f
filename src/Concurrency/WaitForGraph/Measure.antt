-- ===== src/Concurrency/WaitForGraph/Measure.antt =====
-- What the depth-first search consumes: the unvisited nodes, and the nodes that a graph names.
use transaction_manager.Shared.{
  ℕ, suc, ◌≤◌, ◌<◌, true, ◌||◌, List, [], ◌∷◌, ◌++◌, length, ◌≡◌, ◌≢◌, refl, ap, ◌==◌, ==_iff,
  if◌then◌else◌, Bool-cases, inl, inr, arith,
}
use transaction_manager.Shared.OrderedMap
use transaction_manager.Shared.OrderedMap.{OrderedMap, find, find-insert, keys}
use transaction_manager.Shared.OrderedSet.{contains}
use transaction_manager.Concurrency.WaitForGraph.{WaitForGraph, Colors, color, vertices}
use transaction_manager.Concurrency.WaitForGraph.Edges.{Edge}

pub color-insert :
    (x n c : ℕ) (state : Colors)
    → color x (OrderedMap.insert n c state) ≡ (if n == x then c else color x state)
color-insert x n c state = ground (arith, find-insert x n c state)

-- The nodes of the list that are still unvisited.
pub unvisited : List ℕ → Colors → ℕ
unvisited [] state = 0
unvisited (v ∷ vs) state =
    let rest = unvisited vs state in if color v state == 0 then suc rest else rest

pub unvisited-le-length : (vs : List ℕ) (state : Colors) → unvisited vs state ≤ length vs
unfolding unvisited
unvisited-le-length [] state = omega arith
unvisited-le-length (v ∷ vs) state = ground (arith, unvisited-le-length vs state)

-- What has a color keeps it.
abbrev pub Kept : Colors → Colors → Type 0
Kept state state' = (x : ℕ) → color x state ≢ 0 → color x state' ≡ color x state

pub unvisited-le :
    (vs : List ℕ) (state state' : Colors)
    → Kept state state'
    → unvisited vs state' ≤ unvisited vs state
unfolding unvisited
unvisited-le [] state state' k = omega arith
unvisited-le (v ∷ vs) state state' k = ground (arith, unvisited-le vs state state' k, k v)

pub unvisited-lt :
    (vs : List ℕ) (n c : ℕ) (state : Colors)
    → contains n vs ≡ true
    → color n state ≡ 0
    → c ≢ 0
    → unvisited vs (OrderedMap.insert n c state) < unvisited vs state
unfolding unvisited contains
unvisited-lt [] n c state h w ne = absurd (ground arith)
unvisited-lt (v ∷ vs) n c state h w ne = elim (Bool-cases (v == n)) [
  | inl e ↦ ground (
    arith,
    color-insert v n c state,
    ap (λ (k : ℕ). color k state) ((==_iff v n).0 e),
    unvisited-le vs state (OrderedMap.insert n c state) kept,
  )
  | inr e ↦ ground (arith, color-insert v n c state, unvisited-lt vs n c state)
]
  where
    kept : Kept state (OrderedMap.insert n c state)
    kept x h' =
        ground (arith, color-insert x n c state, ap (λ (k : ℕ). color k state) {x = n} {y = x})

contains-append :
    (a : ℕ) (xs ys : List ℕ) → contains a (xs ++ ys) ≡ (contains a xs || contains a ys)
unfolding contains
contains-append a [] ys = refl
contains-append a (x ∷ xs) ys = ground (arith, contains-append a xs ys)

-- An edge leads from a node with an entry to a node that the graph names.
pub Edge-vertices :
    (g : WaitForGraph) (u v : ℕ)
    → Edge g u v
    → (contains u (keys g) ≡ true) × (contains v (vertices g) ≡ true)
unfolding vertices contains keys find
Edge-vertices [] u v e = absurd (ground arith)
Edge-vertices ((n, s) ∷ g) u v e =
    ground (arith, contains-append v s (vertices g), Edge-vertices g u v)

pub keys-vertices :
    (g : WaitForGraph) (u : ℕ) → contains u (keys g) ≡ true → contains u (vertices g) ≡ true
unfolding vertices contains keys
keys-vertices [] u h = h
keys-vertices ((n, s) ∷ g) u h = ground (arith, contains-append u s (vertices g), keys-vertices g u)
