-- ===== src/Concurrency/WaitForGraph.antt =====
-- src/concurrency/WaitForGraph.cpp, include/concurrency/WaitForGraph.h.
pub mod Edges
pub mod Measure
pub mod Descent
pub mod Search
use transaction_manager.Shared.{
  ℕ, zero, suc, Bool, true, false, Option, none, some, List, [], ◌∷◌, ◌++◌, length, is_some, ◌==◌,
  if◌then◌else◌,
}
use transaction_manager.Shared.OrderedMap
use transaction_manager.Shared.OrderedMap.{OrderedMap, find}
use transaction_manager.Shared.OrderedSet
use transaction_manager.Shared.OrderedSet.{OrderedSet}

abbrev pub WaitForGraph : Type 0
WaitForGraph = OrderedMap OrderedSet

-- The successors of a node; a node without an entry has none.
abbrev pub successors : ℕ → WaitForGraph → OrderedSet
successors node g = elim (find node g) [ none ↦ [] | some s ↦ s ]

unfoldable pub add_edge : ℕ → ℕ → WaitForGraph → WaitForGraph
add_edge from to g = OrderedMap.insert from (OrderedSet.insert to (successors from g)) g

unfoldable pub remove_edge : ℕ → ℕ → WaitForGraph → WaitForGraph
remove_edge from to g =
    if is_some (find from g)
    then OrderedMap.insert from (OrderedSet.erase to (successors from g)) g
    else g

-- 0: unvisited, 1: visiting, 2: visited. A missing entry reads as the 0 that operator[] puts there.
abbrev pub Colors : Type 0
Colors = OrderedMap ℕ

abbrev pub color : ℕ → Colors → ℕ
color node state = elim (find node state) [ none ↦ 0 | some c ↦ c ]

-- The loop of `detectCycleDFS` over the neighbours; `visit` is its recursive call, and `none` means
-- that the fuel ran out.
unfoldable pub scan :
    (ℕ → Colors → Option (Bool × Colors)) → List ℕ → Colors → Option (Bool × Colors)
scan visit [] state = some (false, state)
scan visit (n ∷ ns) state =
    let skip = scan visit ns state in
    let descend : Option (Bool × Colors) = elim (visit n state) [
      | none ↦ none
      | some (found, state') ↦ elim found [
        | true ↦ some (true, state')
        | false ↦ scan visit ns state'
      ]
    ] in
    if color n state == 1 then some (true, state) else if color n state == 0 then descend else skip

-- Black, once the loop has found nothing.
unfoldable pub finish : ℕ → Option (Bool × Colors) → Option (Bool × Colors)
finish node none = none
finish node (some (true, state)) = some (true, state)
finish node (some (false, state)) = some (false, OrderedMap.insert node 2 state)

unfoldable pub detect_cycle_dfs : ℕ → WaitForGraph → ℕ → Colors → Option (Bool × Colors)
detect_cycle_dfs zero g node state = none
detect_cycle_dfs (suc fuel) g node state =
    finish node
      (scan (detect_cycle_dfs fuel g) (successors node g) (OrderedMap.insert node 1 state))

-- The loop of `hasCycle` over the nodes that have an entry.
unfoldable pub check_each : ℕ → WaitForGraph → List ℕ → Colors → Option Bool
check_each fuel g [] state = some false
check_each fuel g (n ∷ ns) state =
    let skip = check_each fuel g ns state in
    let descend : Option Bool = elim (detect_cycle_dfs fuel g n state) [
      | none ↦ none
      | some (found, state') ↦ elim found [ true ↦ some true | false ↦ check_each fuel g ns state' ]
    ] in
    if color n state == 0 then descend else skip

-- Every node that the graph names.
unfoldable pub vertices : WaitForGraph → List ℕ
vertices [] = []
vertices ((n, s) ∷ g) = n ∷ (s ++ vertices g)

-- The search descends to each node once at most, so one level more than there are nodes is enough.
unfoldable pub has_cycle : WaitForGraph → Option Bool
has_cycle g = check_each (suc (length (vertices g))) g (OrderedMap.keys g) []
