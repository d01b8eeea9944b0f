-- ===== src/Concurrency/WaitForGraph/Edges.antt =====
-- The edges of the graph, the ways along them, and how the two updates change the edges.
use transaction_manager.Shared.{
  ℕ, Bool, true, false, ◌&&◌, ◌||◌, not, [], ◌≡◌, ◌==◌, ==_iff, if◌then◌else◌, Bool-cases,
  Option-cases, inl, inr, ◌⊎◌, arith,
}
use transaction_manager.Shared.OrderedMap
use transaction_manager.Shared.OrderedMap.{find, find-insert}
use transaction_manager.Shared.OrderedSet
use transaction_manager.Shared.OrderedSet.{OrderedSet, contains, contains-insert, contains-erase}
use transaction_manager.Concurrency.WaitForGraph.{WaitForGraph, successors, add_edge, remove_edge}

abbrev pub has_edge : WaitForGraph → ℕ → ℕ → Bool
has_edge g u v = contains v (successors u g)

abbrev pub Edge : WaitForGraph → ℕ → ℕ → Type 0
Edge g u v = has_edge g u v ≡ true

-- The ways of one edge or more.
pub data Reach (g : WaitForGraph) (u : ℕ) : ℕ → Type 0 where
  one : {v : ℕ} → Edge g u v → Reach g u v
  more : {v w : ℕ} → Reach g u v → Edge g v w → Reach g u w

-- Some transaction waits for itself, through others or directly.
abbrev pub Cyclic : WaitForGraph → Type 0
Cyclic g = (v : ℕ) × Reach g v v

successors-insert :
    (u from : ℕ) (s : OrderedSet) (g : WaitForGraph)
    → successors u (OrderedMap.insert from s g) ≡ (if from == u then s else successors u g)
successors-insert u from s g = ground (arith, find-insert u from s g)

add_edge_lem :
    (g : WaitForGraph) (from to u v : ℕ)
    → has_edge (add_edge from to g) u v ≡ ((from == u && to == v) || has_edge g u v)
unfolding add_edge
add_edge_lem g from to u v =
    rw (successors-insert u from (OrderedSet.insert to (successors from g)) g)
      (cases (Bool-cases (from == u)))
  where
    cases :
        ((from == u) ≡ true) ⊎ ((from == u) ≡ false)
        → contains v
            (if from == u then OrderedSet.insert to (successors from g) else successors u g)
          ≡ ((from == u && to == v) || has_edge g u v)
    cases (inr e) = rw e
    cases (inl e) =
        let same : from ≡ u = (==_iff from u).0 e in
        rw (e, contains-insert v to (successors from g), same)

remove_edge_lem :
    (g : WaitForGraph) (from to u v : ℕ)
    → has_edge (remove_edge from to g) u v ≡ (not (from == u && to == v) && has_edge g u v)
unfolding remove_edge
remove_edge_lem g from to u v = elim (Option-cases (find from g)) [
  | inl missing ↦ rw missing (elim (Bool-cases (from == u)) [
    | inr e ↦ rw e
    | inl e ↦
        let none_there : successors u g ≡ [] =
          rw (← (==_iff from u).0 e) (rw (missing, successors)) in
        rw (none_there) (unfold contains in ground arith)
  ])
  | inr (s, there) ↦ rw there (
      rw (successors-insert u from (OrderedSet.erase to (successors from g)) g)
        (cases (Bool-cases (from == u))))
]
  where
    cases :
        ((from == u) ≡ true) ⊎ ((from == u) ≡ false)
        → contains v (if from == u then OrderedSet.erase to (successors from g) else successors u g)
          ≡ (not (from == u && to == v) && has_edge g u v)
    cases (inr e) = rw e
    cases (inl e) =
        let same : from ≡ u = (==_iff from u).0 e in
        rw (e, contains-erase v to (successors from g), same) (ground arith)

-- `addEdge` and `removeEdge` change exactly the one edge.
pub edges_lem :
    (g : WaitForGraph) (from to u v : ℕ)
    → (has_edge (add_edge from to g) u v ≡ ((from == u && to == v) || has_edge g u v))
      × (has_edge (remove_edge from to g) u v ≡ (not (from == u && to == v) && has_edge g u v))
edges_lem g from to u v = (add_edge_lem g from to u v, remove_edge_lem g from to u v)
