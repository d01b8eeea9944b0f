-- ===== src/Concurrency/WaitForGraph/Search.antt =====
-- The depth-first search ends, and finds a cycle exactly if there is one.
use transaction_manager.Shared.{
  ℕ, suc, ◌<◌, Bool, true, false, Option, none, some, List, [], ◌∷◌, length, ◌≡◌, ◌≢◌, ◌⊎◌, ◌↔◌,
  refl, ap, subst, ◌∙◌, ◌==◌, ==_iff, ==_refl, Bool-cases, inl, inr, arith,
}
use transaction_manager.Shared.OrderedMap.{find, keys}
use transaction_manager.Shared.OrderedSet.{contains}
use transaction_manager.Concurrency.WaitForGraph.{
  WaitForGraph, Colors, color, detect_cycle_dfs, check_each, vertices, has_cycle,
}
use transaction_manager.Concurrency.WaitForGraph.Edges.{Reach, one, more, Cyclic}
use transaction_manager.Concurrency.WaitForGraph.Measure.{
  unvisited, unvisited-le-length, unvisited-le, Edge-vertices, keys-vertices,
}
use transaction_manager.Concurrency.WaitForGraph.Descent.{
  IsDone, Visited, VisitOutcome, detect_cycle_dfs_lem,
}

module _ (g : WaitForGraph) where
  Reach-source : {u v : ℕ} → Reach g u v → contains u (keys g) ≡ true
  Reach-source {u} {v} (one e) = (Edge-vertices g u v e).0
  Reach-source (more r e) = Reach-source r

  abbrev CheckOutcome : Option Bool → Type 0
  CheckOutcome none = ⊥
  CheckOutcome (some true) = Cyclic g
  CheckOutcome (some false) = ¬ Cyclic g

  -- Between two visits no node is gray, and every entry is visited or still ahead.
  record Between (ns : List ℕ) (state : Colors) : Type 0 where
    done : IsDone g state
    no_gray : (x : ℕ) → color x state ≢ 1
    ahead : (x : ℕ) → contains x (keys g) ≡ true → (color x state ≡ 2) ⊎ (contains x ns ≡ true)
    named : (x : ℕ) → contains x ns ≡ true → contains x (vertices g) ≡ true

  check_descend :
      (fuel n : ℕ) (ns : List ℕ) (state : Colors) (r : Option (Bool × Colors))
      → VisitOutcome g n state r
      → ((mid : Colors) → Visited g n state mid → CheckOutcome (check_each fuel g ns mid))
      → CheckOutcome (elim r [
        | none ↦ none
        | some (found, state') ↦ elim found [
          | true ↦ some true
          | false ↦ check_each fuel g ns state'
        ]
      ])
  check_descend fuel n ns state none o rest = o
  check_descend fuel n ns state (some (true, mid)) o rest = o
  check_descend fuel n ns state (some (false, mid)) o rest = rest mid o

  after_visit :
      (n : ℕ) (ns : List ℕ) (state mid : Colors)
      → Between (n ∷ ns) state
      → Visited g n state mid
      → Between ns mid
  unfolding contains
  after_visit n ns state mid b v = record {
    done = v.done;
    no_gray = λ x h. b.no_gray x (v.gray x h);
    ahead = λ x k. elim (b.ahead x k) [
      | inl black ↦ inl (v.kept x (omega arith) ∙ black)
      | inr there ↦ elim (Bool-cases (n == x)) [
        | inl same ↦ inl (subst (λ m. color m mid ≡ 2) ((==_iff n x).0 same) v.black)
        | inr other ↦ inr (ground arith)
      ]
    ];
    named = λ x h. b.named x (ground arith);
  }

  check_each_lem :
      (fuel : ℕ) (ns : List ℕ) (state : Colors)
      → Between ns state
      → unvisited (vertices g) state < fuel
      → CheckOutcome (check_each fuel g ns state)
  unfolding check_each contains
  check_each_lem fuel [] state b room = λ c. b.done.acyclic c.0 (visited c) c.1
    where
      visited : (c : Cyclic g) → color c.0 state ≡ 2
      visited c = elim (b.ahead c.0 (Reach-source c.1)) [
        | inl h ↦ h
        | inr h ↦ absurd (ground arith)
      ]
  check_each_lem fuel (n ∷ ns) state b room = elim (Bool-cases (color n state == 0)) [
    | inl w ↦ rw w (
        check_descend fuel n ns state (detect_cycle_dfs fuel g n state)
          (detect_cycle_dfs_lem g fuel n state ((==_iff _ 0).0 w) (b.named n (rw (==_refl n) refl))
            b.done (λ x h. absurd (b.no_gray x h)) room)
          (λ mid v.
            check_each_lem fuel ns mid (after_visit n ns state mid b v)
              (omega (arith, unvisited-le (vertices g) state mid v.kept))))
    | inr v ↦ rw v (
        check_each_lem fuel ns state
          (record {
            done = b.done;
            no_gray = b.no_gray;
            ahead = λ x k. elim (b.ahead x k) [
              | inl black ↦ inl black
              | inr there ↦ elim (Bool-cases (n == x)) [
                | inl same ↦ inl (
                    ground (
                      arith,
                      ap (λ (m : ℕ). color m state) ((==_iff n x).0 same),
                      b.no_gray n,
                      b.done.legal n,
                    ))
                | inr other ↦ inr (ground arith)
              ]
            ];
            named = λ x h. b.named x (ground arith);
          })
          room)
  ]

  has_cycle_outcome : CheckOutcome (has_cycle g)
  unfolding has_cycle
  has_cycle_outcome =
      check_each_lem (suc (length (vertices g))) (keys g) []
        (unfold find in
          record {
            done = record {
              legal = λ x. omega arith;
              closed = λ x y h e. absurd (omega arith);
              acyclic = λ x h c. omega arith;
            };
            no_gray = λ x h. omega arith;
            ahead = λ x k. inr k;
            named = λ x k. keys-vertices g x k;
          })
        (omega (arith, unvisited-le-length (vertices g) []))

-- The search always ends with an answer, and the answer is `true` exactly if the graph has a cycle.
pub has_cycle_decides :
    (g : WaitForGraph) → (b : Bool) × (has_cycle g ≡ some b) × ((b ≡ true) ↔ Cyclic g)
has_cycle_decides g = decided (has_cycle g) refl (has_cycle_outcome g)
  where
    decided :
        (o : Option Bool)
        → has_cycle g ≡ o
        → CheckOutcome g o
        → (b : Bool) × (has_cycle g ≡ some b) × ((b ≡ true) ↔ Cyclic g)
    decided none e o = absurd o
    decided (some true) e o = (true, e, (λ _. o, λ _. refl))
    decided (some false) e o = (false, e, (λ h. absurd (ground arith), λ c. absurd (o c)))
