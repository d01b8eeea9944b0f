-- ===== src/Concurrency/WaitForGraph/Descent.antt =====
-- One visit of the depth-first search: how it leaves the colors, and what its answer means.
use transaction_manager.Shared.{
  ℕ, zero, suc, ◌<◌, Bool, true, false, Option, none, some, List, [], ◌∷◌, ◌≡◌, ◌⊎◌, refl, ap, sym,
  subst, ◌∙◌, ◌==◌, ==_iff, ==_refl, Bool-cases, inl, inr, arith,
}
use transaction_manager.Shared.OrderedMap
use transaction_manager.Shared.OrderedMap.{OrderedMap, find, find-insert, keys}
use transaction_manager.Shared.OrderedSet.{contains}
use transaction_manager.Concurrency.WaitForGraph.{
  WaitForGraph, Colors, color, successors, scan, finish, detect_cycle_dfs, vertices,
}
use transaction_manager.Concurrency.WaitForGraph.Edges.{Edge, Reach, one, more, Cyclic}
use transaction_manager.Concurrency.WaitForGraph.Measure.{
  color-insert, unvisited, Kept, unvisited-le, unvisited-lt, Edge-vertices,
}

module _ (g : WaitForGraph) where
  -- The colors are legal, the visited nodes have only visited successors, and none of them is on a cycle.
  pub record IsDone (state : Colors) : Type 0 where
    pub legal : (x : ℕ) → color x state < 3
    pub closed : (x y : ℕ) → color x state ≡ 2 → Edge g x y → color y state ≡ 2
    pub acyclic : (x : ℕ) → color x state ≡ 2 → ¬ Reach g x x

  Reach-closed :
      (state : Colors) (x : ℕ)
      → ((u v : ℕ) → color u state ≡ 2 → Edge g u v → color v state ≡ 2)
      → ((v : ℕ) → Edge g x v → color v state ≡ 2)
      → {y : ℕ} → Reach g x y
      → color y state ≡ 2
  Reach-closed state x closed first (one e) = first _ e
  Reach-closed state x closed first (more {v} {w} r e) =
      closed v w (Reach-closed state x closed first r) e

  -- What a visit of `n` that finds no cycle has done.
  pub record Visited (n : ℕ) (state state' : Colors) : Type 0 where
    pub kept : Kept state state'
    pub gray : (x : ℕ) → color x state' ≡ 1 → color x state ≡ 1
    pub black : color n state' ≡ 2
    pub done : IsDone state'

  record Scanned (ns : List ℕ) (state state' : Colors) : Type 0 where
    kept : Kept state state'
    gray : (x : ℕ) → color x state' ≡ 1 → color x state ≡ 1
    black : (x : ℕ) → contains x ns ≡ true → color x state' ≡ 2
    done : IsDone state'

  abbrev pub VisitOutcome : ℕ → Colors → Option (Bool × Colors) → Type 0
  VisitOutcome n state none = ⊥
  VisitOutcome n state (some (true, state')) = Cyclic g
  VisitOutcome n state (some (false, state')) = Visited n state state'

  abbrev ScanOutcome : List ℕ → Colors → Option (Bool × Colors) → Type 0
  ScanOutcome ns state none = ⊥
  ScanOutcome ns state (some (true, state')) = Cyclic g
  ScanOutcome ns state (some (false, state')) = Scanned ns state state'

  -- A visited head does not matter to the rest of the loop.
  skip_lem :
      (n : ℕ) (ns : List ℕ) (state : Colors) (r : Option (Bool × Colors))
      → color n state ≡ 2
      → ScanOutcome ns state r
      → ScanOutcome (n ∷ ns) state r
  unfolding contains
  skip_lem n ns state none b o = o
  skip_lem n ns state (some (true, state')) b o = o
  skip_lem n ns state (some (false, state')) b o = record {
    kept = o.kept;
    gray = o.gray;
    black = λ x h. elim (Bool-cases (n == x)) [
      | inl e ↦ subst (λ k. color k state' ≡ 2) ((==_iff n x).0 e) (o.kept n (omega arith) ∙ b)
      | inr e ↦ o.black x (ground arith)
    ];
    done = o.done;
  }

  compose_lem :
      (n : ℕ) (ns : List ℕ) (state mid : Colors) (r : Option (Bool × Colors))
      → Visited n state mid
      → ScanOutcome ns mid r
      → ScanOutcome (n ∷ ns) state r
  unfolding contains
  compose_lem n ns state mid none v o = o
  compose_lem n ns state mid (some (true, state')) v o = o
  compose_lem n ns state mid (some (false, state')) v o =
      let kept : Kept state state' = λ x h. o.kept x (λ e. h (sym (v.kept x h) ∙ e)) ∙ v.kept x h in
      record {
        kept = kept;
        gray = λ x h. v.gray x (o.gray x h);
        black = λ x h. elim (Bool-cases (n == x)) [
          | inl e ↦
              subst (λ k. color k state' ≡ 2) ((==_iff n x).0 e)
                (o.kept n (omega (arith, v.black)) ∙ v.black)
          | inr e ↦ o.black x (ground arith)
        ];
        done = o.done;
      }

  module _ (node fuel : ℕ) (vs : List ℕ) (visit : ℕ → Colors → Option (Bool × Colors))
      (visit_lem : (n : ℕ) (state : Colors)
        → color n state ≡ 0
        → contains n vs ≡ true
        → IsDone state
        → ((x : ℕ) → color x state ≡ 1 → Reach g x n)
        → unvisited vs state < fuel
        → VisitOutcome n state (visit n state)) where
    -- What the loop does with the answer of a visit.
    descend_lem :
        (n : ℕ) (ns : List ℕ) (state : Colors) (r : Option (Bool × Colors))
        → VisitOutcome n state r
        → ((mid : Colors) → Visited n state mid → ScanOutcome ns mid (scan visit ns mid))
        → ScanOutcome (n ∷ ns) state (elim r [
          | none ↦ none
          | some (found, state') ↦ elim found [
            | true ↦ some (true, state')
            | false ↦ scan visit ns state'
          ]
        ])
    descend_lem n ns state none o rest = o
    descend_lem n ns state (some (true, mid)) o rest = o
    descend_lem n ns state (some (false, mid)) o rest =
        compose_lem n ns state mid (scan visit ns mid) o (rest mid o)

    scan_lem :
        (ns : List ℕ) (state : Colors)
        → ((n : ℕ) → contains n ns ≡ true → Edge g node n × (contains n vs ≡ true))
        → ((x : ℕ) → color x state ≡ 1 → (x ≡ node) ⊎ Reach g x node)
        → IsDone state
        → unvisited vs state < fuel
        → ScanOutcome ns state (scan visit ns state)
    unfolding scan contains
    scan_lem [] state edges gray done room = record {
      kept = λ x h. refl;
      gray = λ x h. h;
      black = λ x h. absurd (ground arith);
      done = done;
    }
    scan_lem (n ∷ ns) state edges gray done room =
        let (edge, known) = edges n (rw (==_refl n) refl) in
        let edges' = λ (k : ℕ) (h : contains k ns ≡ true). edges k (ground arith) in
        elim (Bool-cases (color n state == 1)) [
          | inl c ↦ rw c (elim (gray n ((==_iff _ 1).0 c)) [
            | inl same ↦ (n, subst (λ k. Reach g k n) (sym same) (one edge))
            | inr way ↦ (n, more way edge)
          ])
          | inr c ↦ elim (Bool-cases (color n state == 0)) [
            | inl w ↦
                rw (c, w)
                  (descend_lem n ns state (visit n state)
                    (visit_lem n state ((==_iff _ 0).0 w) known done (to_n edge) room)
                    (λ mid v.
                      scan_lem ns mid edges' (λ x h. gray x (v.gray x h)) v.done
                        (omega (arith, unvisited-le vs state mid v.kept))))
            | inr b ↦
                rw (c, b)
                  (skip_lem n ns state (scan visit ns state) (ground (arith, done.legal n))
                    (scan_lem ns state edges' gray done room))
          ]
        ]
      where
        to_n : Edge g node n → (x : ℕ) → color x state ≡ 1 → Reach g x n
        to_n edge x h = elim (gray x h) [
          | inl same ↦ subst (λ k. Reach g k n) (sym same) (one edge)
          | inr way ↦ more way edge
        ]

  recolored-Kept :
      (node c : ℕ) (state : Colors)
      → color node state ≡ 0
      → Kept state (OrderedMap.insert node c state)
  recolored-Kept node c state w x h =
      ground (arith, color-insert x node c state, ap (λ (k : ℕ). color k state) {x = node} {y = x})

  -- Coloring a node gray leaves the visited nodes as they were.
  gray-IsDone :
      (node : ℕ) (state : Colors)
      → color node state ≡ 0
      → IsDone state
      → IsDone (OrderedMap.insert node 1 state)
  gray-IsDone node state w d =
      let color' = λ (x : ℕ). color-insert x node 1 state in
      record {
        legal = λ x. ground (arith, color' x, d.legal x);
        closed = λ x y h e.
            let old = d.closed x y (ground (arith, color' x)) e in
            recolored-Kept node 1 state w y (omega (arith, old)) ∙ old;
        acyclic = λ x h. d.acyclic x (ground (arith, color' x));
      }

  finish_lem :
      (node : ℕ) (state : Colors) (r : Option (Bool × Colors))
      → color node state ≡ 0
      → ScanOutcome (successors node g) (OrderedMap.insert node 1 state) r
      → VisitOutcome node state (finish node r)
  unfolding finish
  finish_lem node state none w o = o
  finish_lem node state (some (true, state')) w o = o
  finish_lem node state (some (false, state')) w o = record {
    kept = λ x h.
        let same = recolored-Kept node 1 state w x h in
        let last = o.kept x (λ e. h (sym same ∙ e)) ∙ same in
        ground (
          arith,
          color-insert x node 2 state',
          last,
          ap (λ (k : ℕ). color k state) {x = node} {y = x},
        );
    gray =
        λ x h. ground (arith, color-insert x node 2 state', o.gray x, color-insert x node 1 state);
    black = ground (arith, color-insert node node 2 state', ==_refl node);
    done = record {
      legal = λ x. ground (arith, color-insert x node 2 state', o.done.legal x);
      closed = λ x y h e. black_stays y (closed' x y h e);
      acyclic = λ x h c. acyclic' x h c;
    };
  }
    where
      is_gray : color node state' ≡ 1
      is_gray =
          let now : color node (OrderedMap.insert node 1 state) ≡ 1 =
            ground (arith, color-insert node node 1 state, ==_refl node) in
          o.kept node (omega (arith, now)) ∙ now

      black_stays : (y : ℕ) → color y state' ≡ 2 → color y (OrderedMap.insert node 2 state') ≡ 2
      black_stays y h = ground (arith, color-insert y node 2 state')

      closed' :
          (x y : ℕ)
          → color x (OrderedMap.insert node 2 state') ≡ 2
          → Edge g x y
          → color y state' ≡ 2
      closed' x y h e = elim (Bool-cases (node == x)) [
        | inl same ↦ o.black y (subst (λ k. Edge g k y) (sym ((==_iff node x).0 same)) e)
        | inr other ↦ o.done.closed x y (ground (arith, color-insert x node 2 state')) e
      ]

      acyclic' : (x : ℕ) → color x (OrderedMap.insert node 2 state') ≡ 2 → ¬ Reach g x x
      acyclic' x h c = elim (Bool-cases (node == x)) [
        | inl same ↦
            let back : Reach g node node =
              subst (λ k. Reach g k k) (sym ((==_iff node x).0 same)) c in
            absurd (
              omega
                (arith, Reach-closed state' node o.done.closed (λ v e. o.black v e) back, is_gray))
        | inr other ↦ o.done.acyclic x (ground (arith, color-insert x node 2 state')) c
      ]

  -- A visit of an unvisited node, with enough fuel.
  pub detect_cycle_dfs_lem :
      (fuel n : ℕ) (state : Colors)
      → color n state ≡ 0
      → contains n (vertices g) ≡ true
      → IsDone state
      → ((x : ℕ) → color x state ≡ 1 → Reach g x n)
      → unvisited (vertices g) state < fuel
      → VisitOutcome n state (detect_cycle_dfs fuel g n state)
  unfolding detect_cycle_dfs
  detect_cycle_dfs_lem zero n state w known done gray room = absurd (omega arith)
  detect_cycle_dfs_lem (suc fuel) n state w known done gray room = finish_lem n state _ w (
      scan_lem n fuel (vertices g) (detect_cycle_dfs fuel g) (detect_cycle_dfs_lem fuel)
        (successors n g) (OrderedMap.insert n 1 state) (λ m h. (h, (Edge-vertices g n m h).1))
        (λ x h. elim (Bool-cases (n == x)) [
          | inl same ↦ inl (sym ((==_iff n x).0 same))
          | inr other ↦ inr (gray x (ground (arith, color-insert x n 1 state)))
        ])
        (gray-IsDone n state w done)
        (omega (arith, unvisited-lt (vertices g) n 1 state known w (omega arith))))
