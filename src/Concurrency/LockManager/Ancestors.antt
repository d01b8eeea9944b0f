-- ===== src/Concurrency/LockManager/Ancestors.antt =====
-- The loop that collects the ancestors of a resource: its end, and what it finds.
use transaction_manager.Shared.{
  ℕ, zero, suc, ◌≤◌, ◌<◌, Bool, true, false, ◌||◌, Option, some, List, [], ◌∷◌, length, ◌≡◌, ◌↔◌,
  refl, ap, sym, subst, ◌∙◌, ◌==◌, if◌then◌else◌, arith, Option-cases, Bool-cases, inl, inr, ==_iff,
  ==_refl, ◌⊎◌,
}
use mathlib.Core.Option.{none as nothing}
use transaction_manager.Shared.OrderedMap.{OrderedMap, find}
use transaction_manager.Shared.OrderedSet
use transaction_manager.Shared.OrderedSet.{OrderedSet, contains, contains-insert}
use transaction_manager.Concurrency.LockManager.State.{LockManager}
use transaction_manager.Concurrency.LockManager.Request.{climb, ancestors}

-- The entries of the map whose parent has not been seen.
unseen : OrderedSet → OrderedMap ℕ → ℕ
unseen seen [] = 0
unseen seen ((_, parent) ∷ m) =
    let rest = unseen seen m in if contains parent seen then rest else suc rest

unseen-le : (seen : OrderedSet) (m : OrderedMap ℕ) → unseen seen m ≤ length m
unfolding unseen
unseen-le seen [] = omega arith
unseen-le seen ((_, parent) ∷ m) = ground (arith, unseen-le seen m)

unseen-insert-le :
    (p : ℕ) (seen : OrderedSet) (m : OrderedMap ℕ)
    → unseen (OrderedSet.insert p seen) m ≤ unseen seen m
unfolding unseen
unseen-insert-le p seen [] = omega arith
unseen-insert-le p seen ((_, parent) ∷ m) =
    ground (arith, unseen-insert-le p seen m, contains-insert parent p seen)

unseen-insert-lt :
    (p k : ℕ) (seen : OrderedSet) (m : OrderedMap ℕ)
    → find k m ≡ some p
    → contains p seen ≡ false
    → unseen (OrderedSet.insert p seen) m < unseen seen m
unfolding unseen find
unseen-insert-lt p k seen [] e h = absurd (ground arith)
unseen-insert-lt p k seen ((j, parent) ∷ m) e h = elim (Bool-cases (j == k)) [
  | inl same ↦
      let hit : parent ≡ p = ground arith in
      ground (
        arith,
        hit,
        ap (λ (x : ℕ). contains x seen) hit,
        ap (λ (x : ℕ). contains x (OrderedSet.insert p seen)) hit,
        unseen-insert-le p seen m,
        contains-insert p p seen,
        ==_refl p,
      )
  | inr other ↦ ground (arith, unseen-insert-lt p k seen m, contains-insert parent p seen)
]

-- More fuel than there are unseen parents is enough.
climb_returns :
    (fuel k : ℕ) (m : OrderedMap ℕ) (seen : OrderedSet)
    → unseen seen m < fuel
    → (l : List ℕ) × (climb fuel m seen (find k m) ≡ some l)
unfolding climb
climb_returns zero k m seen h = absurd (omega arith)
climb_returns (suc fuel) k m seen h = elim (Option-cases (find k m)) [
  | inl e ↦ ([], rw e)
  | inr (p, e) ↦ elim (Bool-cases (contains p seen)) [
    | inl c ↦ ([], rw (e, c))
    | inr c ↦
        let (l, r) =
          climb_returns fuel p m (OrderedSet.insert p seen)
            (omega (arith, unseen-insert-lt p k seen m e c)) in
        (p ∷ l, rw (e, c, r))
  ]
]

ancestors-climb :
    (resource : ℕ) (m : LockManager)
    → climb (suc (length m.resource_parent)) m.resource_parent [] (find resource m.resource_parent)
      ≡ some (ancestors resource m)
unfolding ancestors
ancestors-climb resource m =
    let parents = m.resource_parent in
    let (l, e) =
      climb_returns (suc (length parents)) resource parents []
        (omega (arith, unseen-le [] parents)) in
    e ∙ ap some (sym (rw (e, ancestors)))

-- `a` stands above `r` in the hierarchy.
pub data IsAncestor (parents : OrderedMap ℕ) (r : ℕ) : ℕ → Type 0 where
  direct : {a : ℕ} → find r parents ≡ some a → IsAncestor parents r a
  above : {a b : ℕ} → IsAncestor parents r a → find a parents ≡ some b → IsAncestor parents r b

climb_sound :
    (parents : OrderedMap ℕ) (r fuel : ℕ) (seen : OrderedSet) (o : Option ℕ)
    → ((p : ℕ) → o ≡ some p → IsAncestor parents r p)
    → (l : List ℕ) → climb fuel parents seen o ≡ some l
    → (a : ℕ) → contains a l ≡ true
    → IsAncestor parents r a
unfolding climb contains
climb_sound parents r zero seen nothing start l e a c = absurd (ground arith)
climb_sound parents r zero seen (some p) start l e a c = absurd (ground arith)
climb_sound parents r (suc fuel) seen nothing start l e a c = absurd (ground arith)
climb_sound parents r (suc fuel) seen (some p) start l e a c = elim (Bool-cases (contains p seen)) [
  | inl stop ↦ absurd (ground arith)
  | inr go ↦ elim (Option-cases (climb fuel parents (OrderedSet.insert p seen) (find p parents))) [
    | inl none_left ↦ absurd (ground arith)
    | inr (rest, r') ↦
        let here = start p refl in
        elim (Bool-cases (p == a)) [
          | inl same ↦ subst (IsAncestor parents r) ((==_iff p a).0 same) here
          | inr other ↦
              climb_sound parents r fuel (OrderedSet.insert p seen) (find p parents)
                (λ q h. above here h) rest r' a (ground arith)
        ]
  ]
]

-- The parent of each member of `xs` is a member of `ys`, or the one that the loop is at.
abbrev Closed : OrderedMap ℕ → OrderedSet → (ℕ → Bool) → Option ℕ → Type 0
Closed parents xs ys o =
    (x y : ℕ) → contains x xs ≡ true → find x parents ≡ some y → (ys y ≡ true) ⊎ (o ≡ some y)

same_value : (a b : ℕ) → some a ≡ some b → a ≡ b
same_value a b h = cc

Closed-insert :
    (parents : OrderedMap ℕ) (p : ℕ) (seen : OrderedSet)
    → Closed parents seen (λ y. contains y seen) (some p)
    → Closed parents
        (OrderedSet.insert p seen)
        (λ y. contains y (OrderedSet.insert p seen))
        (find p parents)
Closed-insert parents p seen c x y m h = elim (Bool-cases (p == x)) [
  | inl same ↦ inr (ap (λ (k : ℕ). find k parents) ((==_iff p x).0 same) ∙ h)
  | inr other ↦ elim (c x y (ground (arith, contains-insert x p seen)) h) [
    | inl k ↦ inl (ground (arith, contains-insert y p seen))
    | inr k ↦ inl (ground (arith, contains-insert y p seen, same_value p y k))
  ]
]

climb_complete :
    (parents : OrderedMap ℕ) (fuel : ℕ) (seen : OrderedSet) (o : Option ℕ) (l : List ℕ)
    → climb fuel parents seen o ≡ some l
    → Closed parents seen (λ y. contains y seen) o
    → ((p : ℕ) → o ≡ some p → (contains p seen || contains p l) ≡ true)
      × ((x y : ℕ)
          → (contains x seen || contains x l) ≡ true
          → find x parents ≡ some y
          → (contains y seen || contains y l) ≡ true)
unfolding climb contains
climb_complete parents zero seen nothing l e c = (
  λ p h. absurd (ground arith),
  λ x y m h. elim (c x y (ground arith) h) [ inl k ↦ ground arith | inr k ↦ absurd (ground arith) ],
)
climb_complete parents zero seen (some p) l e c = absurd (ground arith)
climb_complete parents (suc fuel) seen nothing l e c = (
  λ p h. absurd (ground arith),
  λ x y m h. elim (c x y (ground arith) h) [ inl k ↦ ground arith | inr k ↦ absurd (ground arith) ],
)
climb_complete parents (suc fuel) seen (some p) l e c = elim (Bool-cases (contains p seen)) [
  | inl stop ↦ (
    λ q h. ground (arith, ap (λ (k : ℕ). contains k seen) (same_value p q h)),
    λ x y m h. elim (c x y (ground arith) h) [
      | inl k ↦ ground arith
      | inr k ↦ ground (arith, ap (λ (k : ℕ). contains k seen) (same_value p y k))
    ],
  )
  | inr go ↦ elim (Option-cases (climb fuel parents (OrderedSet.insert p seen) (find p parents))) [
    | inl none_left ↦ absurd (ground arith)
    | inr (rest, r') ↦
        let (first, later) =
          climb_complete parents fuel (OrderedSet.insert p seen) (find p parents) rest r'
            (Closed-insert parents p seen c) in
        (
          λ q h. ground (arith, same_value p q h),
          λ x y m h. ground (
            arith,
            contains-insert x p seen,
            contains-insert y p seen,
            later x y (ground (arith, contains-insert x p seen)) h,
          ),
        )
  ]
]

-- Also where the hierarchy has a cycle, the loop over the parents ends, and the resources that it
-- returns are exactly those that stand above the resource.
pub ancestors_exact :
    (resource a : ℕ) (m : LockManager)
    → (contains a (ancestors resource m) ≡ true) ↔ IsAncestor m.resource_parent resource a
ancestors_exact resource a m = (
  climb_sound parents resource (suc (length parents)) [] (find resource parents) (λ p h. direct h)
      (ancestors resource m) run a,
  complete,
)
  where
    parents : OrderedMap ℕ
    parents = m.resource_parent

    run :
        climb (suc (length parents)) parents [] (find resource parents)
        ≡ some (ancestors resource m)
    run = ancestors-climb resource m

    closure :
        ((p : ℕ) → find resource parents ≡ some p → contains p (ancestors resource m) ≡ true)
        × ((x y : ℕ)
            → contains x (ancestors resource m) ≡ true
            → find x parents ≡ some y
            → contains y (ancestors resource m) ≡ true)
    closure =
        unfold contains in
        climb_complete parents (suc (length parents)) [] (find resource parents)
          (ancestors resource m) run (λ x y c h. absurd (ground arith))

    complete :
        {b : ℕ} → IsAncestor m.resource_parent resource b → contains b (ancestors resource m) ≡ true
    complete (direct h) = closure.0 _ h
    complete (above i h) = closure.1 _ _ (complete i) h
