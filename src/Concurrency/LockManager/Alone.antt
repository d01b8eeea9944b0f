-- ===== src/Concurrency/LockManager/Alone.antt =====
-- Covering locks, and the locks of others beside them.
use transaction_manager.Shared.{
  ℕ, ◌==◌, true, false, ◌||◌, ◌&&◌, List, [], ◌∷◌, ◌≡◌, refl, sym, subst, ◌∙◌, inl, inr, Bool-cases,
  ==_iff, arith,
}
use transaction_manager.Enums.{LockType, exclusive, lock_type_eq}
use transaction_manager.Concurrency.Lock.{Lock, conflicts, conflicts_comm}
use transaction_manager.Concurrency.LockManager.State.{LockManager, at, compatible_with_others}
use transaction_manager.Concurrency.LockManager.Request.{request_lock}
use transaction_manager.Concurrency.LockManager.Release.{step, requests}
use transaction_manager.Concurrency.LockManager.Answers.{covers}
use transaction_manager.Concurrency.LockManager.Outcome.{granted-covers}
use transaction_manager.Concurrency.LockManager.Compatibility.{Coherent, IsSafe, step-IsSafe}

-- What conflicts with a type conflicts with every type that covers it.
covering_conflicts :
    (x t a : LockType)
    → (lock_type_eq a t || lock_type_eq a exclusive) ≡ true
    → conflicts x a ≡ false
    → conflicts x t ≡ false
unfolding conflicts lock_type_eq
covering_conflicts x t a c e = ground arith

others_covering :
    (txn : ℕ) (t a : LockType) (ls : List Lock)
    → (lock_type_eq a t || lock_type_eq a exclusive) ≡ true
    → compatible_with_others txn a ls ≡ true
    → compatible_with_others txn t ls ≡ true
unfolding compatible_with_others
others_covering txn t a [] c h = refl
others_covering txn t a (l ∷ ls) c h =
    ground (arith, others_covering txn t a ls c, covering_conflicts l.lock_type t a c)

not_own : (a u txn : ℕ) → a ≡ txn → (u == txn) ≡ false → (a == u) ≡ false
not_own a u txn same ne = elim (Bool-cases (a == u)) [
  | inr e ↦ e
  | inl e ↦
      let equal : a ≡ u = (==_iff a u).0 e in
      absurd (ground (arith, ne, (==_iff u txn).1 (sym equal ∙ same)))
]

apart_from_covering :
    (u txn : ℕ) (s t : LockType) (ls : List Lock)
    → (u == txn) ≡ false
    → compatible_with_others u s ls ≡ true
    → covers txn t ls ≡ true
    → conflicts s t ≡ false
unfolding compatible_with_others covers
apart_from_covering u txn s t [] ne h c = absurd (ground arith)
apart_from_covering u txn s t (l ∷ ls) ne h c =
    let other : l.transaction_id ≡ txn → (l.transaction_id == u) ≡ false =
      λ same. not_own l.transaction_id u txn same ne in
    elim (Bool-cases (
      l.transaction_id == txn
      && (lock_type_eq l.lock_type t || lock_type_eq l.lock_type exclusive))) [
        | inr later ↦
            apart_from_covering u txn s t ls ne (ground (arith, h)) (ground (arith, c, later))
        | inl here ↦
            let own : (l.transaction_id == txn) ≡ true = ground (arith, here) in
            let differs = other ((==_iff l.transaction_id txn).0 own) in
            covering_conflicts s t l.lock_type (ground (arith, here))
              (conflicts_comm s l.lock_type ∙ ground (arith, h, differs))
      ]

Coherent-alone :
    (txn : ℕ) (t : LockType) (ls : List Lock)
    → Coherent ls
    → covers txn t ls ≡ true
    → compatible_with_others txn t ls ≡ true
unfolding compatible_with_others covers
Coherent-alone txn t [] h c = refl
Coherent-alone txn t (l ∷ ls) h c =
    elim (Bool-cases (
      l.transaction_id == txn
      && (lock_type_eq l.lock_type t || lock_type_eq l.lock_type exclusive))) [
        | inl here ↦
            let own : (l.transaction_id == txn) ≡ true = ground (arith, here) in
            let same : l.transaction_id ≡ txn = (==_iff l.transaction_id txn).0 own in
            ground (
              arith,
              own,
              others_covering txn t l.lock_type ls (ground (arith, here))
                  (subst (λ u. compatible_with_others u l.lock_type ls ≡ true) same h.0),
            )
        | inr later ↦
            let covered : covers txn t ls ≡ true = ground (arith, c, later) in
            let rest = Coherent-alone txn t ls h.1 covered in
            elim (Bool-cases (l.transaction_id == txn)) [
              | inl own ↦ ground (arith, own, rest)
              | inr other ↦ ground (
                arith,
                rest,
                apart_from_covering l.transaction_id txn l.lock_type t ls other h.0 covered,
              )
            ]
      ]

-- A granted request covers its type, and no other transaction has a conflicting lock.
pub granted_lock :
    (txn id : ℕ) (t : LockType) (m : LockManager)
    → IsSafe m
    → (request_lock txn id t m).0 ≡ true
    → (covers txn t (at id (request_lock txn id t m).1.resource_locks) ≡ true)
      × (compatible_with_others txn t (at id (request_lock txn id t m).1.resource_locks) ≡ true)
granted_lock txn id t m s granted =
    let covered = granted-covers txn id t m granted in
    let safe : IsSafe (request_lock txn id t m).1 =
      (unfold step in step-IsSafe (requests txn id t) m s) in
    (covered, Coherent-alone txn t _ (safe.coherent id) covered)
