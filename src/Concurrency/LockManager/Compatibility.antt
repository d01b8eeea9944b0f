-- ===== src/Concurrency/LockManager/Compatibility.antt =====
-- Conflicting locks on one resource.
use transaction_manager.Shared.{
  ℕ, zero, suc, true, List, [], ◌∷◌, ◌≡◌, refl, ap, sym, ◌∙◌, arith, inl, inr,
}
use mathlib.Core.List.{Memᴰ}
use mathlib.Core.List.Memᴰ
use transaction_manager.Shared.OrderedMap
use transaction_manager.Shared.OrderedMap.{OrderedMap, find}
use transaction_manager.Enums.{LockType}
use transaction_manager.Concurrency.Lock.{Lock, conflicts, conflicts_comm}
use transaction_manager.Concurrency.LockManager.State.{
  LockManager, LockRequest, at, init, insert_lock, erase_lock, compatible_with_others,
  compatible_with_all, remove_locks,
}
use transaction_manager.Concurrency.LockManager.Request.{
  grant, enqueue, touch, upgrade, acquire, request_lock_on_resource, set_resource_parent,
}
use transaction_manager.Concurrency.LockManager.Release.{
  granted_head, removed, after_removal, release_lock, mark_complete, Op, parents, requests,
  releases, completes, step, run,
}
use transaction_manager.Concurrency.LockManager.Sets.{
  at-insert, at-with_entry, at-erase_if_empty, others-insert_lock, others-erase_lock,
  others-remove_locks, others_of_all,
}
use transaction_manager.Concurrency.LockManager.Rules.{
  request_on_rule, request_lock_rule, process_wait_queue_rule, release_lock_cases, complete_rule,
}

-- Each lock is compatible with the later ones of other transactions.
abbrev pub Coherent : List Lock → Type 0
Coherent [] = Unit
Coherent (l ∷ ls) = (compatible_with_others l.transaction_id l.lock_type ls ≡ true) × Coherent ls

insert_lock-Coherent :
    (i : ℕ) (new : Lock) (ls : List Lock)
    → compatible_with_others new.transaction_id new.lock_type ls ≡ true
    → Coherent ls
    → Coherent (insert_lock i new ls)
unfolding insert_lock compatible_with_others
insert_lock-Coherent i new [] h c = (refl, tt)
insert_lock-Coherent zero new (l ∷ ls) h c = (h, c)
insert_lock-Coherent (suc i) new (l ∷ ls) h c = ground (
  arith,
  insert_lock-Coherent i new ls,
  others-insert_lock l.transaction_id l.lock_type i new ls,
  conflicts_comm l.lock_type new.lock_type,
)

erase_lock-Coherent : (txn : ℕ) (ls : List Lock) → Coherent ls → Coherent (erase_lock txn ls)
unfolding erase_lock
erase_lock-Coherent txn [] c = tt
erase_lock-Coherent txn (l ∷ ls) c = ground (
  arith,
  erase_lock-Coherent txn ls c.1,
  others-erase_lock l.transaction_id l.lock_type txn ls c.0,
)

remove_locks-Coherent : (txn : ℕ) (ls : List Lock) → Coherent ls → Coherent (remove_locks txn ls)
unfolding remove_locks
remove_locks-Coherent txn [] c = tt
remove_locks-Coherent txn (l ∷ ls) c = ground (
  arith,
  remove_locks-Coherent txn ls c.1,
  others-remove_locks l.transaction_id l.lock_type txn ls c.0,
)

pub record IsSafe (m : LockManager) : Type 0 where
  pub coherent : (resource : ℕ) → Coherent (at resource m.resource_locks)

-- The set of one resource is replaced by a coherent one.
replaced-IsSafe :
    (k r : ℕ) (ls : List Lock) (locks : OrderedMap (List Lock))
    → Coherent ls
    → Coherent (at r locks)
    → Coherent (at r (OrderedMap.insert k ls locks))
replaced-IsSafe k r ls locks c d = rw at-insert (ground arith)

touch-IsSafe : (resource : ℕ) (m : LockManager) → IsSafe m → IsSafe (touch resource m)
unfolding touch
touch-IsSafe resource m s = record { coherent = λ r. rw at-with_entry (s.coherent r) }

grant-IsSafe :
    (txn resource : ℕ) (t : LockType) (ls : List Lock) (m : LockManager)
    → compatible_with_others txn t ls ≡ true
    → Coherent ls
    → IsSafe m
    → IsSafe (grant txn resource t ls m)
unfolding grant
grant-IsSafe txn resource t ls m h c s = record {
  coherent = λ r.
      replaced-IsSafe resource r _ m.resource_locks
        (insert_lock-Coherent (m.place m.allocations)
          (record { transaction_id = txn; lock_type = t }) ls h c)
        (s.coherent r);
}

enqueue-IsSafe :
    (txn resource : ℕ) (t : LockType) (m : LockManager)
    → IsSafe m
    → IsSafe (enqueue txn resource t m)
unfolding enqueue
enqueue-IsSafe txn resource t m s = record { coherent = s.coherent }

upgrade-IsSafe :
    (txn resource : ℕ) (t : LockType) (held : Lock) (m : LockManager)
    → IsSafe m
    → IsSafe (upgrade txn resource t held m).1
unfolding upgrade
upgrade-IsSafe txn resource t held m s =
    let locks = at resource m.resource_locks in
    ground (
      arith,
      grant-IsSafe txn resource t (erase_lock txn locks) m,
      others-erase_lock txn t txn locks,
      erase_lock-Coherent txn locks (s.coherent resource),
      enqueue-IsSafe txn resource t m s,
    )

acquire-IsSafe :
    (txn resource : ℕ) (t : LockType) (m : LockManager)
    → IsSafe m
    → IsSafe (acquire txn resource t m).1
unfolding acquire
acquire-IsSafe txn resource t m s =
    let locks = at resource m.resource_locks in
    ground (
      arith,
      grant-IsSafe txn resource t locks m,
      others_of_all txn t locks,
      s.coherent resource,
      enqueue-IsSafe txn resource t m s,
    )

request_on-IsSafe :
    (txn resource : ℕ) (t : LockType) (m : LockManager)
    → IsSafe m
    → IsSafe (request_lock_on_resource txn resource t m).1
request_on-IsSafe = request_on_rule IsSafe touch-IsSafe upgrade-IsSafe acquire-IsSafe

granted_head-IsSafe :
    (resource : ℕ) (r : LockRequest) (rs : List LockRequest) (m : LockManager)
    → compatible_with_all r.lock_type (at resource m.resource_locks) ≡ true
    → IsSafe m
    → IsSafe (granted_head resource r rs m)
unfolding granted_head
granted_head-IsSafe resource r rs m h s =
    let locks = at resource m.resource_locks in
    let g =
      grant-IsSafe r.transaction_id resource r.lock_type locks m
        (others_of_all r.transaction_id r.lock_type locks h) (s.coherent resource) s in
    record { coherent = g.coherent }

release-IsSafe :
    (txn resource : ℕ) (m : LockManager) → IsSafe m → IsSafe (release_lock txn resource m).1
release-IsSafe txn resource m s = release_lock_cases IsSafe txn resource m s λ c h.
    unfold after_removal in
    let locks = remove_locks txn (at resource m.resource_locks) in
    let start : IsSafe (removed txn resource locks m) =
      unfold removed in
      record {
        coherent = λ r.
            replaced-IsSafe resource r locks m.resource_locks
              (remove_locks-Coherent txn (at resource m.resource_locks) (s.coherent resource))
              (s.coherent r);
      } in
    let end =
      process_wait_queue_rule IsSafe resource (granted_head-IsSafe resource) (touch-IsSafe resource)
        (removed txn resource locks m) start in
    record { coherent = λ r. rw at-erase_if_empty (end.coherent r) }

-- Every call keeps conflicting locks apart.
pub step-IsSafe : (op : Op) (m : LockManager) → IsSafe m → IsSafe (step op m)
unfolding step
step-IsSafe (parents child parent) m s =
    unfold set_resource_parent in record { coherent = s.coherent }
step-IsSafe (requests txn resource t) m s =
    request_lock_rule IsSafe txn (request_on-IsSafe txn) resource t m s
step-IsSafe (releases txn resource) m s = release-IsSafe txn resource m s
step-IsSafe (completes txn) m s =
    complete_rule IsSafe txn (release-IsSafe txn) (λ n t. record { coherent = t.coherent }) m
      (unfold mark_complete in record { coherent = s.coherent })

run-IsSafe : (ops : List Op) (m : LockManager) → IsSafe m → IsSafe (run ops m)
unfolding run
run-IsSafe [] m s = s
run-IsSafe (op ∷ ops) m s = run-IsSafe ops (step op m) (step-IsSafe op m s)

pub init-IsSafe : (place : ℕ → ℕ) → IsSafe (init place)
unfolding init find
init-IsSafe place = record { coherent = λ r. tt }

others_agree :
    (txn : ℕ) (t : LockType) (a : Lock) (ls : List Lock)
    → compatible_with_others txn t ls ≡ true
    → Memᴰ a ls
    → conflicts a.lock_type t ≡ true
    → a.transaction_id ≡ txn
unfolding compatible_with_others
others_agree txn t a (l ∷ ls) h m c = elim (Memᴰ.cases_cons m) [
  | inl e ↦ ground arith
  | inr rest ↦ others_agree txn t a ls (ground arith) rest c
]
others_agree txn t a [] h m c = absurd (Memᴰ.not-nil m)

pub Coherent-pairs :
    (a b : Lock) (ls : List Lock)
    → Coherent ls
    → Memᴰ a ls
    → Memᴰ b ls
    → conflicts a.lock_type b.lock_type ≡ true
    → a.transaction_id ≡ b.transaction_id
Coherent-pairs a b [] c ma mb x = absurd (Memᴰ.not-nil ma)
Coherent-pairs a b (l ∷ ls) c ma mb x = elim (Memᴰ.cases_cons ma) [
  | inl ea ↦ elim (Memᴰ.cases_cons mb) [
    | inl eb ↦ ap (λ (z : Lock). z.transaction_id) (ea ∙ sym eb)
    | inr mb' ↦ rw ea (
        sym (
          others_agree l.transaction_id l.lock_type b ls c.0 mb'
            (conflicts_comm b.lock_type l.lock_type ∙ (rw ea at x))))
  ]
  | inr ma' ↦ elim (Memᴰ.cases_cons mb) [
    | inl eb ↦ rw eb (others_agree l.transaction_id l.lock_type a ls c.0 ma' (rw eb at x))
    | inr mb' ↦ Coherent-pairs a b ls c.1 ma' mb' x
  ]
]

-- Whatever calls are made, in any order and with any layout of the sets, two locks on one resource
-- that conflict belong to the same transaction.
pub conflicting_locks_same_owner :
    (place : ℕ → ℕ) (ops : List Op) (resource : ℕ) (a b : Lock)
    → Memᴰ a (at resource (run ops (init place)).resource_locks)
    → Memᴰ b (at resource (run ops (init place)).resource_locks)
    → conflicts a.lock_type b.lock_type ≡ true
    → a.transaction_id ≡ b.transaction_id
conflicting_locks_same_owner place ops resource a b =
    Coherent-pairs a b (at resource (run ops (init place)).resource_locks)
      ((run-IsSafe ops (init place) (init-IsSafe place)).coherent resource)
