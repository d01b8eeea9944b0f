-- ===== src/Concurrency/LockManager/Tracking.antt =====
-- The bookkeeping of `txn_locks_`.
use transaction_manager.Shared.{
  ℕ, true, false, ◌||◌, List, [], ◌∷◌, ◌≡◌, refl, ap, sym, ◌∙◌, ◌==◌, arith, Bool-cases, inl, inr,
  ==_iff, ==_refl, is_some,
}
use transaction_manager.Shared.OrderedMap
use transaction_manager.Shared.OrderedMap.{OrderedMap, find, find-insert}
use transaction_manager.Shared.OrderedSet
use transaction_manager.Shared.OrderedSet.{OrderedSet, contains, contains-insert, contains-erase}
use transaction_manager.Enums.{LockType}
use transaction_manager.Concurrency.Lock.{Lock}
use transaction_manager.Concurrency.LockManager.State.{
  LockManager, LockRequest, at, init, insert_lock, erase_lock, compatible_with_all, remove_locks,
  holds, is_complete, has_lock,
}
use transaction_manager.Concurrency.LockManager.Request.{
  grant, enqueue, touch, upgrade, acquire, request_lock_on_resource, set_resource_parent,
}
use transaction_manager.Concurrency.LockManager.Release.{
  granted_head, removed, process_wait_queue, after_removal, release_lock, mark_complete, forget, Op,
  parents, requests, releases, completes, step, run,
}
use transaction_manager.Concurrency.LockManager.Sets.{
  at-insert, at-erase, read-at-insert, at-with_entry, at-erase_if_empty, has_lock-eq-holds,
  holds-insert_lock, holds-erase_own, holds-remove_locks,
}
use transaction_manager.Concurrency.LockManager.Rules.{
  request_on_rule, request_lock_rule, process_wait_queue_rule, release_lock_cases, complete_rule,
  completed-release,
}

-- Of a transaction that has not completed, `txn_locks_` lists exactly the resources it holds.
pub record IsTracked (m : LockManager) : Type 0 where
  pub tracked :
      (txn resource : ℕ)
      → is_complete txn m ≡ false
      → holds txn (at resource m.resource_locks) ≡ contains resource (at txn m.txn_locks)

touch-IsTracked : (resource : ℕ) (m : LockManager) → IsTracked m → IsTracked (touch resource m)
unfolding touch is_complete
touch-IsTracked resource m h = record { tracked = λ u r c. rw at-with_entry (h.tracked u r c) }

grant-IsTracked :
    (txn resource : ℕ) (t : LockType) (ls : List Lock) (m : LockManager)
    → ((u : ℕ) → (txn == u || holds u ls) ≡ (txn == u || holds u (at resource m.resource_locks)))
    → IsTracked m
    → IsTracked (grant txn resource t ls m)
unfolding grant is_complete
grant-IsTracked txn resource t ls m same h = record {
  tracked = λ u r c. ground (
    arith,
    read-at-insert r resource m.resource_locks (holds u)
        (insert_lock (m.place m.allocations) new ls),
    read-at-insert u txn m.txn_locks (contains r) (OrderedSet.insert resource (at txn m.txn_locks)),
    holds-insert_lock u (m.place m.allocations) new ls,
    contains-insert r resource (at txn m.txn_locks),
    same u,
    h.tracked u r c,
    h.tracked u resource c,
  );
}
  where
    new : Lock
    new = record { transaction_id = txn; lock_type = t }

enqueue-IsTracked :
    (txn resource : ℕ) (t : LockType) (m : LockManager)
    → IsTracked m
    → IsTracked (enqueue txn resource t m)
unfolding enqueue is_complete
enqueue-IsTracked txn resource t m h = record { tracked = h.tracked }

upgrade-IsTracked :
    (txn resource : ℕ) (t : LockType) (lock : Lock) (m : LockManager)
    → IsTracked m
    → IsTracked (upgrade txn resource t lock m).1
unfolding upgrade
upgrade-IsTracked txn resource t lock m h =
    let locks = at resource m.resource_locks in
    ground (
      arith,
      grant-IsTracked txn resource t (erase_lock txn locks) m (λ u. holds-erase_own u txn locks) h,
      enqueue-IsTracked txn resource t m h,
    )

acquire-IsTracked :
    (txn resource : ℕ) (t : LockType) (m : LockManager)
    → IsTracked m
    → IsTracked (acquire txn resource t m).1
unfolding acquire
acquire-IsTracked txn resource t m h = ground (
  arith,
  grant-IsTracked txn resource t (at resource m.resource_locks) m (λ u. refl) h,
  enqueue-IsTracked txn resource t m h,
)

request_on-IsTracked :
    (txn resource : ℕ) (t : LockType) (m : LockManager)
    → IsTracked m
    → IsTracked (request_lock_on_resource txn resource t m).1
request_on-IsTracked = request_on_rule IsTracked touch-IsTracked upgrade-IsTracked acquire-IsTracked

granted_head-IsTracked :
    (resource : ℕ) (r : LockRequest) (rs : List LockRequest) (m : LockManager)
    → compatible_with_all r.lock_type (at resource m.resource_locks) ≡ true
    → IsTracked m
    → IsTracked (granted_head resource r rs m)
unfolding granted_head is_complete
granted_head-IsTracked resource r rs m _ h =
    let g =
      grant-IsTracked r.transaction_id resource r.lock_type (at resource m.resource_locks) m
        (λ u. refl) h in
    record { tracked = g.tracked }

-- The bookkeeping of `releaseLock` reads the same for every other transaction.
at-forget :
    (u txn resource : ℕ) (held : OrderedMap OrderedSet)
    → (txn == u) ≡ false
    → at u (forget txn resource held) ≡ at u held
unfolding forget
at-forget u txn resource held ne = elim (Bool-cases (is_some (find txn held))) [
  | inr e ↦ rw e
  | inl e ↦ rw (e, at-erase_if_empty, at-insert, ne)
]

live_differs :
    (txn u : ℕ) (m : LockManager)
    → is_complete txn m ≡ true
    → is_complete u m ≡ false
    → (txn == u) ≡ false
live_differs txn u m c d = elim (Bool-cases (txn == u)) [
  | inr e ↦ e
  | inl e ↦ absurd (ground (arith, ap (λ (k : ℕ). is_complete k m) ((==_iff txn u).0 e)))
]

removed-IsTracked :
    (txn resource : ℕ) (m : LockManager)
    → is_complete txn m ≡ true
    → IsTracked m
    → IsTracked (removed txn resource (remove_locks txn (at resource m.resource_locks)) m)
unfolding removed is_complete
removed-IsTracked txn resource m c h = record {
  tracked = λ u r d.
      let locks = at resource m.resource_locks in
      let ne = live_differs txn u m c d in
      ground (
        arith,
        read-at-insert r resource m.resource_locks (holds u) (remove_locks txn locks),
        holds-remove_locks u txn locks,
        ne,
        ap (contains r) (at-forget u txn resource m.txn_locks ne),
        h.tracked u r d,
      );
}

release-IsTracked :
    (txn resource : ℕ) (m : LockManager) → IsTracked m → IsTracked (release_lock txn resource m).1
release-IsTracked txn resource m s = release_lock_cases IsTracked txn resource m s λ c h.
    unfold after_removal is_complete in
    let locks = remove_locks txn (at resource m.resource_locks) in
    let end =
      process_wait_queue_rule IsTracked resource (granted_head-IsTracked resource)
        (touch-IsTracked resource) (removed txn resource locks m)
        (removed-IsTracked txn resource m c s) in
    record {
      tracked = λ u r d.
          ap (holds u) (
            at-erase_if_empty r resource
              (process_wait_queue resource (removed txn resource locks m)).resource_locks)
          ∙ end.tracked u r d;
    }

-- A transaction that is complete is owed no bookkeeping.
record Drops (txn : ℕ) (m : LockManager) : Type 0 where
  ended : is_complete txn m ≡ true
  books : IsTracked m

release-Drops :
    (txn resource : ℕ) (m : LockManager) → Drops txn m → Drops txn (release_lock txn resource m).1
release-Drops txn resource m d = record {
  ended = unfold is_complete in rw (completed-release txn resource m) d.ended;
  books = release-IsTracked txn resource m d.books;
}

dropped-Drops :
    (txn : ℕ) (m : LockManager)
    → Drops txn m
    → Drops txn (record m { txn_locks = OrderedMap.erase txn m.txn_locks })
unfolding is_complete
dropped-Drops txn m d = record {
  ended = d.ended;
  books = record {
    tracked = λ u r c.
        d.books.tracked u r c
        ∙ sym
            (ap (contains r) (at-erase u txn m.txn_locks ∙ (rw (live_differs txn u m d.ended c))));
  };
}

pub step-IsTracked : (op : Op) (m : LockManager) → IsTracked m → IsTracked (step op m)
unfolding step
step-IsTracked (parents child parent) m s =
    unfold set_resource_parent is_complete in record { tracked = s.tracked }
step-IsTracked (requests txn resource t) m s =
    request_lock_rule IsTracked txn (request_on-IsTracked txn) resource t m s
step-IsTracked (releases txn resource) m s = release-IsTracked txn resource m s
step-IsTracked (completes txn) m s =
    (complete_rule (Drops txn) txn (release-Drops txn) (dropped-Drops txn) m
      (record { ended = marked; books = books })).books
  where
    marked : is_complete txn (mark_complete txn m) ≡ true
    marked =
        unfold mark_complete is_complete in
        rw (contains-insert txn txn m.completed_transactions, ==_refl txn)

    books : IsTracked (mark_complete txn m)
    books =
        unfold mark_complete is_complete in
        record {
          tracked = λ u r c. s.tracked u r (
              unfold is_complete in ground (arith, contains-insert u txn m.completed_transactions));
        }

pub run-IsTracked : (ops : List Op) (m : LockManager) → IsTracked m → IsTracked (run ops m)
unfolding run
run-IsTracked [] m s = s
run-IsTracked (op ∷ ops) m s = run-IsTracked ops (step op m) (step-IsTracked op m s)

pub init-IsTracked : (place : ℕ → ℕ) → IsTracked (init place)
unfolding init find is_complete holds contains
init-IsTracked place = record { tracked = λ u r c. refl }

-- After any history of calls, `txn_locks_` of a transaction that has not completed lists exactly
-- the resources on which it holds a lock.
pub txn_locks_exact :
    (place : ℕ → ℕ) (ops : List Op) (txn resource : ℕ)
    → is_complete txn (run ops (init place)) ≡ false
    → has_lock txn resource (run ops (init place))
      ≡ contains resource (at txn (run ops (init place)).txn_locks)
txn_locks_exact place ops txn resource live =
    has_lock-eq-holds txn resource (run ops (init place))
    ∙ (run-IsTracked ops (init place) (init-IsTracked place)).tracked txn resource live
