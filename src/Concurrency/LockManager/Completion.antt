-- ===== src/Concurrency/LockManager/Completion.antt =====
-- The end of a transaction: what is released.
use transaction_manager.Shared.{
  ℕ, Bool, true, false, ◌||◌, List, [], ◌∷◌, ◌≡◌, refl, ap, sym, subst, ◌∙◌, ◌==◌, if◌then◌else◌,
  arith, Option-cases, Bool-cases, inl, inr, ==_refl,
}
use mathlib.Core.Option.{none as nothing}
use transaction_manager.Shared.OrderedMap.{find}
use transaction_manager.Shared.OrderedSet.{contains, contains-insert}
use transaction_manager.Concurrency.Lock.{Lock}
use transaction_manager.Concurrency.LockManager.State.{
  LockManager, LockRequest, at, init, insert_lock, compatible_with_all, remove_locks, holds,
  is_complete, has_lock, is_waiting,
}
use transaction_manager.Concurrency.LockManager.Request.{grant, touch}
use transaction_manager.Concurrency.LockManager.Release.{
  serve, granted_head, removed, process_wait_queue, after_removal, release_lock, release_each,
  mark_complete, complete_transaction, run, Op,
}
use transaction_manager.Concurrency.LockManager.Sets.{
  read-at-insert, at-with_entry, at-erase_if_empty, has_lock-eq-holds, holds-insert_lock,
  holds-remove_locks,
}
use transaction_manager.Concurrency.LockManager.Rules.{completed-release}
use transaction_manager.Concurrency.LockManager.Tracking.{IsTracked, run-IsTracked, init-IsTracked}

-- The transaction has no request in any queue.
abbrev pub NotWaiting : ℕ → LockManager → Type 0
NotWaiting txn m = (resource : ℕ) → is_waiting txn (at resource m.wait_queues) ≡ false

-- The locks of `txn` and its absence from the queues.
record Leaves (txn : ℕ) (m n : LockManager) : Type 0 where
  same : (r : ℕ) → holds txn (at r n.resource_locks) ≡ holds txn (at r m.resource_locks)
  waits : NotWaiting txn n

serve-Leaves :
    (txn resource : ℕ) (queue : List LockRequest) (m : LockManager)
    → is_waiting txn queue ≡ false
    → NotWaiting txn m
    → Leaves txn m (serve resource queue m)
unfolding serve is_waiting
serve-Leaves txn resource [] m q w = record { same = λ r. refl; waits = w }
serve-Leaves txn resource (q ∷ qs) m h w =
    elim (Bool-cases (compatible_with_all q.lock_type (at resource m.resource_locks))) [
      | inr e ↦ rw e (record { same = λ r. refl; waits = w })
      | inl e ↦
          let m' = granted_head resource q qs m in
          let rest = serve-Leaves txn resource qs m' (ground arith) waits' in
          rw e (record { same = λ r. rest.same r ∙ same' r; waits = rest.waits })
    ]
  where
    other : (q.transaction_id == txn) ≡ false
    other = ground arith

    waits' : NotWaiting txn (granted_head resource q qs m)
    waits' r =
        unfold granted_head in
        ground (arith, read-at-insert r resource m.wait_queues (is_waiting txn) qs, w r)

    same' :
        (r : ℕ)
        → holds txn (at r (granted_head resource q qs m).resource_locks)
          ≡ holds txn (at r m.resource_locks)
    same' r =
        unfold granted_head grant in
        let locks = at resource m.resource_locks in
        let new : Lock = record { transaction_id = q.transaction_id; lock_type = q.lock_type } in
        ground (
          arith,
          read-at-insert r resource m.resource_locks (holds txn)
              (insert_lock (m.place m.allocations) new locks),
          holds-insert_lock txn (m.place m.allocations) new locks,
          other,
        )

process-Leaves :
    (txn resource : ℕ) (m : LockManager)
    → NotWaiting txn m
    → Leaves txn m (process_wait_queue resource m)
unfolding process_wait_queue
process-Leaves txn resource m w = elim (Option-cases (find resource m.wait_queues)) [
  | inl e ↦ rw (e, process_wait_queue) (record { same = λ r. refl; waits = w })
  | inr (queue, e) ↦
      let absent : is_waiting txn queue ≡ false =
        subst (λ x. is_waiting txn x ≡ false) (rw (e, at)) (w resource) in
      let served = serve-Leaves txn resource queue (touch resource m) absent (unfold touch in w) in
      rw (e, process_wait_queue)
        (record {
          same = λ r.
              served.same r
              ∙ ap (holds txn) (unfold touch in at-with_entry r resource m.resource_locks);
          waits = served.waits;
        })
]

-- A release by a completed transaction that waits nowhere takes its locks off that resource, and
-- gives it none anywhere.
release-Leaves :
    (txn resource : ℕ) (m : LockManager)
    → is_complete txn m ≡ true
    → NotWaiting txn m
    → ((r : ℕ)
        → holds txn (at r (release_lock txn resource m).1.resource_locks)
          ≡ (if resource == r then false else holds txn (at r m.resource_locks)))
      × NotWaiting txn (release_lock txn resource m).1
unfolding release_lock
release-Leaves txn resource m c w = elim (Option-cases (find resource m.resource_locks)) [
  | inl e ↦ rw (c, e) (absent (subst (λ x. holds txn x ≡ false) (sym (rw (e, at))) none_held), w)
  | inr (locks, e) ↦
      let same : at resource m.resource_locks ≡ locks = rw (e, at) in
      elim (Bool-cases (holds txn locks)) [
        | inr h ↦ rw (c, e, h) (absent (subst (λ x. holds txn x ≡ false) (sym same) h), w)
        | inl h ↦
            let gone = removed txn resource (remove_locks txn locks) m in
            let out = process-Leaves txn resource gone (unfold removed in w) in
            rw (c, e, h)
              (
                λ r.
                    unfold after_removal in
                    ap (holds txn) (
                      at-erase_if_empty r resource
                        (process_wait_queue resource gone).resource_locks)
                    ∙ out.same r
                    ∙ taken locks r,
                λ r.
                    unfold after_removal in
                    ap (is_waiting txn)
                      (at-erase_if_empty r resource (process_wait_queue resource gone).wait_queues)
                    ∙ out.waits r,
              )
      ]
]
  where
    none_held : holds txn [] ≡ false
    none_held = unfold holds in refl

    absent :
        holds txn (at resource m.resource_locks) ≡ false
        → (r : ℕ)
        → holds txn (at r m.resource_locks)
          ≡ (if resource == r then false else holds txn (at r m.resource_locks))
    absent h r = ground (arith, h)

    taken :
        (locks : List Lock) (r : ℕ)
        → holds txn (at r (removed txn resource (remove_locks txn locks) m).resource_locks)
          ≡ (if resource == r then false else holds txn (at r m.resource_locks))
    taken locks r =
        unfold removed in
        ground (
          arith,
          read-at-insert r resource m.resource_locks (holds txn) (remove_locks txn locks),
          holds-remove_locks txn txn locks,
        )

release_each-Leaves :
    (txn : ℕ) (rs : List ℕ) (b : Bool) (m : LockManager)
    → is_complete txn m ≡ true
    → NotWaiting txn m
    → (r : ℕ)
    → holds txn (at r (release_each txn rs b m).1.resource_locks)
      ≡ (if contains r rs then false else holds txn (at r m.resource_locks))
unfolding release_each contains
release_each-Leaves txn [] b m c w r = refl
release_each-Leaves txn (s ∷ rs) b m c w r =
    let m' = (release_lock txn s m).1 in
    let (released, waits) = release-Leaves txn s m c w in
    let ended : is_complete txn m' ≡ true =
      unfold is_complete in rw (completed-release txn s m) c in
    ground (
      arith,
      release_each-Leaves txn rs (b || (release_lock txn s m).0) m' ended waits r,
      released r,
    )

complete-Leaves :
    (txn : ℕ) (m : LockManager)
    → is_complete txn m ≡ false
    → IsTracked m
    → NotWaiting txn m
    → (r : ℕ) → holds txn (at r (complete_transaction txn m).1.resource_locks) ≡ false
unfolding complete_transaction
complete-Leaves txn m live t w r = elim (Option-cases (find txn m.txn_locks)) [
  | inl e ↦ rw (e, complete_transaction) (unfold mark_complete in t.tracked txn r live ∙ unlisted e)
  | inr (held, e) ↦
      let listed : at txn m.txn_locks ≡ held = rw (e, at) in
      rw (e, complete_transaction)
        (release_each-Leaves txn held false (mark_complete txn m) marked (unfold mark_complete in w)
            r
          ∙ (unfold mark_complete in ground (arith, t.tracked txn r live, ap (contains r) listed)))
]
  where
    unlisted : find txn m.txn_locks ≡ nothing → contains r (at txn m.txn_locks) ≡ false
    unlisted e =
        let books : at txn m.txn_locks ≡ [] = rw (e, at) in rw books (unfold contains in refl)

    marked : is_complete txn (mark_complete txn m) ≡ true
    marked =
        unfold mark_complete is_complete in
        rw (contains-insert txn txn m.completed_transactions, ==_refl txn)

-- After any history of calls, `completeTransaction` of a transaction that has not completed and
-- waits in no queue leaves it without a lock on any resource.
pub complete_releases_all :
    (place : ℕ → ℕ) (ops : List Op) (txn : ℕ)
    → is_complete txn (run ops (init place)) ≡ false
    → NotWaiting txn (run ops (init place))
    → (resource : ℕ)
    → has_lock txn resource (complete_transaction txn (run ops (init place))).1 ≡ false
complete_releases_all place ops txn live w resource = rw has_lock-eq-holds (
    complete-Leaves txn (run ops (init place)) live
      (run-IsTracked ops (init place) (init-IsTracked place)) w resource)
