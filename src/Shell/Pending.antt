-- ===== src/Shell/Pending.antt =====
-- The end of the loop over the pending commands.
use transaction_manager.Shared.{
  ℕ, zero, suc, ◌≤◌, ◌<◌, Bool, true, false, some, List, [], ◌∷◌, length, Bytes, Result, ok, raise,
  ◌>>=◌, ◌≡◌, refl, Option-cases, inl, inr, arith,
}
use transaction_manager.Shell.State.{Shell, Command, Clock}
use transaction_manager.Shell.Commands.{
  Swept, keep, active_txn, announce, execute_command, sweep, rounds, process_pending,
}

-- What one round over `n` commands leaves: not more of them, and fewer if it executed one.
abbrev Shrinks : ℕ → Bool → Result Swept → Type 0
Shrinks n before (raise e) = Unit
Shrinks n true (ok (kept, progress, resumed, sh)) = length kept ≤ n
Shrinks n false (ok (kept, true, resumed, sh)) = length kept < n
Shrinks n false (ok (kept, false, resumed, sh)) = length kept ≤ n

weaken : (n : ℕ) (before : Bool) (x : Result Swept) → Shrinks n before x → Shrinks (suc n) before x
weaken n before (raise e) h = tt
weaken n true (ok (kept, progress, resumed, sh)) h = omega (arith, h)
weaken n false (ok (kept, true, resumed, sh)) h = omega (arith, h)
weaken n false (ok (kept, false, resumed, sh)) h = omega (arith, h)

executed-Shrinks :
    (n : ℕ) (before : Bool) (x : Result Swept) → Shrinks n true x → Shrinks (suc n) before x
executed-Shrinks n before (raise e) h = tt
executed-Shrinks n true (ok (kept, progress, resumed, sh)) h = omega (arith, h)
executed-Shrinks n false (ok (kept, true, resumed, sh)) h = omega (arith, h)
executed-Shrinks n false (ok (kept, false, resumed, sh)) h = omega (arith, h)

kept-Shrinks :
    (n : ℕ) (before : Bool) (cmd : Command) (x : Result Swept)
    → Shrinks n before x
    → Shrinks (suc n) before (x >>= λ s. ok (keep cmd s))
kept-Shrinks n before cmd (raise e) h = tt
kept-Shrinks n true cmd (ok (kept, progress, resumed, sh)) h = omega (arith, h)
kept-Shrinks n false cmd (ok (kept, true, resumed, sh)) h = omega (arith, h)
kept-Shrinks n false cmd (ok (kept, false, resumed, sh)) h = omega (arith, h)

bind-Shrinks {ℓ} :
    {A : Type ℓ} (n : ℕ) (before : Bool) (x : Result A) (f : A → Result Swept)
    → ((a : A) → Shrinks n before (f a))
    → Shrinks n before (x >>= f)
bind-Shrinks n before (raise e) f h = tt
bind-Shrinks n before (ok a) f h = h a

branch-Shrinks :
    (n : ℕ) (before executed : Bool) (x y : Result Swept)
    → Shrinks n before x
    → Shrinks n before y
    → Shrinks n before (elim executed [ true ↦ x | false ↦ y ])
branch-Shrinks n before true x y h k = h
branch-Shrinks n before false x y h k = k

sweep-Shrinks :
    (clock : Clock) (cmds : List Command) (before : Bool) (resumed : List Bytes) (sh : Shell)
    → Shrinks (length cmds) before (sweep clock cmds before resumed sh)
unfolding sweep
sweep-Shrinks clock [] true resumed sh = omega arith
sweep-Shrinks clock [] false resumed sh = omega arith
sweep-Shrinks clock (cmd ∷ rest) before resumed sh =
    elim (Option-cases (active_txn cmd.txn_label sh)) [
      | inl e ↦
          rw (e, sweep)
            (weaken (length rest) before (sweep clock rest before resumed sh)
              (sweep-Shrinks clock rest before resumed sh))
      | inr (txn, e) ↦
          rw (e, sweep)
            (bind-Shrinks (suc (length rest)) before (announce clock cmd txn resumed sh) _
              (λ (resumed', sh').
                bind-Shrinks (suc (length rest)) before (execute_command clock cmd true sh') _
                  (λ (executed, sh'').
                    branch-Shrinks (suc (length rest)) before executed _ _
                      (executed-Shrinks (length rest) before (sweep clock rest true resumed' sh'')
                        (sweep-Shrinks clock rest true resumed' sh''))
                      (kept-Shrinks (length rest) before cmd (sweep clock rest before resumed' sh'')
                        (sweep-Shrinks clock rest before resumed' sh'')))))
    ]

-- What the loop does after a round, if later rounds on fewer commands end.
round :
    (fuel : ℕ) (clock : Clock) (n : ℕ) (x : Result Swept)
    → Shrinks n false x
    → ((resumed : List Bytes) (sh : Shell)
        → length sh.pending < n
        → (result : Result Shell) × (rounds fuel clock resumed sh ≡ some result))
    → (result : Result Shell) × (elim x [
      | raise e ↦ some (raise e)
      | ok (kept, progress, resumed', sh') ↦ elim progress [
        | true ↦ rounds fuel clock resumed' (record sh' { pending = kept })
        | false ↦ some (ok (record sh' { pending = kept }))
      ]
    ]
        ≡ some result)
round fuel clock n (raise e) h rest = (raise e, refl)
round fuel clock n (ok (kept, true, resumed, sh)) h rest =
    rest resumed (record sh { pending = kept }) h
round fuel clock n (ok (kept, false, resumed, sh)) h rest =
    (ok (record sh { pending = kept }), refl)

-- With more fuel than there are pending commands the loop ends.
rounds_end :
    (fuel : ℕ) (clock : Clock) (resumed : List Bytes) (sh : Shell)
    → length sh.pending < fuel
    → (result : Result Shell) × (rounds fuel clock resumed sh ≡ some result)
unfolding rounds
rounds_end zero clock resumed sh room = absurd (omega (arith, room))
rounds_end (suc fuel) clock resumed sh room =
    round fuel clock (length sh.pending) (sweep clock sh.pending false resumed sh)
      (sweep-Shrinks clock sh.pending false resumed sh)
      (λ resumed' sh' less. rounds_end fuel clock resumed' sh' (omega (arith, less, room)))

-- `processPending` always ends: the rounds repeat only as long as one of them executes a pending
-- command, and such a round leaves fewer of them.
pub process_pending_ends :
    (clock : Clock) (sh : Shell)
    → (result : Result Shell) × (process_pending clock sh ≡ some result)
unfolding process_pending
process_pending_ends clock sh = rounds_end (suc (length sh.pending)) clock [] sh (omega arith)
