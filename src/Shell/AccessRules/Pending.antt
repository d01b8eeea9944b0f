-- ===== src/Shell/AccessRules/Pending.antt =====
-- What holds of the state through the loop over the pending commands.
use transaction_manager.Shared.{
  ℕ, zero, suc, Bool, true, false, Option, none, some, List, [], ◌∷◌, Bytes, ◌||◌, Result, ok,
  raise, ◌>>=◌, ◌≡◌, subst, inl, inr, Bool-cases, Option-cases, All,
}
use transaction_manager.Shared.Text.{str_eq}
use transaction_manager.Concurrency.LockManager.State.{has_lock}
use transaction_manager.Shell.State.{Shell, Command, Clock, ensure_resource}
use transaction_manager.Shell.Commands.{
  active_txn, execute_command, is_listed, announce, Swept, keep, sweep, rounds, process_pending,
}
use transaction_manager.Shell.Pending.{process_pending_ends}
use transaction_manager.Shell.Rules.{
  Returns, bind-Returns, Fits, Then, say_rule, ensure_resource_rule,
}
use transaction_manager.Shell.AccessRules.{KeepsAccess, execute_command_rule}

module _ (C : Command → Type 0) (P : Shell → Type 0) (rules : KeepsAccess C P) (clock : Clock)
    (fits : Fits clock) where
  announce_rule :
      (cmd : Command) (txn : ℕ) (resumed : List Bytes) (sh : Shell)
      → P sh
      → Returns (Then P) (announce clock cmd txn resumed sh)
  unfolding announce
  announce_rule cmd txn resumed sh p =
      elim (Bool-cases (is_listed cmd.txn_label resumed || str_eq cmd.resource_name [])) [
        | inl e ↦ rw e p
        | inr e ↦ rw e (
            bind-Returns (Then P) (Then P) (ensure_resource clock cmd.resource_name sh) _
              (ensure_resource_rule P rules.resources clock cmd.resource_name sh p)
              (λ (id, sh') p'. elim (Bool-cases (has_lock txn id sh'.lock_mgr)) [
                | inl h ↦ rw h (say_rule P rules.resources _ sh' p')
                | inr h ↦ rw h p'
              ]))
      ]

  abbrev SweptWell : Swept → Type 0
  SweptWell (kept, progress, resumed, sh) = All C kept × P sh

  sweep_rule :
      (cmds : List Command) (progress : Bool) (resumed : List Bytes) (sh : Shell)
      → All C cmds
      → P sh
      → Returns SweptWell (sweep clock cmds progress resumed sh)
  unfolding sweep
  sweep_rule [] progress resumed sh small p = (tt, p)
  sweep_rule (cmd ∷ rest) progress resumed sh small p =
      elim (Option-cases (active_txn cmd.txn_label sh)) [
        | inl e ↦ rw (e, sweep) (sweep_rule rest progress resumed sh small.1 p)
        | inr (txn, e) ↦
            rw (e, sweep)
              (bind-Returns (Then P) SweptWell (announce clock cmd txn resumed sh) _
                (announce_rule cmd txn resumed sh p)
                (λ (resumed', sh') p'.
                  bind-Returns (Then P) SweptWell (execute_command clock cmd true sh') _
                    (execute_command_rule C P rules clock fits cmd true sh' small.0 p')
                    (λ (executed, sh'') p''.
                      swept_branch executed cmd small.0 (sweep clock rest true resumed' sh'')
                        (sweep clock rest progress resumed' sh'')
                        (sweep_rule rest true resumed' sh'' small.1 p'')
                        (sweep_rule rest progress resumed' sh'' small.1 p''))))
      ]
    where
      swept_branch :
          (executed : Bool) (cmd : Command)
          → C cmd
          → (x y : Result Swept) → Returns SweptWell x
          → Returns SweptWell y
          → Returns SweptWell (elim executed [ true ↦ x | false ↦ y >>= λ s. ok (keep cmd s) ])
      swept_branch true cmd small x y h k = h
      swept_branch false cmd small x y h k =
          bind-Returns SweptWell SweptWell y (λ s. ok (keep cmd s)) k
            (λ (kept, progress, resumed, sh) w. ((small, w.0), w.1))

  -- If the loop ends within the fuel, it returns a state that satisfies `P`.
  abbrev IfEnds : Option (Result Shell) → Type 0
  IfEnds none = Unit
  IfEnds (some x) = Returns P x

  rounds_rule :
      (fuel : ℕ) (resumed : List Bytes) (sh : Shell) → P sh → IfEnds (rounds fuel clock resumed sh)
  unfolding rounds
  rounds_rule zero resumed sh p = tt
  rounds_rule (suc fuel) resumed sh p =
      after_sweep (sweep clock sh.pending false resumed sh)
        (sweep_rule sh.pending false resumed sh (rules.waiting sh p) p)
        (λ resumed' sh' p'. rounds_rule fuel resumed' sh' p')
    where
      after_sweep :
          (x : Result Swept)
          → Returns SweptWell x
          → ((resumed' : List Bytes) (sh' : Shell)
              → P sh'
              → IfEnds (rounds fuel clock resumed' sh'))
          → IfEnds (elim x [
            | raise e ↦ some (raise e)
            | ok (kept, progress, resumed', sh') ↦ elim progress [
              | true ↦ rounds fuel clock resumed' (record sh' { pending = kept })
              | false ↦ some (ok (record sh' { pending = kept }))
            ]
          ])
      after_sweep (raise e) h rest = absurd h
      after_sweep (ok (kept, true, resumed', sh')) h rest =
          rest resumed' (record sh' { pending = kept }) (rules.pend kept sh' h.0 h.1)
      after_sweep (ok (kept, false, resumed', sh')) h rest = rules.pend kept sh' h.0 h.1

  pub process_pending_rule :
      (sh : Shell) → P sh → (sh' : Shell) × (process_pending clock sh ≡ some (ok sh')) × P sh'
  process_pending_rule sh p =
      let (result, e) = process_pending_ends clock sh in
      let safe : IfEnds (process_pending clock sh) =
        unfold process_pending in rounds_rule _ [] sh p in
      returned result e (subst IfEnds e safe)
    where
      returned :
          (result : Result Shell)
          → process_pending clock sh ≡ some result
          → Returns P result
          → (sh' : Shell) × (process_pending clock sh ≡ some (ok sh')) × P sh'
      returned (ok sh') e h = (sh', e, h)
      returned (raise x) e h = absurd h
