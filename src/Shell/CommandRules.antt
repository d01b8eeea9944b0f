-- ===== src/Shell/CommandRules.antt =====
-- What holds of the state through a whole run: every line returns, and keeps what the elementary
-- changes keep.
use transaction_manager.Shared.{
  ℕ, suc, Bool, true, false, Option, none, some, [], ◌∷◌, ◌++◌, Bytes, ◌||◌, if◌then◌else◌, Result,
  ok, raise, ◌≡◌, refl, inl, inr, Bool-cases, Option-cases, All-append,
}
use transaction_manager.Shared.Text.{str_eq}
use transaction_manager.Transaction.TransactionManager.{
  TransactionManager, commit_transaction, abort_transaction,
}
use transaction_manager.Recovery.LogRecord.{LogType, commit, abort, checkpoint}
use transaction_manager.Recovery.LogManager.{flush_logs}
use transaction_manager.Shell.State.{
  Shell, Command, Clock, Event, not_found, not_active, committed, aborted, unknown, shown,
  checkpoint_written, lookup, ensure_resource,
}
use transaction_manager.Shell.Commands.{say, log, execute_command, has_pending_for_txn}
use transaction_manager.Shell.Dispatch.{
  begun, begin_command, pend, access_command, ended, finish_transaction, commit_command,
  abort_command, show_command, status_command, checkpoint_command, recover_command, execute_line,
}
use transaction_manager.Shell.Values.{current_value_exists}
use transaction_manager.Shell.Rules.{
  Returns, bind-Returns, Fits, Then, say_rule, ensure_resource_rule,
}
use transaction_manager.Shell.AccessRules.{KeepsAccess, execute_command_rule}
use transaction_manager.Shell.AccessRules.Pending.{process_pending_rule}

-- What each command leaves true; `n` counts the lines, of which each begins one transaction at most.
pub record KeepsCommands (C : Command → Type 0) (P : ℕ → Shell → Type 0) : Type 0 where
  pub accesses : (n : ℕ) → KeepsAccess C (P n)
  pub more : (n : ℕ) (sh : Shell) → P n sh → P (suc n) sh
  pub begins :
      (n : ℕ) (clock : Clock) (label : Bytes) (sh : Shell)
      → Fits clock
      → lookup label sh.txn_ids ≡ none
      → P n sh
      → P (suc n) (begun clock label sh)
  pub commits :
      (n : ℕ) (clock : Clock) (label : Bytes) (txn : ℕ) (sh : Shell)
      → Fits clock
      → lookup label sh.txn_ids ≡ some txn
      → (commit_transaction txn (clock.system txn) sh.tm).0 ≡ true
      → P n sh
      → P n (ended clock txn commit (commit_transaction txn (clock.system txn) sh.tm).1 sh)
  pub aborts :
      (n : ℕ) (clock : Clock) (label : Bytes) (txn : ℕ) (sh : Shell)
      → Fits clock
      → lookup label sh.txn_ids ≡ some txn
      → (abort_transaction txn (clock.system txn) sh.tm).0 ≡ true
      → P n sh
      → P n (ended clock txn abort (abort_transaction txn (clock.system txn) sh.tm).1 sh)
  pub checkpoints :
      (n : ℕ) (clock : Clock) (sh : Shell)
      → Fits clock
      → P n sh
      → P n (record sh { log_mgr = flush_logs (log clock 0 checkpoint sh).log_mgr })
  pub recovers :
      (n : ℕ) (clock : Clock) (sh : Shell)
      → Fits clock
      → P n sh
      → Returns (P n) (recover_command clock sh)

-- The call ends, throws nothing, and leaves a state that satisfies `P`.
abbrev pub EndsWell : (Shell → Type 0) → Option (Result Shell) → Type 0
EndsWell P x = (sh : Shell) × (x ≡ some (ok sh)) × P sh

Returns-EndsWell : (P : Shell → Type 0) (x : Result Shell) → Returns P x → EndsWell P (some x)
Returns-EndsWell P (ok sh) p = (sh, refl, p)
Returns-EndsWell P (raise e) p = absurd p

choice_rule :
    (P : Shell → Type 0) (b : Bool) (x y : Option (Result Shell))
    → EndsWell P x
    → EndsWell P y
    → EndsWell P (if b then x else y)
choice_rule P true x y h k = h
choice_rule P false x y h k = k

module _ (C : Command → Type 0) (P : ℕ → Shell → Type 0) (rules : KeepsCommands C P) (n : ℕ)
    (clock : Clock) (fits : Fits clock) where
  abbrev Now : Shell → Type 0
  Now = P n

  abbrev accesses : KeepsAccess C Now
  accesses = rules.accesses n

  say_keeps : (e : Event) (sh : Shell) → Now sh → Now (say e sh)
  say_keeps = say_rule Now accesses.resources

  pend_rule : (cmd : Command) (sh : Shell) → C cmd → Now sh → Now (pend cmd sh)
  pend_rule cmd sh small p =
      accesses.pend (sh.pending ++ cmd ∷ []) sh
        (All-append C sh.pending (cmd ∷ []) (accesses.waiting sh p) (small, tt)) p

  begin_command_rule :
      (cmd : Command) (sh : Shell) → Now sh → P (suc n) (begin_command clock cmd sh)
  unfolding begin_command
  begin_command_rule cmd sh p = elim (Bool-cases (str_eq cmd.txn_label [])) [
    | inl e ↦ rw e (rules.more n _ (say_keeps _ sh p))
    | inr e ↦ rw e (elim (Option-cases (lookup cmd.txn_label sh.txn_ids)) [
      | inl new ↦ rw new (
          say_rule (P (suc n)) (rules.accesses (suc n)).resources _ (begun clock cmd.txn_label sh)
            (rules.begins n clock cmd.txn_label sh fits new p))
      | inr (txn, old) ↦ rw old (rules.more n _ (say_keeps _ sh p))
    ])
  ]

  access_command_rule :
      (cmd : Command) (sh : Shell) → C cmd → Now sh → Returns Now (access_command clock cmd sh)
  unfolding access_command
  access_command_rule cmd sh small p =
      elim (Bool-cases (str_eq cmd.txn_label [] || str_eq cmd.resource_name [])) [
        | inl e ↦ rw e (say_keeps _ sh p)
        | inr e ↦ rw e (elim (Option-cases (lookup cmd.txn_label sh.txn_ids)) [
          | inl new ↦ rw new (say_keeps _ sh p)
          | inr (txn, old) ↦
              rw old (elim (Bool-cases (has_pending_for_txn cmd.txn_label sh.pending)) [
                | inl h ↦ rw h (pend_rule cmd sh small p)
                | inr h ↦ rw h (
                    bind-Returns (Then Now) Now (execute_command clock cmd false sh) _
                      (execute_command_rule C Now accesses clock fits cmd false sh small p)
                      (λ (executed, sh') p'. elim (Bool-cases executed) [
                        | inl x ↦ rw x p'
                        | inr x ↦ rw x (pend_rule cmd sh' small p')
                      ]))
              ])
        ])
      ]

  finish_rule :
      (txn : ℕ) (t : LogType) (event : Event) (tm' : TransactionManager) (sh : Shell)
      → Now (ended clock txn t tm' sh)
      → EndsWell Now (finish_transaction clock txn t event tm' sh)
  unfolding finish_transaction
  finish_rule txn t event tm' sh p =
      process_pending_rule C Now accesses clock fits (say event (ended clock txn t tm' sh))
        (say_keeps event (ended clock txn t tm' sh) p)

  commit_command_rule :
      (cmd : Command) (sh : Shell) → Now sh → EndsWell Now (commit_command clock cmd sh)
  unfolding commit_command
  commit_command_rule cmd sh p = elim (Option-cases (lookup cmd.txn_label sh.txn_ids)) [
    | inl e ↦ rw (e, commit_command) (_, refl, say_keeps (not_found cmd.txn_label) sh p)
    | inr (txn, e) ↦
        let tried = commit_transaction txn (clock.system txn) sh.tm in
        rw (e, commit_command)
          (elim (Bool-cases tried.0) [
            | inl done ↦ rw done (
                finish_rule txn commit (committed cmd.txn_label) tried.1 sh
                  (rules.commits n clock cmd.txn_label txn sh fits e done p))
            | inr failed ↦ rw failed (_, refl, say_keeps (not_active cmd.txn_label) sh p)
          ])
  ]

  abort_command_rule :
      (cmd : Command) (sh : Shell) → Now sh → EndsWell Now (abort_command clock cmd sh)
  unfolding abort_command
  abort_command_rule cmd sh p = elim (Option-cases (lookup cmd.txn_label sh.txn_ids)) [
    | inl e ↦ rw (e, abort_command) (_, refl, say_keeps (not_found cmd.txn_label) sh p)
    | inr (txn, e) ↦
        let tried = abort_transaction txn (clock.system txn) sh.tm in
        rw (e, abort_command)
          (elim (Bool-cases tried.0) [
            | inl done ↦ rw done (
                finish_rule txn abort (aborted cmd.txn_label) tried.1 sh
                  (rules.aborts n clock cmd.txn_label txn sh fits e done p))
            | inr failed ↦ rw failed (_, refl, say_keeps (not_active cmd.txn_label) sh p)
          ])
  ]

  show_command_rule :
      (cmd : Command) (sh : Shell) → Now sh → Returns Now (show_command clock cmd sh)
  unfolding show_command
  show_command_rule cmd sh p = elim (Bool-cases (str_eq cmd.resource_name [])) [
    | inl e ↦ rw e (say_keeps _ sh p)
    | inr e ↦ rw e (
        bind-Returns (Then Now) Now (ensure_resource clock cmd.resource_name sh) _
          (ensure_resource_rule Now accesses.resources clock cmd.resource_name sh p)
          (λ (id, sh') p'.
            let (v, h) = current_value_exists id sh' (accesses.readable sh' p') in
            rw h (say_keeps (shown cmd.resource_name v) sh' p')))
  ]

  checkpoint_rule : (sh : Shell) → Now sh → Now (checkpoint_command clock sh)
  unfolding checkpoint_command log
  checkpoint_rule sh p =
      say_keeps checkpoint_written _ (unfold log in rules.checkpoints n clock sh fits p)

  one_more : (x : Option (Result Shell)) → EndsWell Now x → EndsWell (P (suc n)) x
  one_more x (sh, e, p) = (sh, e, rules.more n sh p)

  pub execute_line_rule :
      (cmd : Command) (sh : Shell)
      → C cmd
      → Now sh
      → EndsWell (P (suc n)) (execute_line clock cmd sh)
  unfolding execute_line status_command
  execute_line_rule cmd sh small p =
      let end = Returns-EndsWell Now in
      let or_else = choice_rule Now in
      choice_rule (P (suc n)) _ _ _
        (Returns-EndsWell (P (suc n)) (ok (begin_command clock cmd sh))
          (begin_command_rule cmd sh p))
        (one_more _ (
          or_else _ _ _ (end (access_command clock cmd sh) (access_command_rule cmd sh small p)) (
            or_else _ _ _ (commit_command_rule cmd sh p) (
              or_else _ _ _ (abort_command_rule cmd sh p) (
                or_else _ _ _ (end (show_command clock cmd sh) (show_command_rule cmd sh p)) (
                  or_else _ _ _ (end (ok (status_command sh)) (say_keeps _ sh p)) (
                    or_else _ _ _ (end (ok (checkpoint_command clock sh)) (checkpoint_rule sh p)) (
                      or_else _ _ _
                        (end (recover_command clock sh) (rules.recovers n clock sh fits p))
                        (end (ok (say (unknown cmd.op) sh))
                          (say_keeps (unknown cmd.op) sh p))))))))))
