-- ===== src/Recovery/RecoveryManager/Restart.antt =====
-- The whole of recovery: its outcome on a readable log, and that a second run finds nothing to undo.
use mathlib.Core.List.{append_assoc, append-nil}
use transaction_manager.Shared.{
  ℕ, some, List, [], ◌∷◌, ◌++◌, map, All, ◌≡◌, ◌<◌, refl, ap, sym, subst, ◌∙◌, Result, ok,
}
use transaction_manager.Shared.Text.{ℤ}
use transaction_manager.Shared.Decimal.{FitsInt64}
use transaction_manager.Shared.OrderedSet.{AscendsFrom}
use transaction_manager.Constants.{u32_mod}
use transaction_manager.Enums.{analysis, complete}
use transaction_manager.Recovery.LogRecord.{LogRecord}
use transaction_manager.Recovery.LogRecord.RoundTrip.{InRange}
use transaction_manager.Recovery.LogManager.{LogManager, write_log, flush_logs, read_logs}
use transaction_manager.Recovery.LogManager.Contents.{
  Holds, write_log-Holds, flush_logs-Holds, read_logs-flush_logs,
}
use transaction_manager.Recovery.RecoveryManager.{
  RecoveryManager, analyze, analyze_each, redo, redo_each, abort_record, undo, undo_each,
  flush_unless_empty, perform_recovery,
}
use transaction_manager.Recovery.RecoveryManager.Analysis.{
  analyze_each-All, analyze_each-AscendsFrom, with_aborts, analysis-with_aborts,
  redo_each-with_aborts,
}

-- The log holds these records, and all of them can be read back from the file.
pub record IsDurable (rs : List LogRecord) (log : LogManager) : Type 0 where
  pub holds : Holds rs log
  pub readable : read_logs log ≡ ok rs

-- A flush makes a log durable.
pub flush_logs-IsDurable :
    (rs : List LogRecord) (log : LogManager) → Holds rs log → IsDurable rs (flush_logs log)
flush_logs-IsDurable rs log h = record {
  holds = flush_logs-Holds rs log h;
  readable = read_logs-flush_logs rs log h;
}

analyze-readable :
    (rs : List LogRecord) (log : LogManager) (m : RecoveryManager)
    → read_logs log ≡ ok rs
    → analyze log m ≡ (
      ok tt,
      record m {
        committed_txns = (analyze_each rs ([], [])).0;
        incomplete_txns = (analyze_each rs ([], [])).1;
      },
    )
unfolding analyze
analyze-readable rs log m e = rw (e, analyze)

redo-readable :
    (rs : List LogRecord) (log : LogManager) (m : RecoveryManager)
    → read_logs log ≡ ok rs
    → redo log m ≡ (ok tt, record m { redo_records = redo_each m.committed_txns rs })
unfolding redo
redo-readable rs log m e = rw (e, redo)

module _ (clock : ℕ → ℤ) (time_fits : (txn : ℕ) → FitsInt64 (clock txn)) where
  abbrev aborts : List ℕ → List LogRecord
  aborts = map (abort_record clock)

  undo_each_lem :
      (txns : List ℕ) (rs undone : List LogRecord) (log : LogManager)
      → All (λ t. t < u32_mod) txns
      → Holds rs log
      → Holds (rs ++ aborts txns) (undo_each clock txns (log, undone)).0
        × ((undo_each clock txns (log, undone)).1 ≡ undone ++ aborts txns)
  unfolding undo_each
  undo_each_lem [] rs undone log small h = (rw (append-nil rs) h, sym (append-nil undone))
  undo_each_lem (t ∷ txns) rs undone log small h =
      let r = abort_record clock t in
      let legal : InRange r = unfold abort_record in record { time = time_fits t; id = small.0 } in
      let (holds, list) =
        undo_each_lem txns (rs ++ r ∷ []) (undone ++ r ∷ []) (write_log (some r) log) small.1
          (write_log-Holds rs r log legal h) in
      (
        subst (λ l. Holds l (undo_each clock txns (write_log (some r) log, undone ++ r ∷ [])).0)
            (append_assoc rs (r ∷ []) (aborts txns)) holds,
        list ∙ append_assoc undone (r ∷ []) (aborts txns),
      )

  flushed-IsDurable :
      (txns : List ℕ) (rs : List LogRecord) (log : LogManager)
      → All (λ t. t < u32_mod) txns
      → IsDurable rs log
      → IsDurable (rs ++ aborts txns) (flush_unless_empty txns (undo_each clock txns (log, [])).0)
  flushed-IsDurable [] rs log small d = unfold undo_each in rw (append-nil rs) d
  flushed-IsDurable (t ∷ txns) rs log small d =
      flush_logs-IsDurable (rs ++ aborts (t ∷ txns)) _
        (undo_each_lem (t ∷ txns) rs [] log small d.holds).0

  small_ids : (rs : List LogRecord) → All InRange rs → All (λ r. r.transaction_id < u32_mod) rs
  small_ids [] h = tt
  small_ids (r ∷ rs) h = (h.0.id, small_ids rs h.1)

  active-small :
      (rs : List LogRecord) → All InRange rs → All (λ t. t < u32_mod) (analyze_each rs ([], [])).1
  active-small rs h = analyze_each-All (λ t. t < u32_mod) rs ([], []) (small_ids rs h) tt

  -- What recovery leaves behind, from a log of these records.
  pub record Recovered (rs : List LogRecord)
      (result : Result (Unit {0}) × LogManager × RecoveryManager) : Type 0 where
    pub succeeds : result.0 ≡ ok tt
    pub state : result.2.recovery_state ≡ complete
    pub committed : result.2.committed_txns ≡ (analyze_each rs ([], [])).0
    pub incomplete : result.2.incomplete_txns ≡ (analyze_each rs ([], [])).1
    pub redone : result.2.redo_records ≡ redo_each (analyze_each rs ([], [])).0 rs
    pub undone : result.2.undo_records ≡ aborts (analyze_each rs ([], [])).1
    pub ascending : AscendsFrom 0 (analyze_each rs ([], [])).1
    pub log : IsDurable (with_aborts clock rs) result.1

  -- On a durable log recovery raises nothing and reaches COMPLETE; it reports the committed, the
  -- incomplete and the redo records of the analysis, and leaves a durable log of the old records
  -- followed by one ABORT for each incomplete transaction, in strictly ascending order of their ids,
  -- which are the undo records.
  pub perform_recovery-Recovered :
      (rs : List LogRecord) (log : LogManager) (m : RecoveryManager)
      → IsDurable rs log
      → Recovered rs (perform_recovery clock log m)
  unfolding perform_recovery undo
  perform_recovery-Recovered rs log m d =
      let active = (analyze_each rs ([], [])).1 in
      let small = active-small rs d.holds.legal in
      rw (analyze-readable rs log (record m { recovery_state = analysis }) d.readable) (
        rw (redo-readable rs log _ d.readable) (record {
          succeeds = refl;
          state = refl;
          committed = refl;
          incomplete = refl;
          redone = refl;
          undone = (undo_each_lem active rs [] log small d.holds).1;
          ascending = analyze_each-AscendsFrom rs ([], []) tt;
          log = flushed-IsDurable active rs log small d;
        }))

  -- Recovery run again right after a recovery undoes nothing, redoes the same records, and adds
  -- nothing to the log.
  pub perform_recovery_twice :
      (rs : List LogRecord) (log : LogManager) (m n : RecoveryManager)
      → IsDurable rs log
      → let (_, log', m') = perform_recovery clock log m in
        let (result, log'', m'') = perform_recovery clock log' n in
        (result ≡ ok tt)
        × (m''.undo_records ≡ [])
        × (m''.redo_records ≡ m'.redo_records)
        × IsDurable (with_aborts clock rs) log''
  perform_recovery_twice rs log m n d =
      let first = perform_recovery-Recovered rs log m d in
      let log' = (perform_recovery clock log m).1 in
      let second = perform_recovery-Recovered (with_aborts clock rs) log' n first.log in
      let (nothing_open, same_committed) = analysis-with_aborts clock rs in
      (
        second.succeeds,
        second.undone ∙ ap aborts nothing_open,
        second.redone
            ∙ redo_each-with_aborts clock (analyze_each rs ([], [])).0
                (analyze_each (with_aborts clock rs) ([], [])).0 rs (analyze_each rs ([], [])).1
                same_committed
            ∙ sym first.redone,
        subst (λ l. IsDurable l (perform_recovery clock log' n).1)
            (ap (λ l. with_aborts clock rs ++ aborts l) nothing_open
              ∙ append-nil (with_aborts clock rs))
            second.log,
      )
