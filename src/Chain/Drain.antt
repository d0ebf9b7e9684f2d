-- ===== src/Chain/Drain.antt =====
-- One poll of the chain listener: drain_once of
-- bin/dipper-service/src/network/service/chain_listener.rs. What the subgraph, the registry, the
-- queue and the clock do at each page is an argument, so a theorem holds whatever fails. Instants
-- are nanoseconds.
use dipper.Prelude.{
  ℕ, zero, suc, ◌+◌, ◌-◌, Bool, true, false, ◌&&◌, List, [], ◌∷◌, ◌++◌, map, Option, none, some,
  String, leb, ◌==◌, if◌then◌else◌, any_eq, min, ◌^◌, length, delete, select,
}
use dipper.Registry.Types.{Agreement, Registry, ok, err}
use dipper.Registry.Ends.{has_id, find}
use dipper.Registry.Reconcile.{
  ReconciliationOutcome, ReconciliationItem, Outcomes, apply_reconciliation_batch,
}
use dipper.Cancel.Dispatch.{reached}
use dipper.Chain.Snapshots.{
  AgreementStateSnapshot, Listening, PreparedReconciliation, prepare_reconciliation, forget_before,
}
use dipper.Chain.Cursor.{Cursor, effective_cursor}
use dipper.Chain.Pages.{ChangedAgreementsResult, subgraph_page_size}
use dipper.Chain.Replaced.{finalize_reconciliation, with_rows}
use dipper.Chain.Turns.{
  ListenerConfig, PageTurn, ListenerState, listening_of, with_listening, sample_head, settle_page,
}

-- What the loop over the snapshots leaves.
pub record PrepareRun : Type 0 where
  pub listening : Listening
  pub to_apply : List PreparedReconciliation
  pub unapplied : List ℕ
  pub stopped : Bool

abbrev pub noted : ℕ → Option (Option PreparedReconciliation) → PrepareRun → PrepareRun
noted id (some (some p)) run = record run { to_apply = p ∷ run.to_apply }
noted id (some none) run = run
noted id none run = record run { unapplied = id ∷ run.unapplied }

abbrev pub items_of : List PreparedReconciliation → List ReconciliationItem
items_of = map (λ p. p.item)

-- The batch: the rows, the outcomes, and the agreements that a failure leaves unapplied.
unfoldable pub apply_batch :
    PageTurn → List PreparedReconciliation → List Agreement → List Agreement × Outcomes × List ℕ
unfolding apply_reconciliation_batch
apply_batch turn [] rows = (rows, [], [])
apply_batch turn (p ∷ prepared) rows =
    let items = items_of (p ∷ prepared) in
    elim (reached turn.batch_fault (apply_reconciliation_batch turn.database_now items rows)) [
      | ok (rows', outcomes) ↦ (rows', outcomes, [])
      | err e ↦ (rows, [], map (λ item. item.agreement_id) items)
    ]

unfoldable pub get_outcome : ℕ → Outcomes → Option ReconciliationOutcome
get_outcome id [] = none
get_outcome id ((k, o) ∷ rest) = if k == id then some o else get_outcome id rest

-- A page's work, whether it was stopped, and whether the cursor moved.
pub record PageDone : Type 0 where
  pub state : ListenerState
  pub processed : ℕ
  pub errors : ℕ
  pub stopped : Bool
  pub advanced : Bool

abbrev pub found_by_ids : PageTurn → List AgreementStateSnapshot → List Agreement → List Agreement
found_by_ids turn snapshots rows =
    if turn.lookup_fault
    then []
    else select (λ a. any_eq a.id (map (λ s. s.agreement_id) snapshots)) rows

abbrev pub lookup_failures : PageTurn → List AgreementStateSnapshot → List ℕ
lookup_failures turn snapshots =
    if turn.lookup_fault then map (λ s. s.agreement_id) snapshots else []

abbrev pub max_pages_per_drain : ℕ
max_pages_per_drain = 1000

-- `DrainOutcome`; not `fetched` is `Err(())`.
pub record DrainOutcome : Type 0 where
  pub pages : ℕ
  pub processed : ℕ
  pub errors : ℕ
  pub latest_block : ℕ
  pub stopped : Bool
  pub fetched : Bool

abbrev pub pinned_at : Option ℕ → ℕ → ℕ
pinned_at none latest = latest
pinned_at (some pinned) latest = pinned

module _ (address_text : ℕ → String) (manager : String) (hash_text : ℕ → String) where
  -- The map of the page's agreements gives each out once.
  unfoldable pub prepare_all :
      PageTurn → ℕ → List AgreementStateSnapshot → List Agreement → Listening → PrepareRun
  unfolding find delete prepare_reconciliation
  prepare_all turn i [] agreements l = record {
    listening = l;
    to_apply = [];
    unapplied = [];
    stopped = false;
  }
  prepare_all turn i (s ∷ rest) agreements l =
      let answers = turn.prepare_answers i in
      let (l', prep) =
        prepare_reconciliation address_text answers.0 answers.1 s (find s.agreement_id agreements)
          l in
      let run =
        noted s.agreement_id prep
          (prepare_all turn (suc i) rest (delete (has_id s.agreement_id) agreements) l') in
      if turn.stop_at i
      then record { listening = l; to_apply = []; unapplied = []; stopped = true }
      else run

  unfoldable pub finalize_all :
      PageTurn → Outcomes → List PreparedReconciliation → Registry → Registry × ℕ × ℕ
  unfolding get_outcome finalize_reconciliation
  finalize_all turn outcomes [] reg = (reg, 0, 0)
  finalize_all turn outcomes (p ∷ rest) reg = elim (get_outcome p.agreement.id outcomes) [
    | none ↦ finalize_all turn outcomes rest reg
    | some outcome ↦
        let (reg', done) =
          finalize_reconciliation manager hash_text turn.database_now
            (turn.replacement_of p.agreement.id) p outcome reg in
        let (reg'', processed, errors) = finalize_all turn outcomes rest reg' in
        (reg'', if done then suc processed else processed, if done then errors else suc errors)
  ]

  unfoldable pub finish_page :
      ListenerConfig → PageTurn → ChangedAgreementsResult → PrepareRun → ListenerState → PageDone
  unfolding apply_batch finalize_all settle_page
  finish_page config turn page run s =
      let (rows, outcomes, failed) = apply_batch turn run.to_apply s.registry.agreements in
      let (reg, processed, errors) =
        finalize_all turn outcomes run.to_apply (with_rows s.registry rows) in
      let unapplied = lookup_failures turn page.snapshots ++ run.unapplied ++ failed in
      let (s', advanced) = settle_page config turn page unapplied (record s { registry = reg }) in
      record {
        state = s';
        processed = processed;
        errors = length unapplied + errors;
        stopped = false;
        advanced = advanced;
      }

  -- After the loop over the snapshots: a stop leaves the drain, with what the loop has written.
  unfoldable pub after_prepare :
      ListenerConfig → PageTurn → ChangedAgreementsResult → ListenerState → PrepareRun → PageDone
  unfolding finish_page
  after_prepare config turn page s run =
      let s' = with_listening s run.listening in
      if run.stopped
      then record {
        state = s';
        processed = 0;
        errors = length (lookup_failures turn page.snapshots) + length run.unapplied;
        stopped = true;
        advanced = false;
      }
      else finish_page config turn page run s'

  unfoldable pub drain_page :
      ListenerConfig → PageTurn → ChangedAgreementsResult → ListenerState → PageDone
  unfolding prepare_all after_prepare
  drain_page config turn page s = after_prepare config turn page s (
      prepare_all turn 0 page.snapshots (found_by_ids turn page.snapshots s.registry.agreements)
        (listening_of s))

  module _ (config : ListenerConfig)
      (fetch : ℕ → Cursor → Option ℕ → Option ChangedAgreementsResult) (turns : ℕ → PageTurn) where
    -- A page's work, and then the rest of the drain unless the cursor stays or the page was not full.
    unfoldable pub after_fetch :
        (Cursor → Option ℕ → DrainOutcome → ListenerState → DrainOutcome × ListenerState)
        → Option ℕ
        → DrainOutcome
        → ListenerState
        → Option ChangedAgreementsResult
        → DrainOutcome × ListenerState
    unfolding drain_page sample_head
    after_fetch rest pinned tally s none = (
      record tally { fetched = false },
      record s { consecutive_failures = min (suc s.consecutive_failures) (2 ^ 32 - 1) },
    )
    after_fetch rest pinned tally s (some page) =
        let s₁ = record s { consecutive_failures = 0 } in
        let s₂ = if tally.pages == 0 then sample_head page s₁ else s₁ in
        let done = drain_page config (turns tally.pages) page s₂ in
        let tally' = record tally {
          pages = if done.stopped then tally.pages else suc tally.pages;
          processed = tally.processed + done.processed;
          errors = tally.errors + done.errors;
          latest_block = page.latest_block;
          stopped = done.stopped;
        } in
        if done.advanced && leb subgraph_page_size (length page.snapshots)
        then rest page.cursor (some (pinned_at pinned page.latest_block)) tally' done.state
        else (tally', done.state)

    -- The pages that are still allowed, the place to read from, the pinned block and the counts.
    unfoldable pub drain_pages :
        ℕ → Cursor → Option ℕ → DrainOutcome → ListenerState → DrainOutcome × ListenerState
    unfolding after_fetch
    drain_pages zero from pinned tally s = (tally, s)
    drain_pages (suc left) from pinned tally s =
        after_fetch (drain_pages left) pinned tally s (fetch tally.pages from pinned)

    unfoldable pub drain_once : ListenerState → DrainOutcome × ListenerState
    unfolding drain_pages effective_cursor forget_before
    drain_once s =
        let from = effective_cursor config.reorg_buffer_blocks s.cursor in
        drain_pages max_pages_per_drain from none
          (record {
            pages = 0;
            processed = 0;
            errors = 0;
            latest_block = 0;
            stopped = false;
            fetched = true;
          })
          (with_listening s (forget_before from.block (listening_of s)))
