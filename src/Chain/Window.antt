-- ===== src/Chain/Window.antt =====
-- Polls whose first page ends inside the blocks that a poll re-reads (drain_once of
-- bin/dipper-service/src/network/service/chain_listener.rs).
use mathlib.Core.Path.{subst}
use dipper.Prelude.{
  is_nil, ℕ, suc, ◌≡◌, refl, sym, ◌∙◌, Bool, true, false, ◌&&◌, ◌||◌, List, [], ◌∷◌, ◌++◌, Option,
  none, some, String, inl, inr, ◌==◌, if◌then◌else◌, Bool-cases, All,
}
use dipper.Chain.Cursor.{Cursor, cursor_lt, effective_cursor}
use dipper.Chain.Pages.{ChangedAgreementsResult}
use dipper.Chain.Snapshots.{forget_before}
use dipper.Chain.Replaced.{with_rows}
use dipper.Chain.Turns.{
  ListenerConfig, PageTurn, ListenerState, listening_of, with_listening, held_after, sample_head,
  settle_page,
}
use dipper.Chain.Drain.{
  PrepareRun, prepare_all, PageDone, found_by_ids, lookup_failures, finish_page, after_prepare,
  drain_page, DrainOutcome, after_fetch, drain_pages, drain_once, apply_batch, finalize_all,
}
use dipper.Chain.Polls.{Poll, poll_all}

-- The first page of a poll ends no later than the cursor, as one does that is full of changes in the
-- blocks that the poll re-reads.
abbrev pub EndsInside : Cursor → ChangedAgreementsResult → Type 0
EndsInside cursor page = cursor_lt cursor page.cursor ≡ false

and-false : (b : Bool) → (b && false) ≡ false
and-false true = refl
and-false false = refl

settle_page_inside :
    (config : ListenerConfig) (turn : PageTurn) (page : ChangedAgreementsResult)
    (unapplied : List ℕ) (s : ListenerState)
    → EndsInside s.cursor page
    → ((settle_page config turn page unapplied s).1 ≡ false)
      × ((settle_page config turn page unapplied s).0.cursor ≡ s.cursor)
unfolding settle_page
settle_page_inside config turn page unapplied s inside =
    let stays = and-false (is_nil unapplied || (held_after (is_nil unapplied) turn.now s).1) in
    (rw (inside, stays) refl, rw (inside, stays) refl)

module _ (address_text : ℕ → String) (manager : String) (hash_text : ℕ → String)
    (config : ListenerConfig) where
  -- The work on a page moved the cursor neither in fact nor in its answer.
  abbrev Stays : Cursor → PageDone → Type 0
  Stays cursor done = (done.advanced ≡ false) × (done.state.cursor ≡ cursor)

  after_prepare-Stays :
      (turn : PageTurn) (page : ChangedAgreementsResult) (s : ListenerState) (run : PrepareRun)
      → EndsInside s.cursor page
      → Stays s.cursor (after_prepare address_text manager hash_text config turn page s run)
  unfolding after_prepare finish_page
  after_prepare-Stays turn page s run inside = elim (Bool-cases run.stopped) [
    | inl y ↦ rw y (refl, refl)
    | inr n ↦ rw n (
        let (rows, outcomes, failed) =
          apply_batch turn run.to_apply (with_listening s run.listening).registry.agreements in
        let (reg, processed, errors) =
          finalize_all address_text manager hash_text turn outcomes run.to_apply
            (with_rows (with_listening s run.listening).registry rows) in
        settle_page_inside config turn page
          (lookup_failures turn page.snapshots ++ run.unapplied ++ failed)
          (record (with_listening s run.listening) { registry = reg }) inside)
  ]

  drain_page-Stays :
      (turn : PageTurn) (page : ChangedAgreementsResult) (s : ListenerState)
      → EndsInside s.cursor page
      → Stays s.cursor (drain_page address_text manager hash_text config turn page s)
  unfolding drain_page
  drain_page-Stays turn page s inside =
      after_prepare-Stays turn page s
        (prepare_all address_text manager hash_text turn 0 page.snapshots
          (found_by_ids turn page.snapshots s.registry.agreements) (listening_of s))
        inside

  sample_head-cursor :
      (page : ChangedAgreementsResult) (b : Bool) (s : ListenerState)
      → (if b then sample_head page s else s).cursor ≡ s.cursor
  unfolding sample_head
  sample_head-cursor page false s = refl
  sample_head-cursor page true s = refl

  after_fetch-Stays :
      (poll : Poll)
      (rest : Cursor → Option ℕ → DrainOutcome → ListenerState → DrainOutcome × ListenerState)
      (pinned : Option ℕ) (tally : DrainOutcome) (s : ListenerState)
      (page : ChangedAgreementsResult)
      → EndsInside s.cursor page
      → (after_fetch address_text manager hash_text config poll.fetch poll.turns rest pinned tally s
          (some page)).1.cursor
        ≡ s.cursor
  unfolding after_fetch
  after_fetch-Stays poll rest pinned tally s page inside =
      let s₁ : ListenerState = record s { consecutive_failures = 0 } in
      let s₂ : ListenerState = if tally.pages == 0 then sample_head page s₁ else s₁ in
      let same : s₂.cursor ≡ s.cursor = sample_head-cursor page (tally.pages == 0) s₁ in
      let (calm, at) =
        drain_page-Stays (poll.turns tally.pages) page s₂
          (subst (λ c. EndsInside c page) (sym same) inside) in
      rw calm (at ∙ same)

  -- What a poll reads first ends inside.
  abbrev pub ReadsInside : Cursor → Poll → Type 0
  ReadsInside cursor poll =
      (page : ChangedAgreementsResult) × (poll.fetch 0
          (effective_cursor config.reorg_buffer_blocks cursor) none
        ≡ some page)
      × EndsInside cursor page

  drain_pages-Stays :
      (poll : Poll) (left : ℕ) (from : Cursor) (pinned : Option ℕ) (tally : DrainOutcome)
      (s : ListenerState) (page : ChangedAgreementsResult)
      → poll.fetch tally.pages from pinned ≡ some page
      → EndsInside s.cursor page
      → (drain_pages address_text manager hash_text config poll.fetch poll.turns
          (suc left)
          from
          pinned
          tally
          s).1.cursor
        ≡ s.cursor
  unfolding drain_pages
  drain_pages-Stays poll left from pinned tally s page e inside =
      rw (e, drain_pages)
        (after_fetch-Stays poll
          (drain_pages address_text manager hash_text config poll.fetch poll.turns left) pinned
          tally s page inside)

  drain_once-Stays :
      (poll : Poll) (s : ListenerState)
      → ReadsInside s.cursor poll
      → (drain_once address_text manager hash_text config poll.fetch poll.turns s).1.cursor
        ≡ s.cursor
  unfolding drain_once
  drain_once-Stays poll s (page, e, inside) =
      let from = effective_cursor config.reorg_buffer_blocks s.cursor in
      drain_pages-Stays poll 999 from none
        (record {
          pages = 0;
          processed = 0;
          errors = 0;
          latest_block = 0;
          stopped = false;
          fetched = true;
        })
        (with_listening s (forget_before from.block (listening_of s))) page e inside

-- While the first page that polls read ends no later than the cursor, as a page does that is full of
-- changes in the blocks that a poll re-reads, no poll moves the cursor, whether or not a change
-- fails to apply.
pub poll_all-stays :
    (address_text : ℕ → String) (manager : String) (hash_text : ℕ → String)
    (config : ListenerConfig) (polls : List Poll) (s : ListenerState)
    → All (ReadsInside address_text manager hash_text config s.cursor) polls
    → (poll_all address_text manager hash_text config polls s).cursor ≡ s.cursor
unfolding poll_all
poll_all-stays address_text manager hash_text config [] s h = refl
poll_all-stays address_text manager hash_text config (poll ∷ polls) s (h, hs) =
    let s' = (drain_once address_text manager hash_text config poll.fetch poll.turns s).1 in
    let same : s'.cursor ≡ s.cursor =
      drain_once-Stays address_text manager hash_text config poll s h in
    poll_all-stays address_text manager hash_text config polls s'
      (subst (λ c. All (ReadsInside address_text manager hash_text config c) polls) (sym same) hs)
    ∙ same
