-- ===== src/Chain/Polls.antt =====
-- Polls of the chain listener one after another (drain_once of
-- bin/dipper-service/src/network/service/chain_listener.rs): where the cursor goes.
use dipper.Prelude.{
  ℕ, zero, suc, ◌≡◌, Bool, true, false, ◌&&◌, List, [], ◌∷◌, ◌++◌, Option, none, some, String,
  arith, inl, inr, leb, ◌==◌, if◌then◌else◌, Bool-cases, length,
}
use dipper.Chain.Cursor.{Cursor, cursor_lt, effective_cursor}
use dipper.Chain.Pages.{ChangedAgreementsResult, subgraph_page_size}
use dipper.Chain.Snapshots.{Listening, forget_before}
use dipper.Chain.Turns.{
  ListenerConfig, PageTurn, ListenerState, listening_of, with_listening, sample_head, settle_page,
}
use dipper.Chain.Drain.{
  PrepareRun, prepare_all, found_by_ids, lookup_failures, finish_page, after_prepare, drain_page,
  DrainOutcome, pinned_at, max_pages_per_drain, after_fetch, drain_pages, drain_once, apply_batch,
  finalize_all,
}
use dipper.Chain.Replaced.{with_rows}
use dipper.Chain.Settle.{
  LeTime-trans, LeTime-refl, Stored, Progress, settle_page-Progress, cursor_lt_irrefl,
}

Progress-refl :
    (s : ListenerState) → Stored s.stored s.cursor s.last_persisted_timestamp → Progress s s
Progress-refl s kept = record {
  forward = cursor_lt_irrefl s.cursor;
  later = LeTime-refl s.last_persisted_timestamp;
  kept = kept;
}

Progress-trans : (s t u : ListenerState) → Progress s t → Progress t u → Progress s u
Progress-trans s t u p q = record {
  forward = go s.cursor t.cursor u.cursor p.forward q.forward;
  later =
      LeTime-trans s.last_persisted_timestamp t.last_persisted_timestamp u.last_persisted_timestamp
        p.later q.later;
  kept = q.kept;
}
  where
    go : (a b c : Cursor) → cursor_lt b a ≡ false → cursor_lt c b ≡ false → cursor_lt c a ≡ false
    go a b c x y = ground arith

sample_head-Progress :
    (page : ChangedAgreementsResult) (s : ListenerState)
    → Stored s.stored s.cursor s.last_persisted_timestamp
    → Progress s (sample_head page s)
unfolding sample_head
sample_head-Progress page s kept = record {
  forward = cursor_lt_irrefl s.cursor;
  later = LeTime-refl s.last_persisted_timestamp;
  kept = kept;
}

module _ (address_text : ℕ → String) (manager : String) (hash_text : ℕ → String)
    (config : ListenerConfig) where
  with_listening-Progress :
      (s : ListenerState) (l : Listening)
      → Stored s.stored s.cursor s.last_persisted_timestamp
      → Progress s (with_listening s l)
  with_listening-Progress s l kept = record {
    forward = cursor_lt_irrefl s.cursor;
    later = LeTime-refl s.last_persisted_timestamp;
    kept = kept;
  }

  finish_page-Progress :
      (turn : PageTurn) (page : ChangedAgreementsResult) (run : PrepareRun) (s : ListenerState)
      → Stored s.stored s.cursor s.last_persisted_timestamp
      → Progress s (finish_page address_text manager hash_text config turn page run s).state
  unfolding finish_page
  finish_page-Progress turn page run s kept =
      let (rows, outcomes, failed) = apply_batch turn run.to_apply s.registry.agreements in
      let (reg, processed, errors) =
        finalize_all address_text manager hash_text turn outcomes run.to_apply
          (with_rows s.registry rows) in
      let p : Progress (record s { registry = reg })
          (settle_page config turn page
            (lookup_failures turn page.snapshots ++ run.unapplied ++ failed)
            (record s { registry = reg })).0 =
        settle_page-Progress config turn page
          (lookup_failures turn page.snapshots ++ run.unapplied ++ failed)
          (record s { registry = reg }) kept in
      record { forward = p.forward; later = p.later; kept = p.kept }

  after_prepare-Progress :
      (turn : PageTurn) (page : ChangedAgreementsResult) (run : PrepareRun) (s : ListenerState)
      → Stored s.stored s.cursor s.last_persisted_timestamp
      → Progress s (after_prepare address_text manager hash_text config turn page s run).state
  unfolding after_prepare
  after_prepare-Progress turn page run s kept = elim (Bool-cases run.stopped) [
    | inl y ↦ rw y (with_listening-Progress s run.listening kept)
    | inr n ↦ rw n (
        let p = finish_page-Progress turn page run (with_listening s run.listening) kept in
        record { forward = p.forward; later = p.later; kept = p.kept })
  ]

  drain_page-Progress :
      (turn : PageTurn) (page : ChangedAgreementsResult) (s : ListenerState)
      → Stored s.stored s.cursor s.last_persisted_timestamp
      → Progress s (drain_page address_text manager hash_text config turn page s).state
  unfolding drain_page
  drain_page-Progress turn page s kept =
      after_prepare-Progress turn page
        (prepare_all address_text manager hash_text turn 0 page.snapshots
          (found_by_ids turn page.snapshots s.registry.agreements) (listening_of s))
        s kept

-- What one poll meets: the subgraph's answer to the n-th page asked for at a cursor and a pinned
-- block, and what the pages meet.
pub record Poll : Type 0 where
  pub fetch : ℕ → Cursor → Option ℕ → Option ChangedAgreementsResult
  pub turns : ℕ → PageTurn

module _ (address_text : ℕ → String) (manager : String) (hash_text : ℕ → String)
    (config : ListenerConfig) where
  either :
      (s : ListenerState) (b : Bool) (x y : DrainOutcome × ListenerState)
      → Progress s x.1
      → Progress s y.1
      → Progress s (if b then x else y).1
  either s true x y p q = p
  either s false x y p q = q

  after_fetch-Progress :
      (poll : Poll)
      (rest : Cursor → Option ℕ → DrainOutcome → ListenerState → DrainOutcome × ListenerState)
      (pinned : Option ℕ) (tally : DrainOutcome) (s : ListenerState)
      (answer : Option ChangedAgreementsResult)
      → ((from : Cursor) (pinned : Option ℕ) (tally : DrainOutcome) (s : ListenerState)
          → Stored s.stored s.cursor s.last_persisted_timestamp
          → Progress s (rest from pinned tally s).1)
      → Stored s.stored s.cursor s.last_persisted_timestamp
      → Progress s
          (after_fetch address_text manager hash_text config poll.fetch poll.turns rest pinned tally
            s answer).1
  unfolding after_fetch
  after_fetch-Progress poll rest pinned tally s none ih kept = record {
    forward = cursor_lt_irrefl s.cursor;
    later = LeTime-refl s.last_persisted_timestamp;
    kept = kept;
  }
  after_fetch-Progress poll rest pinned tally s (some page) ih kept =
      let s₁ : ListenerState = record s { consecutive_failures = 0 } in
      let s₂ : ListenerState = if tally.pages == 0 then sample_head page s₁ else s₁ in
      let done =
        drain_page address_text manager hash_text config (poll.turns tally.pages) page s₂ in
      let sampled : Progress s₁ s₂ = first_sample page (tally.pages == 0) s₁ kept in
      let paged : Progress s₂ done.state =
        drain_page-Progress address_text manager hash_text config (poll.turns tally.pages) page s₂
          sampled.kept in
      let both : Progress s₁ done.state = Progress-trans s₁ s₂ done.state sampled paged in
      let so_far : Progress s done.state = record {
        forward = both.forward;
        later = both.later;
        kept = both.kept;
      } in
      either s (done.advanced && leb subgraph_page_size (length page.snapshots)) _ _
        (Progress-trans s done.state _ so_far
          (ih page.cursor (some (pinned_at pinned page.latest_block)) _ done.state so_far.kept))
        so_far
    where
      first_sample :
          (page : ChangedAgreementsResult) (b : Bool) (s : ListenerState)
          → Stored s.stored s.cursor s.last_persisted_timestamp
          → Progress s (if b then sample_head page s else s)
      first_sample page true s kept = sample_head-Progress page s kept
      first_sample page false s kept = Progress-refl s kept

  drain_pages-Progress :
      (poll : Poll) (left : ℕ) (from : Cursor) (pinned : Option ℕ) (tally : DrainOutcome)
      (s : ListenerState)
      → Stored s.stored s.cursor s.last_persisted_timestamp
      → Progress s
          (drain_pages address_text manager hash_text config poll.fetch poll.turns left from pinned
            tally s).1
  unfolding drain_pages
  drain_pages-Progress poll zero from pinned tally s kept = Progress-refl s kept
  drain_pages-Progress poll (suc left) from pinned tally s kept =
      after_fetch-Progress poll
        (drain_pages address_text manager hash_text config poll.fetch poll.turns left) pinned tally
        s (poll.fetch tally.pages from pinned) (drain_pages-Progress poll left) kept

  pub drain_once-Progress :
      (poll : Poll) (s : ListenerState)
      → Stored s.stored s.cursor s.last_persisted_timestamp
      → Progress s (drain_once address_text manager hash_text config poll.fetch poll.turns s).1
  unfolding drain_once
  drain_once-Progress poll s kept =
      let from = effective_cursor config.reorg_buffer_blocks s.cursor in
      let s' = with_listening s (forget_before from.block (listening_of s)) in
      let p : Progress s' _ =
        drain_pages-Progress poll max_pages_per_drain from none
          (record {
            pages = 0;
            processed = 0;
            errors = 0;
            latest_block = 0;
            stopped = false;
            fetched = true;
          })
          s' kept in
      record { forward = p.forward; later = p.later; kept = p.kept }

  unfoldable pub poll_all : List Poll → ListenerState → ListenerState
  unfolding drain_once
  poll_all [] s = s
  poll_all (poll ∷ polls) s =
      poll_all polls (drain_once address_text manager hash_text config poll.fetch poll.turns s).1

-- Through any polls, whatever the subgraph answers and whatever fails, neither the cursor nor the
-- stored chain time goes back, and the stored row never gets ahead of the listener: its cursor is
-- not past the listener's and its time is the listener's.
pub poll_all-Progress :
    (address_text : ℕ → String) (manager : String) (hash_text : ℕ → String)
    (config : ListenerConfig) (polls : List Poll) (s : ListenerState)
    → Stored s.stored s.cursor s.last_persisted_timestamp
    → Progress s (poll_all address_text manager hash_text config polls s)
unfolding poll_all
poll_all-Progress address_text manager hash_text config [] s kept = Progress-refl s kept
poll_all-Progress address_text manager hash_text config (poll ∷ polls) s kept =
    let p = drain_once-Progress address_text manager hash_text config poll s kept in
    let s' = (drain_once address_text manager hash_text config poll.fetch poll.turns s).1 in
    Progress-trans s s' (poll_all address_text manager hash_text config polls s') p
      (poll_all-Progress address_text manager hash_text config polls s' p.kept)
