-- ===== src/Chain/Turns.antt =====
-- What outlives a poll of the chain listener, and how a page ends: the cursor, its hold, the stored
-- state and the counts of drain_once of bin/dipper-service/src/network/service/chain_listener.rs.
-- What a page meets is an argument. Instants are nanoseconds.
use dipper.Prelude.{
  is_nil, ℕ, suc, Bool, true, false, not, ◌&&◌, ◌||◌, List, Option, none, some, ltb, ◌==◌,
  if◌then◌else◌,
}
use dipper.Registry.Types.{Registry}
use dipper.Chain.Snapshots.{Listening, LiveCheckJob}
use dipper.Chain.Clock.{apply_chain_ts_drift_cap}
use dipper.Chain.Cursor.{Cursor, cursor_lt, CursorHold, id_eq, hold_expired}
use dipper.Chain.Pages.{ChangedAgreementsResult}
use dipper.Chain.Replaced.{Replacement, with_rows}

-- What `new` sets up: `chain_id` names the one row of the stored state.
pub record ListenerConfig : Type 0 where
  pub reorg_buffer_blocks : ℕ
  pub chain_ts_drift_tolerance_secs : ℕ
  pub bypass_chain_clock_defenses : Bool

-- What a page meets. `prepare_answers` has, for each snapshot by its place, whether the queue and the
-- registry answer; `stop_at` whether a stop was asked for before it.
pub record PageTurn : Type 0 where
  pub lookup_fault : Bool
  pub prepare_answers : ℕ → Bool × Bool
  pub stop_at : ℕ → Bool
  pub database_now : ℕ
  pub batch_fault : Bool
  pub replacement_of : ℕ → Replacement
  pub now : ℕ
  pub now_secs : ℕ
  pub update_fault : Bool

-- The drain's variables that outlive it, the stored row of the chain's state, and the tables.
pub record ListenerState : Type 0 where
  pub cursor : Cursor
  pub cursor_hold : Option CursorHold
  pub last_persisted_timestamp : Option ℕ
  pub last_subgraph_head : ℕ
  pub stall_count : ℕ
  pub consecutive_failures : ℕ
  pub stored : Option (Cursor × Option ℕ)
  pub jobs : List LiveCheckJob
  pub queued : List (ℕ × ℕ)
  pub registry : Registry

abbrev pub listening_of : ListenerState → Listening
listening_of s = record { jobs = s.jobs; queued = s.queued; agreements = s.registry.agreements }

abbrev pub with_listening : ListenerState → Listening → ListenerState
with_listening s l = record s {
  jobs = l.jobs;
  queued = l.queued;
  registry = with_rows s.registry l.agreements;
}

-- The counts of the stalls of the subgraph's head, sampled at the first page.
unfoldable pub sample_head : ChangedAgreementsResult → ListenerState → ListenerState
sample_head page s = record s {
  stall_count =
      if (page.latest_block == s.last_subgraph_head) && ltb 0 page.latest_block
      then suc s.stall_count
      else if ltb 0 s.stall_count && ltb s.last_subgraph_head page.latest_block
      then 0
      else s.stall_count;
  last_subgraph_head = page.latest_block;
}

-- The stored time never goes back: a smaller one is ignored, and a larger one is capped.
unfoldable pub ratchet_timestamp :
    ListenerConfig → (now_secs : ℕ) → (new_timestamp cached : Option ℕ) → Option ℕ
ratchet_timestamp config now_secs none cached = cached
ratchet_timestamp config now_secs (some new_ts) none = some (
    apply_chain_ts_drift_cap new_ts 0 now_secs config.chain_ts_drift_tolerance_secs
      config.bypass_chain_clock_defenses)
ratchet_timestamp config now_secs (some new_ts) (some cached_ts) =
    if ltb new_ts cached_ts
    then some cached_ts
    else some (
        apply_chain_ts_drift_cap new_ts cached_ts now_secs config.chain_ts_drift_tolerance_secs
          config.bypass_chain_clock_defenses)

-- The hold after a page, and whether to move past it although changes of it failed.
unfoldable pub held_after : Bool → ℕ → ListenerState → Option CursorHold × Bool
unfolding hold_expired
held_after true now s = (none, false)
held_after false now s = hold_expired s.cursor_hold s.cursor now

unfoldable pub persist :
    Bool → (cursor : Cursor) → (timestamp : Option ℕ) → ListenerState → ListenerState
persist true cursor timestamp s = s
persist false cursor timestamp s = record s {
  stored = some (cursor, timestamp);
  last_persisted_timestamp = timestamp;
}

-- What follows the changes of a page: the hold, the stored state, and the cursor. With whether the
-- cursor moved.
unfoldable pub settle_page :
    ListenerConfig
    → PageTurn
    → ChangedAgreementsResult
    → List ℕ
    → ListenerState
    → ListenerState × Bool
unfolding ratchet_timestamp held_after persist
settle_page config turn page unapplied s =
    let (hold, skip) = held_after (is_nil unapplied) turn.now s in
    let advance_cursor = (is_nil unapplied || skip) && cursor_lt s.cursor page.cursor in
    let timestamp =
      ratchet_timestamp config turn.now_secs page.latest_block_timestamp
        s.last_persisted_timestamp in
    let cursor = if advance_cursor then page.cursor else s.cursor in
    let held = record s { cursor_hold = hold } in
    let written =
      if advance_cursor || not (id_eq timestamp s.last_persisted_timestamp)
      then persist turn.update_fault cursor timestamp held
      else held in
    (record written { cursor = cursor }, advance_cursor)
