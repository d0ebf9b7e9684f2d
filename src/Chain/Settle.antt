-- ===== src/Chain/Settle.antt =====
-- How the cursor moves at the end of a page (drain_once of
-- bin/dipper-service/src/network/service/chain_listener.rs).
use dipper.Prelude.{
  is_nil, ℕ, ◌≤◌, ◌≡◌, refl, Bool, true, false, not, ◌&&◌, ◌||◌, List, Option, none, some, arith,
  inl, inr, ltb, if◌then◌else◌, Bool-cases,
}
use dipper.Chain.Cursor.{Cursor, id_eq, cursor_lt, CursorHold}
use dipper.Chain.Clock.{apply_chain_ts_drift_cap}
use dipper.Chain.Pages.{ChangedAgreementsResult}
use dipper.Chain.Turns.{
  ListenerConfig, PageTurn, ListenerState, ratchet_timestamp, held_after, persist, settle_page,
}

-- The optional times in their order, no time first.
abbrev pub LeTime : Option ℕ → Option ℕ → Type 0
LeTime none b = Unit {0}
LeTime (some a) none = ⊥
LeTime (some a) (some b) = a ≤ b

pub LeTime-trans : (a b c : Option ℕ) → LeTime a b → LeTime b c → LeTime a c
LeTime-trans none b c p q = tt
LeTime-trans (some a) none c p q = elim p [ ]
LeTime-trans (some a) (some b) none p q = elim q [ ]
LeTime-trans (some a) (some b) (some c) p q = omega arith

pub LeTime-refl : (a : Option ℕ) → LeTime a a
LeTime-refl none = tt
LeTime-refl (some a) = omega arith

ratchet_timestamp-LeTime :
    (config : ListenerConfig) (now_secs : ℕ) (new cached : Option ℕ)
    → LeTime cached (ratchet_timestamp config now_secs new cached)
unfolding ratchet_timestamp
ratchet_timestamp-LeTime config now_secs none cached = LeTime-refl cached
ratchet_timestamp-LeTime config now_secs (some new_ts) none = tt
ratchet_timestamp-LeTime config now_secs (some new_ts) (some cached_ts) =
    let cap =
      apply_chain_ts_drift_cap new_ts cached_ts now_secs config.chain_ts_drift_tolerance_secs in
    elim (Bool-cases (ltb new_ts cached_ts)) [
      | inl lt ↦ rw lt (omega arith)
      | inr ge ↦ rw ge (capped config.bypass_chain_clock_defenses ge)
    ]
  where
    capped :
        (bypass : Bool)
        → ltb new_ts cached_ts ≡ false
        → cached_ts
          ≤ apply_chain_ts_drift_cap new_ts cached_ts now_secs config.chain_ts_drift_tolerance_secs
              bypass
    capped true ge = ground arith
    capped false ge = ground arith

-- What is stored is not ahead of what the listener has in memory.
abbrev pub Stored : Option (Cursor × Option ℕ) → Cursor → Option ℕ → Type 0
Stored none cursor timestamp = Unit {0}
Stored (some (c, t)) cursor timestamp = (cursor_lt cursor c ≡ false) × (t ≡ timestamp)

-- The listener's state after some work: neither the cursor nor the stored time goes back, and the
-- stored row is still not ahead.
pub record Progress (s s' : ListenerState) : Type 0 where
  pub forward : cursor_lt s'.cursor s.cursor ≡ false
  pub later : LeTime s.last_persisted_timestamp s'.last_persisted_timestamp
  pub kept : Stored s'.stored s'.cursor s'.last_persisted_timestamp

Stored-advance :
    (stored : Option (Cursor × Option ℕ)) (c new : Cursor) (t : Option ℕ)
    → cursor_lt new c ≡ false
    → Stored stored c t
    → Stored stored new t
Stored-advance none c new t lt h = tt
Stored-advance (some (at, u)) c new t lt (ahead, same) = (behind at c new ahead lt, same)
  where
    behind :
        (x y z : Cursor) → cursor_lt y x ≡ false → cursor_lt z y ≡ false → cursor_lt z x ≡ false
    behind x y z p q = ground arith

cursor_lt_asym : (a b : Cursor) → cursor_lt a b ≡ true → cursor_lt b a ≡ false
cursor_lt_asym a b h = ground arith

pub cursor_lt_irrefl : (a : Cursor) → cursor_lt a a ≡ false
cursor_lt_irrefl a = ground arith

module _ (s : ListenerState) (hold : Option CursorHold) (new : Cursor) (ts : Option ℕ)
    (later : LeTime s.last_persisted_timestamp ts)
    (kept : Stored s.stored s.cursor s.last_persisted_timestamp) where
  abbrev settled : Bool → Bool → Bool → ListenerState
  settled advance write fault =
      let cursor = if advance then new else s.cursor in
      record (if advance || write
        then persist fault cursor ts (record s { cursor_hold = hold })
        else record s { cursor_hold = hold }) { cursor = cursor }

  settled-Progress :
      (advance write fault : Bool)
      → (advance && not (cursor_lt s.cursor new)) ≡ false
      → Progress s (settled advance write fault)
  unfolding persist
  settled-Progress true write true h = record {
    forward = cursor_lt_asym s.cursor new (ground (arith, h));
    later = LeTime-refl s.last_persisted_timestamp;
    kept =
        Stored-advance s.stored s.cursor new s.last_persisted_timestamp
          (cursor_lt_asym s.cursor new (ground (arith, h))) kept;
  }
  settled-Progress true write false h = record {
    forward = cursor_lt_asym s.cursor new (ground (arith, h));
    later = later;
    kept = (cursor_lt_irrefl new, refl);
  }
  settled-Progress false true true h = record {
    forward = cursor_lt_irrefl s.cursor;
    later = LeTime-refl s.last_persisted_timestamp;
    kept = kept;
  }
  settled-Progress false true false h = record {
    forward = cursor_lt_irrefl s.cursor;
    later = later;
    kept = (cursor_lt_irrefl s.cursor, refl);
  }
  settled-Progress false false fault h = record {
    forward = cursor_lt_irrefl s.cursor;
    later = LeTime-refl s.last_persisted_timestamp;
    kept = kept;
  }

pub settle_page-Progress :
    (config : ListenerConfig) (turn : PageTurn) (page : ChangedAgreementsResult)
    (unapplied : List ℕ) (s : ListenerState)
    → Stored s.stored s.cursor s.last_persisted_timestamp
    → Progress s (settle_page config turn page unapplied s).0
unfolding settle_page
settle_page-Progress config turn page unapplied s kept =
    let held = held_after (is_nil unapplied) turn.now s in
    let timestamp =
      ratchet_timestamp config turn.now_secs page.latest_block_timestamp
        s.last_persisted_timestamp in
    settled-Progress s held.0 page.cursor timestamp
      (ratchet_timestamp-LeTime config turn.now_secs page.latest_block_timestamp
        s.last_persisted_timestamp)
      kept ((is_nil unapplied || held.1) && cursor_lt s.cursor page.cursor)
      (not (id_eq timestamp s.last_persisted_timestamp)) turn.update_fault
      (guarded (is_nil unapplied || held.1) (cursor_lt s.cursor page.cursor))
  where
    guarded : (a b : Bool) → ((a && b) && not b) ≡ false
    guarded true true = refl
    guarded true false = refl
    guarded false b = refl
