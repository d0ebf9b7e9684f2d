-- ===== src/Chain/Holds.antt =====
-- How long the cursor is held before a page whose changes fail to apply (drain_once and
-- hold_expired of bin/dipper-service/src/network/service/chain_listener.rs).
use dipper.Prelude.{
  is_nil, ℕ, ◌-◌, ◌≡◌, refl, ◌∙◌, Bool, true, false, not, ◌&&◌, ◌||◌, List, [], ◌∷◌, Option, none,
  some, arith, inl, inr, ltb, ◌==◌, if◌then◌else◌, Bool-cases, All,
}
use dipper.Chain.Cursor.{Cursor, id_eq, cursor_lt, cursor_eq, max_cursor_hold, hold_expired}
use dipper.Chain.Pages.{ChangedAgreementsResult}
use dipper.Chain.Turns.{
  ListenerConfig, PageTurn, ListenerState, held_after, ratchet_timestamp, persist, settle_page,
}

-- A page with what it meets, and the agreements whose change it failed to apply.
abbrev pub SettledPage : Type 0
SettledPage = PageTurn × ChangedAgreementsResult × List ℕ

unfoldable pub settle_all : ListenerConfig → List SettledPage → ListenerState → ListenerState
unfolding settle_page
settle_all config [] s = s
settle_all config ((turn, page, unapplied) ∷ rest) s =
    settle_all config rest (settle_page config turn page unapplied s).0

cursor_eq_refl : (c : Cursor) → cursor_eq c c ≡ true
cursor_eq_refl c = go c.id
  where
    go : (o : Option ℕ) → ((c.block == c.block) && id_eq o o) ≡ true
    go none = ground arith
    go (some i) = ground arith

persist-cursor_hold :
    (write fault : Bool) (cursor : Cursor) (timestamp : Option ℕ) (s : ListenerState)
    → (if write then persist fault cursor timestamp s else s).cursor_hold ≡ s.cursor_hold
unfolding persist
persist-cursor_hold true true cursor timestamp s = refl
persist-cursor_hold true false cursor timestamp s = refl
persist-cursor_hold false fault cursor timestamp s = refl

-- The cursor and the hold after a page, as a function of the hold before.
settle_page-cursor :
    (config : ListenerConfig) (turn : PageTurn) (page : ChangedAgreementsResult)
    (unapplied : List ℕ) (s : ListenerState)
    → let held = held_after (is_nil unapplied) turn.now s in
      let out : ListenerState = (settle_page config turn page unapplied s).0 in
      (out.cursor ≡ (
        if (is_nil unapplied || held.1) && cursor_lt s.cursor page.cursor
        then page.cursor
        else s.cursor))
      × (out.cursor_hold ≡ held.0)
unfolding settle_page
settle_page-cursor config turn page unapplied s =
    let held = held_after (is_nil unapplied) turn.now s in
    let advance_cursor = (is_nil unapplied || held.1) && cursor_lt s.cursor page.cursor in
    let timestamp =
      ratchet_timestamp config turn.now_secs page.latest_block_timestamp
        s.last_persisted_timestamp in
    (
      refl,
      persist-cursor_hold (advance_cursor || not (id_eq timestamp s.last_persisted_timestamp))
          turn.update_fault (if advance_cursor then page.cursor else s.cursor) timestamp
          (record s { cursor_hold = held.0 }),
    )

-- A page that failed to apply a change, less than the longest hold after an instant.
abbrev pub FailsWithin : ℕ → SettledPage → Type 0
FailsWithin since (turn, page, unapplied) =
    (is_nil unapplied ≡ false) × (ltb (turn.now - since) max_cursor_hold ≡ true)

module _ (config : ListenerConfig) (cursor : Cursor) (since : ℕ) where
  -- The listener holds at a cursor since an instant.
  abbrev HeldAt : ListenerState → Type 0
  HeldAt s =
      (s.cursor ≡ cursor) × (s.cursor_hold ≡ some (record { cursor = cursor; since = since }))

  held_since :
      (turn : PageTurn) (s : ListenerState)
      → HeldAt s
      → held_after false turn.now s ≡ (
          if ltb (turn.now - since) max_cursor_hold
          then (some (record { cursor = cursor; since = since }), false)
          else (none, true))
  unfolding held_after hold_expired
  held_since turn s (c, h) = rw (c, h, cursor_eq_refl cursor) refl

  failed-HeldAt :
      (turn : PageTurn) (page : ChangedAgreementsResult) (unapplied : List ℕ) (s : ListenerState)
      → is_nil unapplied ≡ false
      → ltb (turn.now - since) max_cursor_hold ≡ true
      → HeldAt s
      → HeldAt (settle_page config turn page unapplied s).0
  failed-HeldAt turn page unapplied s failing early held =
      let (moved, hold) = settle_page-cursor config turn page unapplied s in
      let at = held_since turn s held in
      (moved ∙ rw (failing, at, early) held.0, hold ∙ rw (failing, at, early) refl)

  settle_all-HeldAt :
      (pages : List SettledPage) (s : ListenerState)
      → All (FailsWithin since) pages
      → HeldAt s
      → HeldAt (settle_all config pages s)
  unfolding settle_all
  settle_all-HeldAt [] s h held = held
  settle_all-HeldAt ((turn, page, unapplied) ∷ rest) s (h, hs) held =
      settle_all-HeldAt rest (settle_page config turn page unapplied s).0 hs
        (failed-HeldAt turn page unapplied s h.0 h.1 held)

  past-HeldAt :
      (turn : PageTurn) (page : ChangedAgreementsResult) (unapplied : List ℕ) (s : ListenerState)
      → is_nil unapplied ≡ false
      → cursor_lt cursor page.cursor ≡ true
      → HeldAt s
      → (settle_page config turn page unapplied s).0.cursor
        ≡ (if ltb (turn.now - since) max_cursor_hold then cursor else page.cursor)
  past-HeldAt turn page unapplied s failing lt held =
      let (moved, hold) = settle_page-cursor config turn page unapplied s in
      let at = held_since turn s held in
      moved ∙ elim (Bool-cases (ltb (turn.now - since) max_cursor_hold)) [
        | inl early ↦ rw (failing, at, early) held.0
        | inr late ↦ rw (failing, at, late, held.0, lt) refl
      ]

first_hold :
    (now : ℕ) (s : ListenerState)
    → s.cursor_hold ≡ none
    → held_after false now s ≡ (some (record { cursor = s.cursor; since = now }), false)
unfolding held_after hold_expired
first_hold now s fresh = rw fresh refl

-- From the first page that fails to apply a change, with no hold before it, the cursor stays while
-- such pages fail within ten minutes of the first. A further page that fails, and that would
-- move the cursor on, leaves it too within those ten minutes and moves it on from then.
pub settle_page-hold :
    (config : ListenerConfig) (turn turn' : PageTurn) (page page' : ChangedAgreementsResult)
    (unapplied unapplied' : List ℕ) (more : List SettledPage) (s : ListenerState)
    → s.cursor_hold ≡ none
    → is_nil unapplied ≡ false
    → All (FailsWithin turn.now) more
    → is_nil unapplied' ≡ false
    → cursor_lt s.cursor page'.cursor ≡ true
    → let held = settle_all config ((turn, page, unapplied) ∷ more) s in
      (held.cursor ≡ s.cursor)
      × ((settle_page config turn' page' unapplied' held).0.cursor
          ≡ (if ltb (turn'.now - turn.now) max_cursor_hold then s.cursor else page'.cursor))
unfolding settle_all
settle_page-hold config turn turn' page page' unapplied unapplied' more s fresh failing fail
      failing' lt =
    let (moved, hold) = settle_page-cursor config turn page unapplied s in
    let first : HeldAt config s.cursor turn.now (settle_page config turn page unapplied s).0 = (
      moved ∙ rw (failing, first_hold turn.now s fresh) refl,
      hold ∙ rw (failing, first_hold turn.now s fresh) refl,
    ) in
    let held =
      settle_all-HeldAt config s.cursor turn.now more (settle_page config turn page unapplied s).0
        fail first in
    (
      held.0,
      past-HeldAt config s.cursor turn.now turn' page' unapplied'
          (settle_all config more (settle_page config turn page unapplied s).0) failing' lt held,
    )
