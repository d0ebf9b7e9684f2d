-- ===== src/Chain/Cursor.antt =====
-- The listener's place in the stream of changes: Cursor of
-- bin/dipper-service/src/network/service/chain_events.rs, CursorHold and hold_expired of
-- chain_listener.rs there. Instants are nanoseconds.
use dipper.Prelude.{
  ℕ, ◌-◌, ◌*◌, Bool, true, false, ◌&&◌, ◌||◌, Option, none, some, ltb, ◌==◌, if◌then◌else◌,
}

pub record Cursor : Type 0 where
  pub block : ℕ
  pub id : Option ℕ

abbrev pub genesis : Cursor
genesis = record { block = 0; id = none }

abbrev pub at_block : ℕ → Cursor
at_block block = record { block = block; id = none }

-- The derived order: a block boundary comes before each entity of its block.
abbrev pub id_lt : Option ℕ → Option ℕ → Bool
id_lt none none = false
id_lt none (some b) = true
id_lt (some a) none = false
id_lt (some a) (some b) = ltb a b

abbrev pub id_eq : Option ℕ → Option ℕ → Bool
id_eq none none = true
id_eq (some a) (some b) = a == b
id_eq _ _ = false

abbrev pub cursor_lt : Cursor → Cursor → Bool
cursor_lt a b = ltb a.block b.block || (a.block == b.block) && id_lt a.id b.id

abbrev pub cursor_eq : Cursor → Cursor → Bool
cursor_eq a b = (a.block == b.block) && id_eq a.id b.id

-- The place that a drain reads from.
unfoldable pub effective_cursor : ℕ → Cursor → Cursor
effective_cursor reorg_buffer_blocks cursor =
    if ltb 0 cursor.block && ltb 0 reorg_buffer_blocks && ltb reorg_buffer_blocks cursor.block
    then at_block (cursor.block - reorg_buffer_blocks)
    else cursor

abbrev pub max_cursor_hold : ℕ
max_cursor_hold = 600 * 1000000000

pub record CursorHold : Type 0 where
  pub cursor : Cursor
  pub since : ℕ

-- The hold afterwards, and whether to move past the page. `now - since` stops at 0, as
-- `saturating_duration_since` does.
unfoldable pub hold_expired : Option CursorHold → Cursor → ℕ → Option CursorHold × Bool
hold_expired none cursor now = (some (record { cursor = cursor; since = now }), false)
hold_expired (some held) cursor now =
    if cursor_eq held.cursor cursor
    then if ltb (now - held.since) max_cursor_hold then (some held, false) else (none, true)
    else (some (record { cursor = cursor; since = now }), false)
