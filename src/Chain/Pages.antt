-- ===== src/Chain/Pages.antt =====
-- One page of changes from the subgraph: get_changed_agreements of
-- bin/dipper-service/src/network/service/chain_events.rs, from the decoded response on, with the
-- parsers of an entity. Parsers of numbers, ids and addresses are parameters.
use text.Mathlib.Text.{◌==◌ as str_eq, starts_with}
use Prim.Native.String.{len}
use dipper.Prelude.{
  ℕ, ◌+◌, ◌-◌, Bool, true, false, ◌&&◌, List, [], ◌∷◌, ◌++◌, Option, none, some, String, ltb, leb,
  ◌==◌, if◌then◌else◌, select, length,
}
use dipper.Chain.Clock.{saturating_add}
use dipper.Chain.Cursor.{Cursor, at_block, cursor_lt}
use dipper.Chain.Snapshots.{
  AgreementState, not_accepted, accepted, canceled_by_service_provider, canceled_by_payer,
  AgreementStateSnapshot,
}

-- The strings of a GraphQL entity.
pub record IndexingAgreementEntity : Type 0 where
  pub id : String
  pub indexer : String
  pub state : String
  pub canceled_by : String
  pub last_state_change_block : String
  pub accepted_at : String
  pub accepted_at_tx : String
  pub canceled_at : String
  pub canceled_at_tx : String

-- A decoded response: the block and the timestamp of `_meta`, and the entities.
pub record ChangedAgreementsResponse : Type 0 where
  pub block_number : ℕ
  pub block_timestamp : Option ℕ
  pub indexing_agreements : List IndexingAgreementEntity

pub record ChangedAgreementsResult : Type 0 where
  pub snapshots : List AgreementStateSnapshot
  pub latest_block : ℕ
  pub latest_block_timestamp : Option ℕ
  pub cursor : Cursor

abbrev pub subgraph_page_size : ℕ
subgraph_page_size = 1000

unfoldable pub parse_state : String → Option AgreementState
parse_state s =
    if str_eq s "NotAccepted"
    then some not_accepted
    else if str_eq s "Accepted"
    then some accepted
    else if str_eq s "CanceledByServiceProvider"
    then some canceled_by_service_provider
    else if str_eq s "CanceledByPayer"
    then some canceled_by_payer
    else none

abbrev pub or_zero : Option ℕ → ℕ
or_zero none = 0
or_zero (some n) = n

-- The number of bytes after `strip_prefix("0x")`.
abbrev pub stripped_len : String → ℕ
stripped_len s = if starts_with s "0x" then len s - 2 else len s

infixl 5 ◌>>=◌
abbrev pub ◌>>=◌ {ℓ κ} : {A : Type ℓ} {B : Type κ} → Option A → (A → Option B) → Option B
none >>= f = none
some a >>= f = f a

-- The place of a snapshot in the stream.
abbrev pub position : AgreementStateSnapshot → Cursor
position s = record { block = s.last_state_change_block; id = some s.agreement_id }

abbrev pub earlier : Option Cursor → Cursor → Cursor
earlier none failed = failed
earlier (some existing) failed = if cursor_lt failed existing then failed else existing

-- What the loop over the entities gathers.
pub record Parsed : Type 0 where
  pub snapshots : List AgreementStateSnapshot
  pub earliest_failure : Option Cursor
  pub unlocatable_failures : ℕ

abbrev pub last_position : List AgreementStateSnapshot → Cursor → Cursor
last_position [] since = since
last_position (s ∷ rest) since = last_position rest (position s)

unfoldable pub is_sorted_keyset : List AgreementStateSnapshot → Bool
is_sorted_keyset [] = true
is_sorted_keyset (a ∷ []) = true
is_sorted_keyset (a ∷ b ∷ rest) = cursor_lt (position a) (position b) && is_sorted_keyset (b ∷ rest)

unfoldable pub pinned_block_holds : Option ℕ → ℕ → Bool
pinned_block_holds none block = true
pinned_block_holds (some pinned) block = pinned == block

unfoldable pub skew_is_fine : Option ℕ → (now tolerance : ℕ) → (bypass : Bool) → Bool
skew_is_fine none now tolerance bypass = true
skew_is_fine (some ts) now tolerance true = true
skew_is_fine (some ts) now tolerance false = leb ts (saturating_add now tolerance)

-- One entity more, after what the earlier ones gathered.
abbrev pub gather : Parsed → Option AgreementStateSnapshot → Option Cursor → Parsed
gather acc (some s) failed = record acc { snapshots = acc.snapshots ++ s ∷ [] }
gather acc none (some failed) = record acc {
  earliest_failure = some (earlier acc.earliest_failure failed);
}
gather acc none none = record acc { unlocatable_failures = acc.unlocatable_failures + 1 }

abbrev pub nothing_parsed : Parsed
nothing_parsed = record { snapshots = []; earliest_failure = none; unlocatable_failures = 0 }

-- The snapshots that are kept, and the cursor after them.
unfoldable pub page_cursor : Cursor → ℕ → ℕ → Parsed → List AgreementStateSnapshot × Cursor
page_cursor since latest_block count parsed =
    if ltb 0 parsed.unlocatable_failures
    then (parsed.snapshots, since)
    else elim parsed.earliest_failure [
      | some failed ↦
          let kept = select (λ s. cursor_lt (position s) failed) parsed.snapshots in
          (kept, last_position kept since)
      | none ↦
          if leb subgraph_page_size count
          then (parsed.snapshots, last_position parsed.snapshots since)
          else (parsed.snapshots, at_block (saturating_add latest_block 1))
    ]

abbrev pub result_of :
    ChangedAgreementsResponse → List AgreementStateSnapshot × Cursor → ChangedAgreementsResult
result_of response (snapshots, cursor) = record {
  snapshots = snapshots;
  latest_block = response.block_number;
  latest_block_timestamp = response.block_timestamp;
  cursor = cursor;
}

module _ (parse_u64 parse_id parse_address : String → Option ℕ) where
  abbrev pub parse_bigint_timestamp : String → ℕ
  parse_bigint_timestamp raw = or_zero (parse_u64 raw)

  unfoldable pub parse_address_or_zero : String → Option ℕ
  parse_address_or_zero hex_str =
      if ltb (stripped_len hex_str) 40 then some 0 else parse_address hex_str

  unfoldable pub parse_snapshot : IndexingAgreementEntity → Option AgreementStateSnapshot
  unfolding parse_state parse_address_or_zero
  parse_snapshot entity = do
    agreement_id ← parse_id entity.id
    indexer ← parse_address entity.indexer
    state ← parse_state entity.state
    canceled_by ← parse_address_or_zero entity.canceled_by
    block ← parse_u64 entity.last_state_change_block
    some (record {
      agreement_id = agreement_id;
      indexer = indexer;
      state = state;
      canceled_by = canceled_by;
      last_state_change_block = block;
      accepted_at = parse_bigint_timestamp entity.accepted_at;
      accepted_tx = entity.accepted_at_tx;
      canceled_at = parse_bigint_timestamp entity.canceled_at;
      canceled_tx = entity.canceled_at_tx;
    })

  unfoldable pub parse_failure_cursor : IndexingAgreementEntity → Option Cursor
  parse_failure_cursor entity = do
    block ← parse_u64 entity.last_state_change_block
    some (record { block = block; id = parse_id entity.id })

  unfoldable pub parse_entities : Parsed → List IndexingAgreementEntity → Parsed
  unfolding parse_snapshot parse_failure_cursor
  parse_entities acc [] = acc
  parse_entities acc (e ∷ rest) =
      parse_entities (gather acc (parse_snapshot e) (parse_failure_cursor e)) rest

  -- `none` is an error: the response is dropped.
  unfoldable pub get_changed_agreements :
      (now tolerance : ℕ) (bypass : Bool)
      → Cursor
      → Option ℕ
      → ChangedAgreementsResponse
      → Option ChangedAgreementsResult
  unfolding pinned_block_holds skew_is_fine is_sorted_keyset parse_entities page_cursor
  get_changed_agreements now tolerance bypass since pinned response =
      let parsed = parse_entities nothing_parsed response.indexing_agreements in
      if pinned_block_holds pinned response.block_number
        && skew_is_fine response.block_timestamp now tolerance bypass
        && is_sorted_keyset parsed.snapshots
      then some (
          result_of response
            (page_cursor since response.block_number (length response.indexing_agreements) parsed))
      else none
