-- ===== src/Registry/Ends.antt =====
-- How the registry records an agreement's end (dipper-pgregistry/src/postgres.rs): the audit
-- columns, the announcement of an end and its correction, and the reopening of a cancel. SQL's
-- conditions are three-valued: `none` is NULL, which a CASE takes for false.
use dipper.Prelude.{
  ℕ, ◌+◌, Bool, true, false, ◌&&◌, ◌||◌, List, [], ◌∷◌, Option, none, some, String, min, ℤ, ltb_ℤ,
  leb_ℤ, as_i64, u64_try_from, ◌==◌, if◌then◌else◌, update, is_some, is_none, coalesce,
}
use dipper.Registry.Types.{
  Status, cancelling, is_canceled_by_requester, is_rejected, is_cancelling, Agreement, Result, ok,
  err, no_records_updated,
}
use dipper.Registry.Transitions.{at_status}

-- `WHERE id = …` names at most one row.
unfoldable pub find : ℕ → List Agreement → Option Agreement
find id [] = none
find id (a ∷ rest) = if a.id == id then some a else find id rest

abbrev pub has_id : ℕ → Agreement → Bool
has_id id a = a.id == id

abbrev pub sql_and : Option Bool → Option Bool → Option Bool
sql_and (some true) b = b
sql_and (some false) b = some false
sql_and none b = elim b [ some x ↦ if x then none else some false | none ↦ none ]

abbrev pub sql_or : Option Bool → Option Bool → Option Bool
sql_or (some true) b = some true
sql_or (some false) b = b
sql_or none b = elim b [ some x ↦ if x then some true else none | none ↦ none ]

abbrev pub sql_lt : Option ℤ → Option ℤ → Option Bool
sql_lt none b = none
sql_lt (some x) none = none
sql_lt (some x) (some y) = some (ltb_ℤ x y)

abbrev pub sql_ge : Option ℤ → Option ℤ → Option Bool
sql_ge none b = none
sql_ge (some x) none = none
sql_ge (some x) (some y) = some (leb_ℤ y x)

-- `CASE WHEN c THEN a ELSE b END`
abbrev pub case_when {ℓ} : {A : Type ℓ} → Option Bool → A → A → A
case_when none a b = b
case_when (some c) a b = if c then a else b

pub record RecordedEnd : Type 0 where
  pub canceled_at : Option ℕ
  pub canceled_by : Option String
  pub canceled_tx : Option String

pub record EndCorrection : Type 0 where
  pub old : RecordedEnd
  pub new : RecordedEnd

abbrev pub recorded_end : Agreement → RecordedEnd
recorded_end a = record {
  canceled_at = elim a.canceled_at [ none ↦ none | some v ↦ u64_try_from v ];
  canceled_by = a.canceled_by;
  canceled_tx = a.canceled_tx;
}

-- The row that a write returns is `was_announced AND terminated_event_emitted_at IS NULL`, then
-- the end before and after it; `old` and `new` are the row before and after.
unfoldable pub end_correction : Agreement → Agreement → Option EndCorrection
end_correction old new =
    if is_some old.terminated_event_emitted_at && is_none new.terminated_event_emitted_at
    then some (record { old = recorded_end old; new = recorded_end new })
    else none

-- The `end_rule` of both audit writes, judged against the accept on record.
abbrev pub replace_end : Option ℤ → ℤ → Option String → Agreement → Option Bool
replace_end accept at tx a =
    sql_and (sql_ge (some at) accept)
      (sql_or (sql_lt a.canceled_at accept) (some (is_none a.canceled_tx && is_some tx)))

-- The SET clause that both audit writes share.
unfoldable pub write_end : Option ℤ → ℤ → String → Option String → Agreement → Agreement
write_end accept at by tx a =
    let replace = replace_end accept at tx a in
    record a {
      canceled_at = case_when replace (some at) (coalesce a.canceled_at (some at));
      canceled_by = case_when replace (some by) (coalesce a.canceled_by (some by));
      canceled_tx = case_when replace tx (coalesce a.canceled_tx tx);
      terminated_event_emitted_at = case_when replace none a.terminated_event_emitted_at;
    }

-- An UPDATE of the row with this id, and what it returns of the row before and after.
unfoldable pub update_end :
    ℕ → (Agreement → Agreement) → List Agreement → List Agreement × Option EndCorrection
unfolding find end_correction
update_end id f rows = (
  update (has_id id) f rows,
  elim (find id rows) [ none ↦ none | some a ↦ end_correction a (f a) ],
)

unfoldable pub record_accepted_audit : ℕ → ℕ → String → List Agreement → List Agreement
record_accepted_audit id accepted_at accepted_tx rows =
    update (has_id id)
      (λ a. record a {
        accepted_at = coalesce a.accepted_at (some (as_i64 accepted_at));
        accepted_tx = coalesce a.accepted_tx (some accepted_tx);
      })
      rows

unfoldable pub record_cancel_audit :
    ℕ → ℕ → String → Option String → List Agreement → List Agreement × Option EndCorrection
unfolding update_end write_end
record_cancel_audit id canceled_at canceled_by canceled_tx rows =
    update_end id (λ a. write_end a.accepted_at (as_i64 canceled_at) canceled_by canceled_tx a) rows

unfoldable pub write_accept_and_end :
    ℤ → String → ℤ → String → Option String → Agreement → Agreement
unfolding write_end
write_accept_and_end accepted_at accepted_tx canceled_at canceled_by canceled_tx a =
    let accept = coalesce a.accepted_at (some accepted_at) in
    let ended = write_end accept canceled_at canceled_by canceled_tx a in
    record ended { accepted_at = accept; accepted_tx = coalesce a.accepted_tx (some accepted_tx) }

unfoldable pub record_accept_and_cancel_audit :
    ℕ
    → ℕ
    → String
    → ℕ
    → String
    → Option String
    → List Agreement
    → List Agreement × Option EndCorrection
unfolding update_end write_accept_and_end
record_accept_and_cancel_audit id accepted_at accepted_tx canceled_at canceled_by canceled_tx rows =
    update_end id
      (write_accept_and_end (as_i64 accepted_at) accepted_tx (as_i64 canceled_at) canceled_by
        canceled_tx)
      rows

abbrev pub reopen_from : Status → Bool
reopen_from s = is_canceled_by_requester s || is_rejected s

unfoldable pub reopen_row : ℕ → Bool → Agreement → Agreement
reopen_row now seen_live a = record a {
  status = cancelling;
  cancel_attempts = 0;
  cancel_checked_at = some now;
  ended_seen_at = none;
  canceled_at = if seen_live then none else a.canceled_at;
  canceled_by = if seen_live then none else a.canceled_by;
  canceled_tx = if seen_live then none else a.canceled_tx;
  terminated_event_emitted_at = if seen_live then none else a.terminated_event_emitted_at;
  updated_at = now;
}

-- The row that the statement changed, before it.
unfoldable pub find_at : ℕ → (Status → Bool) → List Agreement → Option Agreement
unfolding find
find_at id from rows = elim (find id rows) [
  | none ↦ none
  | some a ↦ if from a.status then some a else none
]

unfoldable pub reopen_indexing_agreement_cancel :
    ℕ → ℕ → Bool → List Agreement → Result (List Agreement × Option EndCorrection)
unfolding find_at reopen_row end_correction
reopen_indexing_agreement_cancel now id seen_live rows = elim (find_at id reopen_from rows) [
  | none ↦ err no_records_updated
  | some a ↦ ok (
    update (at_status id reopen_from) (reopen_row now seen_live) rows,
    end_correction a (reopen_row now seen_live a),
  )
]

unfoldable pub checked_row : ℕ → ℕ → Option Bool → Agreement → Agreement
checked_row now failed_attempts ended a = record a {
  cancel_attempts = min (a.cancel_attempts + failed_attempts) 2147483647;
  cancel_checked_at = some now;
  ended_seen_at = elim ended [
    | none ↦ a.ended_seen_at
    | some e ↦ if e then coalesce a.ended_seen_at (some now) else none
  ];
}

-- `cancel_attempts` starts at 0 and is only added to or reset, so it is a number, and the
-- conversion of the new count to `u32` keeps it.
unfoldable pub record_cancel_check :
    ℕ → ℕ → ℕ → Option Bool → List Agreement → Result (List Agreement × ℕ)
unfolding find_at checked_row
record_cancel_check now id failed_attempts ended rows = elim (find_at id is_cancelling rows) [
  | none ↦ err no_records_updated
  | some a ↦ ok (
    update (at_status id is_cancelling) (checked_row now failed_attempts ended) rows,
    (checked_row now failed_attempts ended a).cancel_attempts,
  )
]

-- The stamps of the emission sweeps, and the note that a replacement was queued.
unfoldable pub mark_terminated_event_emitted : ℕ → ℕ → List Agreement → List Agreement
mark_terminated_event_emitted now id =
    update (has_id id) (λ a. record a { terminated_event_emitted_at = some now })

unfoldable pub mark_accepted_event_emitted : ℕ → ℕ → List Agreement → List Agreement
mark_accepted_event_emitted now id =
    update (has_id id) (λ a. record a { accepted_event_emitted_at = some now })

unfoldable pub mark_expired_event_emitted : ℕ → ℕ → List Agreement → List Agreement
mark_expired_event_emitted now id =
    update (has_id id) (λ a. record a { expired_event_emitted_at = some now })

unfoldable pub mark_replacement_queued : ℕ → List Agreement → List Agreement
mark_replacement_queued id = update (has_id id) (λ a. record a { replacement_pending = false })

unfoldable pub update_agreement_sync_progress : ℕ → ℕ → ℕ → List Agreement → List Agreement
update_agreement_sync_progress id block_height progress_at = update (has_id id) (λ a. record a {
  last_block_height = some (as_i64 block_height);
  last_progress_at = some progress_at;
})
