-- ===== src/Cancel/Marks.antt =====
-- What the marks of bin/dipper-service/src/cancel_dispatch.rs make of the row they name.
use mathlib.Core.Path.{subst}
use dipper.Prelude.{
  ℕ, ◌≡◌, refl, sym, ◌∙◌, Bool, true, false, as_i64, List, Option, none, some, String, arith, inl,
  inr, Bool-cases, update, exists,
}
use dipper.Registry.Types.{
  Status, cancelling, canceled_by_requester, abandoned_by_indexer, is_accepted_on_chain,
  is_cancelling, Agreement, ok, err, no_records_updated,
}
use dipper.Registry.Transitions.{
  at_status, update_or_fail, cancelling_from, cancel_by_requester_from, set_status,
  mark_indexing_agreement_as_cancelling, mark_indexing_agreement_as_abandoning,
  mark_indexing_agreement_as_canceled_by_requester, mark_indexing_agreement_as_abandoned_by_indexer,
}
use dipper.Registry.Ends.{has_id, find, update_end, write_end, record_cancel_audit}
use dipper.Registry.Rows.{PrimaryKey, Asks, exists-find, find-id, written}
use dipper.Registry.PerRow.{set_status_from-Step, set_status_from_error, update-Step}
use dipper.Cancel.Dispatch.{
  CancelReason, not_wanted, abandoned_reason, ended_status, mark_cancelling, mark_ended,
  record_cancel, recorded,
}

-- The row that `id` names is at `status`, under the primary key.
abbrev pub At : ℕ → Status → List Agreement → Type 0
At id status rows =
    (b : Agreement) × (find id rows ≡ some b) × (b.status ≡ status) × PrimaryKey rows

module _ (now id : ℕ) where
  pub mark_cancelling-At :
      (fault : Bool) (reason : CancelReason) (rows : List Agreement) {a : Agreement}
      → PrimaryKey rows
      → find id rows ≡ some a
      → {rows' : List Agreement} → mark_cancelling now fault reason id rows ≡ ok rows'
      → At id cancelling rows'
  unfolding mark_cancelling mark_indexing_agreement_as_cancelling
      mark_indexing_agreement_as_abandoning update_or_fail
  mark_cancelling-At true not_wanted rows key e q = absurd (cc q)
  mark_cancelling-At true abandoned_reason rows key e q = absurd (cc q)
  mark_cancelling-At false not_wanted rows {a} key e q =
      let (m, s) = set_status_from-Step now id cancelling cancelling_from rows key e q in
      (set_status now (λ _. cancelling) a, s.row, refl, s.key)
  mark_cancelling-At false abandoned_reason rows {a} key e {rows'} q =
      let p = at_status id is_accepted_on_chain in
      let asks : Asks id p = λ r miss. rw miss in
      let found = exists-find id p rows asks key e in
      elim (Bool-cases (exists p rows)) [
        | inl y ↦
            let f : Agreement → Agreement = λ r. record r {
              status = cancelling;
              abandoned = true;
              replacement_pending = true;
              updated_at = now;
            } in
            let s = update-Step id p f rows asks (λ r. refl) key e in
            let hit : p a ≡ true = sym found ∙ y in
            let moved : (written p f a).status ≡ cancelling = rw hit in
            let out : update p f rows ≡ rows' = ground (arith, y) in
            subst (At id cancelling) out (written p f a, s.row, moved, s.key)
        | inr n ↦ absurd (cc (rw n at q))
      ]

  pub mark_ended-At :
      (fault : Bool) (reason : CancelReason) (rows : List Agreement)
      → At id cancelling rows
      → {rows' : List Agreement} → mark_ended now fault reason id rows ≡ ok rows'
      → At id (ended_status reason) rows'
  unfolding mark_ended mark_indexing_agreement_as_canceled_by_requester
      mark_indexing_agreement_as_abandoned_by_indexer
  mark_ended-At true not_wanted rows h q = absurd (cc q)
  mark_ended-At true abandoned_reason rows h q = absurd (cc q)
  mark_ended-At false not_wanted rows (b, e, c, key) q =
      let (m, s) =
        set_status_from-Step now id canceled_by_requester cancel_by_requester_from rows key e q in
      (set_status now (λ _. canceled_by_requester) b, s.row, refl, s.key)
  mark_ended-At false abandoned_reason rows (b, e, c, key) q =
      let (m, s) = set_status_from-Step now id abandoned_by_indexer is_cancelling rows key e q in
      (set_status now (λ _. abandoned_by_indexer) b, s.row, refl, s.key)

  -- On a row that is cancelling, the mark of the end never finds nothing to update.
  pub mark_ended_found :
      (fault : Bool) (reason : CancelReason) (rows : List Agreement)
      → At id cancelling rows
      → mark_ended now fault reason id rows ≡ err no_records_updated
      → ⊥
  unfolding mark_ended mark_indexing_agreement_as_canceled_by_requester
      mark_indexing_agreement_as_abandoned_by_indexer
  mark_ended_found true not_wanted rows h q = cc q
  mark_ended_found true abandoned_reason rows h q = cc q
  mark_ended_found false not_wanted rows (b, e, c, key) q = cc (
      set_status_from_error now id canceled_by_requester cancel_by_requester_from rows key e (rw c)
        q)
  mark_ended_found false abandoned_reason rows (b, e, c, key) q =
      cc (set_status_from_error now id abandoned_by_indexer is_cancelling rows key e (rw c) q)

  module _ (manager : String) (hash_text : ℕ → String) where
    pub recorded-At :
        (fault : Bool) (tx_hash : Option ℕ) (rows : List Agreement) {status : Status}
        → At id status rows
        → At id status (recorded manager hash_text now fault id tx_hash rows)
    unfolding recorded record_cancel record_cancel_audit update_end write_end
    recorded-At fault none rows h = h
    recorded-At true (some x) rows h = h
    recorded-At false (some x) rows (b, e, c, key) =
        let f : Agreement → Agreement =
          λ a. write_end a.accepted_at (as_i64 now) manager (some (hash_text x)) a in
        let s = update-Step id (has_id id) f rows (λ r miss. miss) (λ r. refl) key e in
        let mine : has_id id b ≡ true = find-id id rows {b = b} e in
        let kept : (written (has_id id) f b).status ≡ b.status = rw mine in
        (written (has_id id) f b, s.row, kept ∙ c, s.key)
