-- ===== src/Registry/Lifecycle/Writes.antt =====
-- Each single-row write of dipper-pgregistry/src/postgres.rs follows the diagram of the statuses.
use dipper.Prelude.{
  ℕ, ◌≡◌, refl, Bool, true, List, Option, arith, inl, inr, Option-cases, Pointwise,
}
use dipper.Registry.Types.{
  Status, unresponsive, canceled_by_requester, expired, rejected, abandoned_by_indexer, cancelling,
  is_created, is_accepted_on_chain, is_cancelling, Agreement, RejectionReason, after, after_write,
}
use dipper.Registry.Transitions.{
  at_status, cancel_by_requester_from, cancelling_from, offer_hash_from,
  mark_indexing_agreement_as_canceled_by_requester, mark_indexing_agreement_as_abandoned_by_indexer,
  mark_indexing_agreement_as_cancelling, mark_indexing_agreement_as_abandoning,
  mark_indexing_agreement_as_unresponsive, mark_indexing_agreement_as_expired,
  mark_indexing_agreement_as_rejected, update_offer_tx_hash,
}
use dipper.Registry.Ends.{
  find_at, reopen_from, reopen_row, checked_row, reopen_indexing_agreement_cancel,
  record_cancel_check,
}
use dipper.Registry.Lifecycle.Moves.{
  ◌⟶◌, Evolves, Tables-refl, update-Evolves, update_or_fail-Evolves, set_status_from-Evolves,
}
use dipper.Registry.Lifecycle.Edges.{
  edges, requester_edge, cancelling_edge, reopen_edge, unmoved, moved, at_status-from,
}

module _ (now id : ℕ) (rows : List Agreement) where
  pub unresponsive-Evolves :
      Pointwise Evolves rows
        (after_write rows (mark_indexing_agreement_as_unresponsive now id rows))
  unfolding mark_indexing_agreement_as_unresponsive
  unresponsive-Evolves =
      update_or_fail-Evolves (at_status id is_created) _
        (λ a h.
          moved a _ refl refl refl refl refl (edge a.status (at_status-from id is_created a h)))
        rows
    where
      edge : (s : Status) → is_created s ≡ true → s ⟶ unresponsive
      edge s h = grind (arith, edges)

  pub expired-Evolves :
      Pointwise Evolves rows (after_write rows (mark_indexing_agreement_as_expired now id rows))
  unfolding mark_indexing_agreement_as_expired
  expired-Evolves =
      update_or_fail-Evolves (at_status id is_created) _
        (λ a h.
          moved a _ refl refl refl refl refl (edge a.status (at_status-from id is_created a h)))
        rows
    where
      edge : (s : Status) → is_created s ≡ true → s ⟶ expired
      edge s h = grind (arith, edges)

  pub rejected-Evolves :
      (reason : Option RejectionReason)
      → Pointwise Evolves rows
          (after_write rows (mark_indexing_agreement_as_rejected now id reason rows))
  unfolding mark_indexing_agreement_as_rejected
  rejected-Evolves reason =
      update_or_fail-Evolves (at_status id is_created) _
        (λ a h.
          moved a _ refl refl refl refl refl (edge a.status (at_status-from id is_created a h)))
        rows
    where
      edge : (s : Status) → is_created s ≡ true → s ⟶ rejected
      edge s h = grind (arith, edges)

  pub abandoning-Evolves :
      Pointwise Evolves rows (after_write rows (mark_indexing_agreement_as_abandoning now id rows))
  unfolding mark_indexing_agreement_as_abandoning
  abandoning-Evolves =
      update_or_fail-Evolves (at_status id is_accepted_on_chain) _
        (λ a h.
          moved a _ refl refl refl refl refl
            (edge a.status (at_status-from id is_accepted_on_chain a h)))
        rows
    where
      edge : (s : Status) → is_accepted_on_chain s ≡ true → s ⟶ cancelling
      edge s h = grind (arith, edges)

  pub offer_hash-Evolves :
      (tx : ℕ) → Pointwise Evolves rows (after_write rows (update_offer_tx_hash now id tx rows))
  unfolding update_offer_tx_hash
  offer_hash-Evolves tx =
      update_or_fail-Evolves (at_status id offer_hash_from) _
        (λ a h. unmoved a _ refl refl refl refl refl refl) rows

  pub requester-Evolves :
      Pointwise Evolves rows
        (after_write rows (mark_indexing_agreement_as_canceled_by_requester now id rows))
  unfolding mark_indexing_agreement_as_canceled_by_requester
  requester-Evolves =
      set_status_from-Evolves now id canceled_by_requester cancel_by_requester_from
        (λ a. requester_edge a.status) rows

  pub abandoned-Evolves :
      Pointwise Evolves rows
        (after_write rows (mark_indexing_agreement_as_abandoned_by_indexer now id rows))
  unfolding mark_indexing_agreement_as_abandoned_by_indexer
  abandoned-Evolves =
      set_status_from-Evolves now id abandoned_by_indexer is_cancelling (λ a. edge a.status) rows
    where
      edge : (s : Status) → is_cancelling s ≡ true → s ⟶ abandoned_by_indexer
      edge s h = grind (arith, edges)

  pub cancelling-Evolves :
      Pointwise Evolves rows (after_write rows (mark_indexing_agreement_as_cancelling now id rows))
  unfolding mark_indexing_agreement_as_cancelling
  cancelling-Evolves =
      set_status_from-Evolves now id cancelling cancelling_from (λ a. cancelling_edge a.status) rows

  pub reopen-Evolves :
      (seen_live : Bool)
      → Pointwise Evolves rows (after rows (reopen_indexing_agreement_cancel now id seen_live rows))
  unfolding reopen_indexing_agreement_cancel
  reopen-Evolves seen_live = elim (Option-cases (find_at id reopen_from rows)) [
    | inl e ↦ rw (e, reopen_indexing_agreement_cancel) (Tables-refl rows)
    | inr (a, e) ↦
        rw (e, reopen_indexing_agreement_cancel)
          (update-Evolves (at_status id reopen_from) (reopen_row now seen_live)
            (λ b h.
              moved b _ refl refl refl refl refl
                (reopen_edge b.status (at_status-from id reopen_from b h)))
            rows)
  ]

  pub cancel_check-Evolves :
      (failed : ℕ) (ended : Option Bool)
      → Pointwise Evolves rows (after rows (record_cancel_check now id failed ended rows))
  unfolding record_cancel_check
  cancel_check-Evolves failed ended = elim (Option-cases (find_at id is_cancelling rows)) [
    | inl e ↦ rw (e, record_cancel_check) (Tables-refl rows)
    | inr (a, e) ↦
        rw (e, record_cancel_check)
          (update-Evolves (at_status id is_cancelling) (checked_row now failed ended)
            (λ b h. unmoved b _ refl refl refl refl refl refl) rows)
  ]
