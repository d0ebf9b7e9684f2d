-- ===== src/Registry/Declined.antt =====
-- get_declined_indexers_by_deployment of dipper-pgregistry/src/postgres.rs: the indexers that a
-- deployment leaves out for a while, each reason for its own time.
use dipper.Prelude.{
  ℕ, ◌+◌, ◌*◌, ◌≡◌, refl, sym, ◌∙◌, Bool, true, false, not, ◌&&◌, ◌||◌, List, map, Option, none,
  some, leb, ◌==◌, is_none, if◌then◌else◌, inl, inr, Option-cases, ap, select, distinct,
}
use dipper.Registry.Types.{
  RejectionReason, price_too_low, deadline_expired, subgraph_manifest_unavailable,
  unsupported_network, unexpected_service_provider, agreement_expired, unsupported_metadata_version,
  invalid_signature, sender_not_trusted, capacity_exceeded, manifest_too_large, replay_detected,
  insufficient_escrow, indexer_unavailable, unspecified, other, is_canceled_by_indexer, is_expired,
  is_rejected, is_abandoned_by_indexer, Agreement,
}
use dipper.Registry.Queries.{day}

-- The lookbacks of a call, in days, and in minutes for the transient one.
pub record Lookbacks : Type 0 where
  pub default_lookback_days : ℕ
  pub price_lookback_days : ℕ
  pub transient_lookback_minutes : ℕ
  pub uncertain_lookback_days : ℕ

-- The lists of the statement. A reason that is NULL is in none of them.
abbrev pub is_price : RejectionReason → Bool
is_price price_too_low = true
is_price _ = false

abbrev pub is_transient : RejectionReason → Bool
is_transient deadline_expired = true
is_transient subgraph_manifest_unavailable = true
is_transient unexpected_service_provider = true
is_transient agreement_expired = true
is_transient unsupported_metadata_version = true
is_transient capacity_exceeded = true
is_transient indexer_unavailable = true
is_transient invalid_signature = true
is_transient replay_detected = true
is_transient _ = false

abbrev pub is_uncertain : RejectionReason → Bool
is_uncertain sender_not_trusted = true
is_uncertain unspecified = true
is_uncertain _ = false

abbrev pub has_reason : (RejectionReason → Bool) → Option RejectionReason → Bool
has_reason p none = false
has_reason p (some r) = p r

abbrev pub never_offered : Agreement → Bool
never_offered a = is_expired a.status && is_none a.offer_tx_hash && is_none a.rejection_reason

abbrev pub updated_within : ℕ → ℕ → Agreement → Bool
updated_within now window a = leb now (a.updated_at + window)

abbrev pub may_decline : Agreement → Bool
may_decline a =
    is_canceled_by_indexer a.status
    || is_expired a.status
    || is_rejected a.status
    || is_abandoned_by_indexer a.status

-- The condition of the statement.
unfoldable pub declined_now : ℕ → Lookbacks → Agreement → Bool
declined_now now l a =
    may_decline a
    && (has_reason is_price a.rejection_reason && updated_within now (l.price_lookback_days * day) a
        || has_reason is_transient a.rejection_reason
          && updated_within now (l.transient_lookback_minutes * 60) a
        || has_reason is_uncertain a.rejection_reason
          && updated_within now (l.uncertain_lookback_days * day) a
        || never_offered a && updated_within now (l.transient_lookback_minutes * 60) a
        || not (
            has_reason is_price a.rejection_reason
            || has_reason is_transient a.rejection_reason
            || has_reason is_uncertain a.rejection_reason)
          && not (never_offered a)
          && updated_within now (l.default_lookback_days * day) a)

unfoldable pub get_declined_indexers_by_deployment : ℕ → Lookbacks → List Agreement → ℕ → List ℕ
unfolding declined_now select distinct
get_declined_indexers_by_deployment now l rows deployment = distinct (
    map (λ (a : Agreement). a.indexer_id)
      (select (λ a. declined_now now l a && a.deployment_id == deployment) rows))

-- How long one agreement keeps its indexer out.
abbrev pub window_of_reason : Lookbacks → RejectionReason → ℕ
window_of_reason l price_too_low = l.price_lookback_days * day
window_of_reason l sender_not_trusted = l.uncertain_lookback_days * day
window_of_reason l unspecified = l.uncertain_lookback_days * day
window_of_reason l unsupported_network = l.default_lookback_days * day
window_of_reason l manifest_too_large = l.default_lookback_days * day
window_of_reason l insufficient_escrow = l.default_lookback_days * day
window_of_reason l (other text) = l.default_lookback_days * day
window_of_reason l _ = l.transient_lookback_minutes * 60

abbrev pub window_of : Lookbacks → Agreement → ℕ
window_of l a = elim a.rejection_reason [
  | some r ↦ window_of_reason l r
  | none ↦
      if is_expired a.status && is_none a.offer_tx_hash
      then l.transient_lookback_minutes * 60
      else l.default_lookback_days * day
]

-- The windows of the statement on the tests of one row.
abbrev one_window : (p t u n wp wt wu wd : Bool) → Bool
one_window p t u n wp wt wu wd =
    p && wp || t && wt || u && wu || n && wt || not (p || t || u) && not n && wd

price_row : (wp wt wu wd : Bool) → one_window true false false false wp wt wu wd ≡ wp
price_row true wt wu wd = refl
price_row false wt wu wd = refl

transient_row : (wp wt wu wd : Bool) → one_window false true false false wp wt wu wd ≡ wt
transient_row wp true wu wd = refl
transient_row wp false wu wd = refl

uncertain_row : (wp wt wu wd : Bool) → one_window false false true false wp wt wu wd ≡ wu
uncertain_row wp wt true wd = refl
uncertain_row wp wt false wd = refl

no_reason_row :
    (x y wp wt wu wd : Bool)
    → one_window false false false (x && y && true) wp wt wu wd ≡ (if x && y then wt else wd)
no_reason_row true true wp true wu wd = refl
no_reason_row true true wp false wu wd = refl
no_reason_row true false wp wt wu wd = refl
no_reason_row false y wp wt wu wd = refl

and_false : (a b : Bool) → (a && b && false) ≡ false
and_false true true = refl
and_false true false = refl
and_false false b = refl

module _ (now : ℕ) (l : Lookbacks) (a : Agreement) where
  by_reason :
      (r : RejectionReason)
      → one_window
          (is_price r)
          (is_transient r)
          (is_uncertain r)
          false
          (updated_within now (l.price_lookback_days * day) a)
          (updated_within now (l.transient_lookback_minutes * 60) a)
          (updated_within now (l.uncertain_lookback_days * day) a)
          (updated_within now (l.default_lookback_days * day) a)
        ≡ updated_within now (window_of_reason l r) a
  by_reason price_too_low = price_row _ false false false
  by_reason deadline_expired = transient_row false _ false false
  by_reason subgraph_manifest_unavailable = transient_row false _ false false
  by_reason unsupported_network = refl
  by_reason unexpected_service_provider = transient_row false _ false false
  by_reason agreement_expired = transient_row false _ false false
  by_reason unsupported_metadata_version = transient_row false _ false false
  by_reason invalid_signature = transient_row false _ false false
  by_reason sender_not_trusted = uncertain_row false false _ false
  by_reason capacity_exceeded = transient_row false _ false false
  by_reason manifest_too_large = refl
  by_reason replay_detected = transient_row false _ false false
  by_reason insufficient_escrow = refl
  by_reason indexer_unavailable = transient_row false _ false false
  by_reason unspecified = uncertain_row false false _ false
  by_reason (other text) = refl

  with_reason :
      (r : RejectionReason)
      → a.rejection_reason ≡ some r
      → declined_now now l a ≡ (may_decline a && updated_within now (window_of l a) a)
  unfolding declined_now
  with_reason r e =
      rw (e, and_false (is_expired a.status) (is_none a.offer_tx_hash))
        (ap (λ x. may_decline a && x) (by_reason r))

  within_if :
      (c : Bool)
      → updated_within now
          (if c then l.transient_lookback_minutes * 60 else l.default_lookback_days * day)
          a
        ≡ (if c
            then updated_within now (l.transient_lookback_minutes * 60) a
            else updated_within now (l.default_lookback_days * day) a)
  within_if true = refl
  within_if false = refl

  without_reason :
      a.rejection_reason ≡ none
      → declined_now now l a ≡ (may_decline a && updated_within now (window_of l a) a)
  unfolding declined_now
  without_reason e = rw e (
      ap (λ x. may_decline a && x)
        (no_reason_row (is_expired a.status) (is_none a.offer_tx_hash) false _ false _
          ∙ sym (within_if (is_expired a.status && is_none a.offer_tx_hash))))

-- The condition of the statement gives every row exactly one window: by its reason, or, without one,
-- the transient window if it expired with no offer hash and the default window otherwise. An
-- indexer is left out while the agreement that it ended, let expire, rejected or abandoned was
-- updated within that window.
pub declined_now-window :
    (now : ℕ) (l : Lookbacks) (a : Agreement)
    → declined_now now l a ≡ (may_decline a && updated_within now (window_of l a) a)
declined_now-window now l a = elim (Option-cases a.rejection_reason) [
  | inl e ↦ without_reason now l a e
  | inr (r, e) ↦ with_reason now l a r e
]
