-- ===== src/Sweeps/Expires.antt =====
-- Which agreements a scan of bin/dipper-service/src/network/service/expiration.rs expires.
use dipper.Prelude.{
  ℕ, zero, suc, ◌-◌, ◌+◌, ◌<◌, ◌≡◌, ◌≢◌, refl, sym, ◌∙◌, ap, Bool, true, false, ◌&&◌, if◌then◌else◌,
  List, [], ◌∷◌, map, Option, none, some, ◌⊎◌, inl, inr, arith, Bool-cases, ltb, ltb→lt, ◌==◌,
  ==_iff, &&_parts, update, select, exists, All, All-map, Pointwise, NotIn, All-select,
  All-order_by, All-limit_if_positive,
}
use mathlib.Core.Path.{subst}
use dipper.Registry.Types.{
  expired, is_created, Agreement, IndexingRequest, Registry, no_records_updated, ok, err,
}
use dipper.Registry.Registration.{delete_pending_cancellations_by_new_agreement}
use dipper.Registry.Requests.{get_indexing_request_by_id}
use dipper.Registry.Transitions.{
  set_status, at_status, update_or_fail, mark_indexing_agreement_as_expired,
}
use dipper.Registry.Rows.{PrimaryKey}
use dipper.Registry.Queries.{get_expired_created_agreements}
use dipper.Cancel.Dispatch.{reached}
use dipper.Sweeps.Replace.{Services, with_agreements}
use dipper.Sweeps.Expiration.{
  ExpireFaults, drop_pairs, push_for, after_mark, expire_agreement, expire_each, expiration_scan,
}

-- The rows of a scan share their id with no other row.
abbrev Only : List Agreement → Agreement → Type 0
Only rows a = All (λ (r : Agreement). r.id ≡ a.id → r ≡ a) rows

NotIn-All :
    (id : ℕ) (rows : List Agreement)
    → NotIn id (map (λ a. a.id) rows)
    → All (λ (r : Agreement). id ≢ r.id) rows
NotIn-All id [] h = tt
NotIn-All id (r ∷ rows) (h, rest) = (h, NotIn-All id rows rest)

widen :
    (x : Agreement) (xs ys : List Agreement)
    → All (λ (r : Agreement). x.id ≢ r.id) ys
    → All (Only xs) ys
    → All (Only (x ∷ xs)) ys
widen x xs [] n h = tt
widen x xs (y ∷ ys) (n, ns) (h, hs) = ((λ e. absurd (n e), h), widen x xs ys ns hs)

PrimaryKey-Only : (rows : List Agreement) → PrimaryKey rows → All (Only rows) rows
PrimaryKey-Only [] key = tt
PrimaryKey-Only (x ∷ xs) (n, key) =
    let apart = NotIn-All x.id xs n in
    (
      (
        λ e. refl,
        All-map {Q = λ (r : Agreement). r.id ≡ x.id → r ≡ x}
            (λ (r : Agreement) ne e. absurd (ne (sym e))) xs apart,
      ),
      widen x xs xs apart (PrimaryKey-Only xs key),
    )

-- A row as a scan leaves it: as it was, or expired, which it may be only when it was created and
-- its deadline is more than the grace period before the chain's time.
abbrev pub Expires : ℕ → (grace chain_ts : ℕ) → Agreement → Agreement → Type 0
Expires now grace chain_ts r r' =
    (r' ≡ r)
    ⊎ ((is_created r.status ≡ true)
        × (r.terms.deadline + grace < chain_ts)
        × (r' ≡ set_status now (λ _. expired) r))

push_for-rows :
    (fault : Bool) (a : Agreement) (o : Option IndexingRequest) (s : Services)
    → (push_for fault a o s).registry ≡ s.registry
push_for-rows fault a none s = refl
push_for-rows true a (some r) s = refl
push_for-rows false a (some r) s = refl

after_mark-rows :
    (faults : ExpireFaults) (a : Agreement) (rows : List Agreement) (s : Services)
    → (after_mark faults a (ok rows) s).registry.agreements ≡ rows
unfolding after_mark drop_pairs delete_pending_cancellations_by_new_agreement
after_mark-rows faults a rows s =
    go faults.delete_fault faults.request_fault
      (get_indexing_request_by_id a.indexing_request_id s.registry.requests)
  where
    go :
        (d q : Bool) (o : Option IndexingRequest)
        → let cleaned = drop_pairs d a.id (with_agreements s rows) in
          (if q then cleaned else push_for faults.push_fault a o cleaned).registry.agreements ≡ rows
    go true true o = refl
    go false true o = refl
    go true false o =
        ap (λ (r : Registry). r.agreements)
          (push_for-rows faults.push_fault a o (drop_pairs true a.id (with_agreements s rows)))
    go false false o =
        ap (λ (r : Registry). r.agreements)
          (push_for-rows faults.push_fault a o (drop_pairs false a.id (with_agreements s rows)))

module _ (now grace chain_ts : ℕ) where
  abbrev Due : List Agreement → Agreement → Type 0
  Due rows a = All (λ (r : Agreement). r.id ≡ a.id → r.terms.deadline + grace < chain_ts) rows

  one-Due :
      (a : Agreement) (rows : List Agreement)
      → Only rows a
      → a.terms.deadline < chain_ts - grace
      → Due rows a
  one-Due a rows only d =
      All-map {Q = λ (r : Agreement). r.id ≡ a.id → r.terms.deadline + grace < chain_ts}
        (λ r same e.
          subst (λ (x : Agreement). x.terms.deadline + grace < chain_ts) (sym (same e))
            (omega (arith, d)))
        rows only

  listed-Due :
      (batch_size : ℕ) (rows : List Agreement)
      → PrimaryKey rows
      → All (Due rows) (get_expired_created_agreements batch_size (chain_ts - grace) rows)
  unfolding get_expired_created_agreements
  listed-Due batch_size rows key =
      let due : Agreement → Bool =
        λ r. is_created r.status && ltb r.terms.deadline (chain_ts - grace) in
      let picked = All-select (Only rows) due rows (PrimaryKey-Only rows key) in
      let all : All (Due rows) (select due rows) =
        All-map {Q = Due rows} (λ a h. one-Due a rows h.0 (ltb→lt _ _ (&&_parts _ _ h.1).1))
          (select due rows) picked in
      All-limit_if_positive (Due rows) batch_size _
        (All-order_by (Due rows) (λ a. a.terms.deadline) (select due rows) all)

  mark-Expires :
      (id : ℕ) (r c : Agreement)
      → Expires now grace chain_ts r c
      → (r.id ≡ id → r.terms.deadline + grace < chain_ts)
      → Expires now grace chain_ts r
          (if at_status id is_created c then set_status now (λ _. expired) c else c)
  mark-Expires id r c h due = elim (Bool-cases (at_status id is_created c)) [
    | inr n ↦ rw n h
    | inl y ↦
        let (mine, fresh) = &&_parts (c.id == id) (is_created c.status) y in
        rw y (elim h [
          | inl e ↦ inr (
            ap (λ (x : Agreement). is_created x.status) (sym e) ∙ fresh,
            due (ap (λ (x : Agreement). x.id) (sym e) ∙ (==_iff c.id id).0 mine),
            ap (set_status now (λ _. expired)) e,
          )
          | inr k ↦ absurd (cc (ap (λ (x : Agreement). is_created x.status) k.2, fresh))
        ])
  ]

  update-Expires :
      (id : ℕ) (rows cur : List Agreement)
      → Pointwise (Expires now grace chain_ts) rows cur
      → All (λ (r : Agreement). r.id ≡ id → r.terms.deadline + grace < chain_ts) rows
      → Pointwise
          (Expires now grace chain_ts)
          rows
          (update (at_status id is_created) (set_status now (λ _. expired)) cur)
  unfolding update
  update-Expires id [] [] h due = tt
  update-Expires id [] (c ∷ cur) h due = h
  update-Expires id (r ∷ rows) [] h due = h
  update-Expires id (r ∷ rows) (c ∷ cur) (h, rest) (d, due) =
      (mark-Expires id r c h d, update-Expires id rows cur rest due)

  step-Expires :
      (faults : ExpireFaults) (a : Agreement) (rows : List Agreement) (s : Services)
      → Due rows a
      → Pointwise (Expires now grace chain_ts) rows s.registry.agreements
      → Pointwise
          (Expires now grace chain_ts)
          rows
          (expire_agreement now faults a s).registry.agreements
  unfolding expire_agreement mark_indexing_agreement_as_expired update_or_fail after_mark
  step-Expires faults a rows s due h =
      let current = s.registry.agreements in
      let p = at_status a.id is_created in
      go faults.mark_fault (exists p current) (update p (set_status now (λ _. expired)) current)
        (update-Expires a.id rows current h due)
    where
      go :
          (fault found : Bool) (marked : List Agreement)
          → Pointwise (Expires now grace chain_ts) rows marked
          → Pointwise
              (Expires now grace chain_ts)
              rows
              (after_mark faults a
                (reached fault (if found then ok marked else err no_records_updated))
                s).registry.agreements
      go true found marked k = h
      go false false marked k = h
      go false true marked k =
          subst (Pointwise (Expires now grace chain_ts) rows)
            (sym (after_mark-rows faults a marked s)) k

  each-Expires :
      (faults : ℕ → ExpireFaults) (budget : ℕ) (listed rows : List Agreement) (s : Services)
      → All (Due rows) listed
      → Pointwise (Expires now grace chain_ts) rows s.registry.agreements
      → Pointwise
          (Expires now grace chain_ts)
          rows
          (expire_each now faults budget listed s).registry.agreements
  unfolding expire_each
  each-Expires faults zero listed rows s due h = h
  each-Expires faults (suc budget) [] rows s due h = h
  each-Expires faults (suc budget) (a ∷ listed) rows s (d, due) h =
      each-Expires faults budget listed rows (expire_agreement now (faults a.id) a s) due
        (step-Expires (faults a.id) a rows s d h)

same-Expires :
    (now grace chain_ts : ℕ) (rows : List Agreement)
    → Pointwise (Expires now grace chain_ts) rows rows
same-Expires now grace chain_ts [] = tt
same-Expires now grace chain_ts (r ∷ rows) = (inl refl, same-Expires now grace chain_ts rows)

-- Whatever fails and wherever it is stopped, a scan leaves every row as it was or expired, and
-- expires only agreements that were created and whose deadline is more than the grace period
-- before the chain's time, under the primary key.
pub expiration_scan-Expires :
    (now grace batch_size chain_ts : ℕ) (query_fault : Bool) (faults : ℕ → ExpireFaults)
    (budget : ℕ) (s : Services)
    → PrimaryKey s.registry.agreements
    → Pointwise
        (Expires now grace chain_ts)
        s.registry.agreements
        (expiration_scan now grace batch_size
          (some chain_ts)
          query_fault
          faults
          budget
          s).registry.agreements
unfolding expiration_scan
expiration_scan-Expires now grace batch_size chain_ts true faults budget s key =
    same-Expires now grace chain_ts s.registry.agreements
expiration_scan-Expires now grace batch_size chain_ts false faults budget s key =
    each-Expires now grace chain_ts faults budget _ s.registry.agreements s
      (listed-Due now grace chain_ts batch_size s.registry.agreements key)
      (same-Expires now grace chain_ts s.registry.agreements)
