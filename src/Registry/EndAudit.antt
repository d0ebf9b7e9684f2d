-- ===== src/Registry/EndAudit.antt =====
-- What the audit writes of dipper-pgregistry/src/postgres.rs keep of an agreement's recorded end.
use mathlib.Core.Path.{ap₂}
use dipper.Prelude.{
  ℕ, ◌≡◌, refl, ◌∙◌, ap, Bool, true, false, ◌&&◌, List, [], ◌∷◌, Option, none, some, String, arith,
  ℤ, leb_ℤ, as_i64, inl, inr, if◌then◌else◌, Bool-cases, update, is_some, is_none, coalesce,
}
use dipper.Registry.Types.{Agreement}
use dipper.Registry.Ends.{
  has_id, find, sql_and, sql_or, sql_lt, sql_ge, case_when, replace_end, write_end, update_end,
  end_correction, EndCorrection, recorded_end, record_cancel_audit, write_accept_and_end,
  record_accept_and_cancel_audit,
}
use dipper.Registry.Rows.{find-id, find-update, written, option_map}

-- The rule of replacement, on the columns it reads.
abbrev rule : Option ℤ → ℤ → Option String → Option ℤ → Option String → Option Bool
rule accept at tx canceled_at canceled_tx =
    sql_and (sql_ge (some at) accept)
      (sql_or (sql_lt canceled_at accept) (some (is_none canceled_tx && is_some tx)))

abbrev applies : Option Bool → Bool
applies none = false
applies (some b) = b

-- After one write of an end, the same write replaces nothing.
settled :
    (accept : Option ℤ) (at : ℤ) (tx : Option String) (was : Option ℤ) (was_tx : Option String)
    → let r = rule accept at tx was was_tx in
      applies (
        rule accept at tx
          (case_when r (some at) (coalesce was (some at)))
          (case_when r tx (coalesce was_tx tx)))
      ≡ false
settled none at tx was was_tx = undecided (sql_or (sql_lt _ none) _)
  where
    undecided : (b : Option Bool) → applies (sql_and none b) ≡ false
    undecided none = refl
    undecided (some true) = refl
    undecided (some false) = refl
settled (some k) at none none none = ground arith
settled (some k) at (some u) none none = ground arith
settled (some k) at none none (some t) = ground arith
settled (some k) at (some u) none (some t) = ground arith
settled (some k) at none (some w) none = ground arith
settled (some k) at (some u) (some w) none = ground arith
settled (some k) at none (some w) (some t) = ground arith
settled (some k) at (some u) (some w) (some t) = ground arith

case_else {ℓ} : {A : Type ℓ} (r : Option Bool) (x y : A) → applies r ≡ false → case_when r x y ≡ y
case_else none x y h = refl
case_else (some true) x y h = absurd (cc h)
case_else (some false) x y h = refl

-- A column that was written keeps what the write made of it.
again {ℓ} :
    {A : Type ℓ} (r : Option Bool) (was new : Option A)
    → coalesce (case_when r new (coalesce was new)) new ≡ case_when r new (coalesce was new)
again none none none = refl
again none none (some n) = refl
again none (some w) new = refl
again (some false) none none = refl
again (some false) none (some n) = refl
again (some false) (some w) new = refl
again (some true) was none = refl
again (some true) was (some n) = refl

abbrev with_end : Agreement → Option ℤ → Option String → Option String → Option ℕ → Agreement
with_end a c b t e = record a {
  canceled_at = c;
  canceled_by = b;
  canceled_tx = t;
  terminated_event_emitted_at = e;
}

write_end-again :
    (accept : Option ℤ) (at : ℤ) (by : String) (tx : Option String) (a : Agreement)
    → write_end accept at by tx (write_end accept at by tx a) ≡ write_end accept at by tx a
unfolding write_end
write_end-again accept at by tx a =
    let r = replace_end accept at tx a in
    let c = case_when r (some at) (coalesce a.canceled_at (some at)) in
    let b = case_when r (some by) (coalesce a.canceled_by (some by)) in
    let t = case_when r tx (coalesce a.canceled_tx tx) in
    let e = case_when r none a.terminated_event_emitted_at in
    let s = rule accept at tx c t in
    let off : applies s ≡ false = settled accept at tx a.canceled_at a.canceled_tx in
    let pc : case_when s (some at) (coalesce c (some at)) ≡ c =
      case_else s (some at) (coalesce c (some at)) off ∙ again r a.canceled_at (some at) in
    let pb : case_when s (some by) (coalesce b (some by)) ≡ b =
      case_else s (some by) (coalesce b (some by)) off ∙ again r a.canceled_by (some by) in
    let pt : case_when s tx (coalesce t tx) ≡ t =
      case_else s tx (coalesce t tx) off ∙ again r a.canceled_tx tx in
    let pe : case_when s none e ≡ e = case_else s none e off in
    ap₂ (λ x y. with_end a x y (case_when s tx (coalesce t tx)) (case_when s none e)) pc pb
    ∙ ap₂ (λ x y. with_end a c b x y) pt pe

update-again :
    (p : Agreement → Bool) (f : Agreement → Agreement)
    → ((a : Agreement) → f (f a) ≡ f a)
    → ((a : Agreement) → p (f a) ≡ p a)
    → (rows : List Agreement) → update p f (update p f rows) ≡ update p f rows
unfolding update
update-again p f twice same [] = refl
update-again p f twice same (r ∷ rows) = elim (Bool-cases (p r)) [
  | inl y ↦ rw (y, same r, y) (ap₂ (λ x xs. x ∷ xs) (twice r) (update-again p f twice same rows))
  | inr n ↦ rw (n, n) (ap (λ xs. r ∷ xs) (update-again p f twice same rows))
]

no_correction : (a : Agreement) → end_correction a a ≡ none
unfolding end_correction
no_correction a = go a.terminated_event_emitted_at
  where
    go :
        (t : Option ℕ)
        → if◌then◌else◌ {A = Option EndCorrection}
            (is_some t && is_none t)
            (some (record { old = recorded_end a; new = recorded_end a }))
            none
          ≡ none
    go none = refl
    go (some x) = refl

corrected :
    (id : ℕ) (f : Agreement → Agreement) (rows : List Agreement)
    → ((a : Agreement) → f (f a) ≡ f a)
    → ((a : Agreement) → (f a).id ≡ a.id)
    → elim (find id (update (has_id id) f rows)) as (λ _. Option EndCorrection) [
      | none ↦ none
      | some a ↦ end_correction a (f a)
    ]
      ≡ none
corrected id f rows twice keeps =
    ap
      (λ o. elim o as (λ _. Option EndCorrection) [ none ↦ none | some a ↦ end_correction a (f a) ])
      (find-update (has_id id) f keeps id rows)
    ∙ go (find id rows) refl
  where
    go :
        (o : Option Agreement)
        → find id rows ≡ o
        → elim (option_map (written (has_id id) f) o) as (λ _. Option EndCorrection) [
          | none ↦ none
          | some a ↦ end_correction a (f a)
        ]
          ≡ none
    go none e = refl
    go (some a) e =
        let mine : has_id id a ≡ true = find-id id rows {b = a} e in
        rw (mine, twice a) (no_correction (f a))

-- A cancel seen a second time is recorded once: the same write on the table it left changes
-- nothing, and reports no correction.
pub record_cancel_audit-again :
    (id canceled_at : ℕ) (by : String) (tx : Option String) (rows : List Agreement)
    → record_cancel_audit id canceled_at by tx (record_cancel_audit id canceled_at by tx rows).0
      ≡ ((record_cancel_audit id canceled_at by tx rows).0, none)
unfolding record_cancel_audit update_end write_end
record_cancel_audit-again id canceled_at by tx rows =
    let f : Agreement → Agreement = λ a. write_end a.accepted_at (as_i64 canceled_at) by tx a in
    let twice : (a : Agreement) → f (f a) ≡ f a =
      λ a. write_end-again a.accepted_at (as_i64 canceled_at) by tx a in
    ap₂ (λ x y. (x, y)) (update-again (has_id id) f twice (λ a. refl) rows)
      (corrected id f rows twice (λ a. refl))

in_order :
    (k at : ℤ) (tx : Option String) (was : Option ℤ) (was_tx : Option String)
    → leb_ℤ k at ≡ true
    → sql_ge
        (case_when (rule (some k) at tx was was_tx) (some at) (coalesce was (some at)))
        (some k)
      ≡ some true
in_order k at none none none h = ground (arith, h)
in_order k at (some u) none none h = ground (arith, h)
in_order k at none none (some t) h = ground (arith, h)
in_order k at (some u) none (some t) h = ground (arith, h)
in_order k at none (some w) none h = ground (arith, h)
in_order k at (some u) (some w) none h = ground (arith, h)
in_order k at none (some w) (some t) h = ground (arith, h)
in_order k at (some u) (some w) (some t) h = ground (arith, h)

in_order_after :
    (o : Option ℤ) (k at : ℤ) (tx : Option String) (was : Option ℤ) (was_tx : Option String)
    → sql_ge (some at) (coalesce o (some k)) ≡ some true
    → sql_ge
        (case_when (rule (coalesce o (some k)) at tx was was_tx) (some at) (coalesce was (some at)))
        (coalesce o (some k))
      ≡ some true
in_order_after none k at tx was was_tx h = in_order k at tx was was_tx (ground (arith, h))
in_order_after (some a) k at tx was was_tx h = in_order a at tx was was_tx (ground (arith, h))

-- When an accept and a cancel are recorded together, and the cancel is not before the accept on
-- record, or before the given one where none is, the row named holds an accept and an end
-- that is not before it.
pub record_accept_and_cancel_audit-order :
    (id accepted_at : ℕ) (accepted_tx : String) (canceled_at : ℕ) (by : String) (tx : Option String)
    (rows : List Agreement) (a : Agreement)
    → find id rows ≡ some a
    → sql_ge (some (as_i64 canceled_at)) (coalesce a.accepted_at (some (as_i64 accepted_at)))
      ≡ some true
    → (b : Agreement) × (find id
          (record_accept_and_cancel_audit id accepted_at accepted_tx canceled_at by tx rows).0
        ≡ some b)
      × (sql_ge b.canceled_at b.accepted_at ≡ some true)
unfolding record_accept_and_cancel_audit update_end write_accept_and_end write_end
record_accept_and_cancel_audit-order id accepted_at accepted_tx canceled_at by tx rows a e h =
    let f = write_accept_and_end (as_i64 accepted_at) accepted_tx (as_i64 canceled_at) by tx in
    let mine : has_id id a ≡ true = find-id id rows {b = a} e in
    let hit : written (has_id id) f a ≡ f a = rw mine in
    (
      f a,
      find-update (has_id id) f (λ r. refl) id rows
          ∙ ap (option_map (written (has_id id) f)) e
          ∙ ap some hit,
      in_order_after a.accepted_at (as_i64 accepted_at) (as_i64 canceled_at) tx a.canceled_at
          a.canceled_tx h,
    )
