-- ===== src/Chain/PageCursor.antt =====
-- The cursor of a page passes nothing that the page did not hand on
-- (get_changed_agreements of bin/dipper-service/src/network/service/chain_events.rs).
use mathlib.Core.Path.{subst}
use dipper.Prelude.{
  ℕ, ◌≡◌, refl, sym, Bool, true, false, List, [], ◌∷◌, ◌++◌, Option, none, some, String, arith, ◌⊎◌,
  inl, inr, ltb, leb, Bool-cases, Option-cases, All, All-map, select, length,
}
use dipper.Chain.Clock.{saturating_add}
use dipper.Chain.Cursor.{Cursor, at_block, cursor_lt}
use dipper.Chain.Snapshots.{AgreementStateSnapshot}
use dipper.Chain.Pages.{
  IndexingAgreementEntity, ChangedAgreementsResponse, ChangedAgreementsResult, Parsed,
  nothing_parsed, subgraph_page_size, position, earlier, last_position, parse_snapshot,
  parse_failure_cursor, gather, parse_entities, page_cursor, result_of, get_changed_agreements,
}

-- A snapshot stands in a list.
abbrev pub Among : AgreementStateSnapshot → List AgreementStateSnapshot → Type 0
Among s [] = ⊥
Among s (x ∷ xs) = (x ≡ s) ⊎ Among s xs

-- The two ways in which an entity is not lost: it is handed on, or the cursor stays before it.
abbrev pub Handed : Cursor → List AgreementStateSnapshot → Cursor → AgreementStateSnapshot → Type 0
Handed since snapshots cursor s =
    Among s snapshots ⊎ ((cursor_lt cursor (position s) ≡ true) ⊎ (cursor ≡ since))

abbrev pub Kept : Cursor → Cursor → Option Cursor → Type 0
Kept since cursor none = cursor ≡ since
Kept since cursor (some failed) = (cursor_lt cursor failed ≡ true) ⊎ (cursor ≡ since)

abbrev pub NotLost :
    Cursor
    → List AgreementStateSnapshot
    → Cursor
    → Option AgreementStateSnapshot
    → Option Cursor
    → Type 0
NotLost since snapshots cursor (some s) failed = Handed since snapshots cursor s
NotLost since snapshots cursor none failed = Kept since cursor failed

-- If a is not before c and b is before c, then b is before a or at it.
lt_of_not_lt :
    (a b c : Cursor) → cursor_lt a c ≡ false → cursor_lt b c ≡ true → cursor_lt b a ≡ true
lt_of_not_lt a b c p q = ground arith

-- The earliest failure comes no later than a place.
abbrev Reaches : Cursor → Option Cursor → Type 0
Reaches c none = ⊥
Reaches c (some f) = cursor_lt c f ≡ false

-- What the loop over the entities has of one of them.
abbrev Gathered : Parsed → Option AgreementStateSnapshot → Option Cursor → Type 0
Gathered acc (some s) failed = Among s acc.snapshots
Gathered acc none (some c) = Reaches c acc.earliest_failure
Gathered acc none none = ltb 0 acc.unlocatable_failures ≡ true

Among-append :
    (s : AgreementStateSnapshot) (xs ys : List AgreementStateSnapshot)
    → Among s xs
    → Among s (xs ++ ys)
Among-append s [] ys h = elim h [ ]
Among-append s (x ∷ xs) ys (inl e) = inl e
Among-append s (x ∷ xs) ys (inr h) = inr (Among-append s xs ys h)

Among-append_last :
    (s : AgreementStateSnapshot) (xs : List AgreementStateSnapshot) → Among s (xs ++ s ∷ [])
Among-append_last s [] = inl refl
Among-append_last s (x ∷ xs) = inr (Among-append_last s xs)

earlier-le : (o : Option Cursor) (c : Cursor) → cursor_lt c (earlier o c) ≡ false
earlier-le none c = ground arith
earlier-le (some f) c = elim (Bool-cases (cursor_lt c f)) [
  | inl lt ↦ rw lt (ground arith)
  | inr ge ↦ rw ge ge
]

earlier-keeps : (o : Option Cursor) (c c' : Cursor) → Reaches c o → Reaches c (some (earlier o c'))
earlier-keeps none c c' h = elim h [ ]
earlier-keeps (some g) c c' h = elim (Bool-cases (cursor_lt c' g)) [
  | inl lt ↦ rw lt (ground arith)
  | inr ge ↦ rw ge h
]

gather-new :
    (acc : Parsed) (s : Option AgreementStateSnapshot) (c : Option Cursor)
    → Gathered (gather acc s c) s c
gather-new acc (some s) c = Among-append_last s acc.snapshots
gather-new acc none (some c) = earlier-le acc.earliest_failure c
gather-new acc none none = ground arith

gather-keeps :
    (acc : Parsed) (s s' : Option AgreementStateSnapshot) (c c' : Option Cursor)
    → Gathered acc s c
    → Gathered (gather acc s' c') s c
gather-keeps acc (some s) (some s') c c' h = Among-append s acc.snapshots (s' ∷ []) h
gather-keeps acc (some s) none c (some c') h = h
gather-keeps acc (some s) none c none h = h
gather-keeps acc none (some s') (some c) c' h = h
gather-keeps acc none none (some c) (some c') h = earlier-keeps acc.earliest_failure c c' h
gather-keeps acc none none (some c) none h = h
gather-keeps acc none (some s') none c' h = h
gather-keeps acc none none none (some c') h = h
gather-keeps acc none none none none h = ground arith

module _ (parse_u64 parse_id parse_address : String → Option ℕ) where
  abbrev parsed : Parsed → List IndexingAgreementEntity → Parsed
  parsed = parse_entities parse_u64 parse_id parse_address

  abbrev Holds : Parsed → IndexingAgreementEntity → Type 0
  Holds acc e =
      Gathered acc (parse_snapshot parse_u64 parse_id parse_address e)
        (parse_failure_cursor parse_u64 parse_id parse_address e)

  parse_entities-keeps :
      (acc : Parsed) (es : List IndexingAgreementEntity) (e : IndexingAgreementEntity)
      → Holds acc e
      → Holds (parsed acc es) e
  unfolding parse_entities
  parse_entities-keeps acc [] e h = h
  parse_entities-keeps acc (x ∷ es) e h =
      parse_entities-keeps
        (gather acc (parse_snapshot parse_u64 parse_id parse_address x)
          (parse_failure_cursor parse_u64 parse_id parse_address x))
        es e
        (gather-keeps acc (parse_snapshot parse_u64 parse_id parse_address e)
          (parse_snapshot parse_u64 parse_id parse_address x)
          (parse_failure_cursor parse_u64 parse_id parse_address e)
          (parse_failure_cursor parse_u64 parse_id parse_address x) h)

  parse_entities-Holds :
      (acc : Parsed) (es : List IndexingAgreementEntity) → All (Holds (parsed acc es)) es
  unfolding parse_entities
  parse_entities-Holds acc [] = tt
  parse_entities-Holds acc (x ∷ es) =
      let acc' : Parsed =
        gather acc (parse_snapshot parse_u64 parse_id parse_address x)
          (parse_failure_cursor parse_u64 parse_id parse_address x) in
      (
        parse_entities-keeps acc' es x (
            gather-new acc (parse_snapshot parse_u64 parse_id parse_address x)
              (parse_failure_cursor parse_u64 parse_id parse_address x)),
        parse_entities-Holds acc' es,
      )

select-Among :
    (failed : Cursor) (s : AgreementStateSnapshot) (xs : List AgreementStateSnapshot)
    → cursor_lt (position s) failed ≡ true
    → Among s xs
    → Among s (select (λ s. cursor_lt (position s) failed) xs)
unfolding select
select-Among failed s [] lt h = elim h [ ]
select-Among failed s (x ∷ xs) lt (inl e) =
    let lt' : cursor_lt (position x) failed ≡ true =
      subst (λ z. cursor_lt (position z) failed ≡ true) (sym e) lt in
    rw lt' (inl e)
select-Among failed s (x ∷ xs) lt (inr h) = elim (Bool-cases (cursor_lt (position x) failed)) [
  | inl y ↦ rw y (inr (select-Among failed s xs lt h))
  | inr n ↦ rw n (select-Among failed s xs lt h)
]

-- The last of the kept snapshots stands before the failure, as `since` does if it is not `since`.
last_position-Kept :
    (failed since : Cursor) (xs : List AgreementStateSnapshot) (at : Cursor)
    → Kept since at (some failed)
    → Kept since (last_position (select (λ s. cursor_lt (position s) failed) xs) at) (some failed)
unfolding select
last_position-Kept failed since [] at h = h
last_position-Kept failed since (x ∷ xs) at h = elim (Bool-cases (cursor_lt (position x) failed)) [
  | inl y ↦ rw y (last_position-Kept failed since xs (position x) (inl y))
  | inr n ↦ rw n (last_position-Kept failed since xs at h)
]

Kept-NotLost :
    (failed since cursor : Cursor) (acc : Parsed) (s : Option AgreementStateSnapshot)
    (c : Option Cursor)
    → acc.earliest_failure ≡ some failed
    → ltb 0 acc.unlocatable_failures ≡ false
    → Kept since cursor (some failed)
    → Gathered acc s c
    → NotLost since (select (λ s. cursor_lt (position s) failed) acc.snapshots) cursor s c
Kept-NotLost failed since cursor acc (some s) c e none_lost (inr same) h = inr (inr same)
Kept-NotLost failed since cursor acc (some s) c e none_lost (inl before) h =
    elim (Bool-cases (cursor_lt (position s) failed)) [
      | inl y ↦ inl (select-Among failed s acc.snapshots y h)
      | inr n ↦ inr (inl (lt_of_not_lt (position s) cursor failed n before))
    ]
Kept-NotLost failed since cursor acc none (some c) e none_lost (inr same) h = inr same
Kept-NotLost failed since cursor acc none (some c) e none_lost (inl before) h =
    inl (lt_of_not_lt c cursor failed (subst (Reaches c) e h) before)
Kept-NotLost failed since cursor acc none none e none_lost kept h = ground (arith, h, none_lost)

page_cursor-NotLost :
    (since : Cursor) (latest_block count : ℕ) (acc : Parsed) (s : Option AgreementStateSnapshot)
    (c : Option Cursor)
    → Gathered acc s c
    → let page = page_cursor since latest_block count acc in NotLost since page.0 page.1 s c
unfolding page_cursor
page_cursor-NotLost since latest_block count acc s c h =
    elim (Bool-cases (ltb 0 acc.unlocatable_failures)) [
      | inl lost ↦ rw lost (stays s c)
      | inr none_lost ↦ elim (Option-cases acc.earliest_failure) [
        | inl e ↦
            rw (none_lost, e)
              (elim (Bool-cases (leb subgraph_page_size count)) [
                | inl y ↦ rw y (handed s c (last_position acc.snapshots since) e none_lost h)
                | inr n ↦ rw n (handed s c (at_block (saturating_add latest_block 1)) e none_lost h)
              ])
        | inr (failed, e) ↦
            rw (none_lost, e)
              (Kept-NotLost failed since
                (last_position (select (λ s. cursor_lt (position s) failed) acc.snapshots) since)
                acc s c e none_lost (last_position-Kept failed since acc.snapshots since (inr refl))
                h)
      ]
    ]
  where
    stays :
        (s : Option AgreementStateSnapshot) (c : Option Cursor)
        → NotLost since acc.snapshots since s c
    stays (some s) c = inr (inr refl)
    stays none (some c) = inr refl
    stays none none = refl

    handed :
        (s : Option AgreementStateSnapshot) (c : Option Cursor) (cursor : Cursor)
        → acc.earliest_failure ≡ none
        → ltb 0 acc.unlocatable_failures ≡ false
        → Gathered acc s c
        → NotLost since acc.snapshots cursor s c
    handed (some s) c cursor e none_lost h = inl h
    handed none (some c) cursor e none_lost h = elim (subst (Reaches c) e h) [ ]
    handed none none cursor e none_lost h = ground (arith, h, none_lost)

-- Whatever the parsers take for malformed, no entity of a page is lost: its snapshot is handed on,
-- or the cursor of the page stays before it, or is the cursor that the page was asked for. So a
-- change that cannot be read is asked for again.
pub get_changed_agreements-NotLost :
    (parse_u64 parse_id parse_address : String → Option ℕ) (now tolerance : ℕ) (bypass : Bool)
    (since : Cursor) (pinned : Option ℕ) (response : ChangedAgreementsResponse)
    (page : ChangedAgreementsResult)
    → get_changed_agreements parse_u64 parse_id parse_address now tolerance bypass since pinned
        response
      ≡ some page
    → All
        (λ e.
          NotLost since page.snapshots page.cursor
            (parse_snapshot parse_u64 parse_id parse_address e)
            (parse_failure_cursor parse_u64 parse_id parse_address e))
        response.indexing_agreements
unfolding get_changed_agreements
get_changed_agreements-NotLost parse_u64 parse_id parse_address now tolerance bypass since pinned
      response page h =
    let acc =
      parse_entities parse_u64 parse_id parse_address nothing_parsed response.indexing_agreements in
    let count : ℕ = length response.indexing_agreements in
    let cut = page_cursor since response.block_number count acc in
    let same : result_of response cut ≡ page = ground (arith, h) in
    subst
      (λ p.
        All
          (λ e.
            NotLost since p.snapshots p.cursor (parse_snapshot parse_u64 parse_id parse_address e)
              (parse_failure_cursor parse_u64 parse_id parse_address e))
          response.indexing_agreements)
      same
      (All-map
        (λ e held.
          page_cursor-NotLost since response.block_number count acc
            (parse_snapshot parse_u64 parse_id parse_address e)
            (parse_failure_cursor parse_u64 parse_id parse_address e) held)
        response.indexing_agreements
        (parse_entities-Holds parse_u64 parse_id parse_address nothing_parsed
          response.indexing_agreements))
