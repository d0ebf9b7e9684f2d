-- ===== src/Registry/Listener.antt =====
-- The rows of dipper_chain_listener_state and of dipper_indexer_dips_info_missing: the methods of
-- dipper-pgregistry/src/postgres.rs on the place of the chain listener and on the indexers whose
-- DIPs info cannot be read.
use dipper.Prelude.{
  ℕ, ◌+◌, ◌^◌, ◌<◌, ◌≡◌, ◌≢◌, refl, sym, ◌∙◌, ap, Bool, true, false, not, ◌&&◌, List, [], ◌∷◌, map,
  Option, none, some, ℤ, pos, negsuc, as_i64, as_u64, as_u64-as_i64, ◌==◌, ==_refl, ==_iff, inl,
  inr, Bool-cases, any_eq, is_none, ltb, if◌then◌else◌, select, update, distinct, ◌++◌,
}

pub record ListenerRow : Type 0 where
  pub chain_id : ℤ
  pub last_processed_block : ℤ
  pub last_processed_id : Option ℕ
  pub last_processed_block_timestamp : Option ℤ

-- What the listener reads and writes.
pub record ChainListenerStateRow : Type 0 where
  pub listened_chain : ℕ
  pub block_number : ℕ
  pub agreement_id : Option ℕ
  pub block_timestamp : Option ℕ

abbrev pub same_ℤ : ℤ → ℤ → Bool
same_ℤ (pos m) (pos n) = m == n
same_ℤ (negsuc m) (negsuc n) = m == n
same_ℤ (pos m) (negsuc n) = false
same_ℤ (negsuc m) (pos n) = false

abbrev pub stored_time : Option ℕ → Option ℤ
stored_time none = none
stored_time (some t) = some (as_i64 t)

abbrev pub read_time : Option ℤ → Option ℕ
read_time none = none
read_time (some t) = some (as_u64 t)

abbrev pub read_row : ListenerRow → ChainListenerStateRow
read_row r = record {
  listened_chain = as_u64 r.chain_id;
  block_number = as_u64 r.last_processed_block;
  agreement_id = r.last_processed_id;
  block_timestamp = read_time r.last_processed_block_timestamp;
}

unfoldable pub get_chain_listener_state : ℕ → List ListenerRow → Option ChainListenerStateRow
get_chain_listener_state chain [] = none
get_chain_listener_state chain (r ∷ rows) =
    let rest = get_chain_listener_state chain rows in
    if same_ℤ r.chain_id (as_i64 chain) then some (read_row r) else rest

abbrev pub stored_row : ChainListenerStateRow → ListenerRow
stored_row s = record {
  chain_id = as_i64 s.listened_chain;
  last_processed_block = as_i64 s.block_number;
  last_processed_id = s.agreement_id;
  last_processed_block_timestamp = stored_time s.block_timestamp;
}

-- INSERT … ON CONFLICT (chain_id) DO UPDATE
unfoldable pub update_chain_listener_state :
    ChainListenerStateRow → List ListenerRow → List ListenerRow
update_chain_listener_state s [] = stored_row s ∷ []
update_chain_listener_state s (r ∷ rows) =
    let rest = update_chain_listener_state s rows in
    if same_ℤ r.chain_id (as_i64 s.listened_chain) then stored_row s ∷ rows else r ∷ rest

pub record MissingInfo : Type 0 where
  pub indexer : ℕ
  pub missing_secs : ℕ
  pub blocked_until : Option ℕ

pub record DipsInfoChecks : Type 0 where
  pub missing : List (ℕ × ℕ)
  pub cleared : List (ℕ × ℕ)

abbrev pub counts_of : List MissingInfo → List (ℕ × ℕ)
counts_of = map (λ (r : MissingInfo). (r.indexer, r.missing_secs))

unfoldable pub add_missing : ℕ → ℕ → List MissingInfo → List MissingInfo
add_missing added_secs id [] =
    record { indexer = id; missing_secs = added_secs; blocked_until = none } ∷ []
add_missing added_secs id (r ∷ rows) =
    let rest = add_missing added_secs id rows in
    if r.indexer == id
    then record r { missing_secs = r.missing_secs + added_secs } ∷ rows
    else r ∷ rest

unfoldable pub add_each : ℕ → List ℕ → List MissingInfo → List MissingInfo
unfolding add_missing
add_each added_secs [] rows = rows
add_each added_secs (id ∷ ids) rows = add_each added_secs ids (add_missing added_secs id rows)

-- `missing` names no indexer twice. The rows that stay are those of `missing`.
unfoldable pub record_dips_info_checks :
    List ℕ → ℕ → List MissingInfo → List MissingInfo × DipsInfoChecks
unfolding select add_each
record_dips_info_checks missing added_secs rows =
    let kept = add_each added_secs missing (select (λ r. any_eq r.indexer missing) rows) in
    (
      kept,
      record {
        missing = counts_of kept;
        cleared = counts_of (select (λ r. not (any_eq r.indexer missing)) rows);
      },
    )

unfoldable pub get_dips_info_blocks : ℕ → List MissingInfo → List ℕ
unfolding select
get_dips_info_blocks now rows =
    map (λ (r : MissingInfo). r.indexer)
      (select (λ r. elim r.blocked_until [ none ↦ false | some t ↦ ltb now t ]) rows)

unfoldable pub block_missing_dips_info :
    ℕ → List ℕ → ℕ → List MissingInfo → List MissingInfo × List ℕ
unfolding select update
block_missing_dips_info now ids for_secs rows = (
  update (λ r. any_eq r.indexer ids) (λ r. record r { blocked_until = some (now + for_secs) }) rows,
  map (λ (r : MissingInfo). r.indexer)
      (select (λ r. any_eq r.indexer ids && is_none r.blocked_until) rows),
)

-- An entry of the denylist: an indexer, and when it expires.
abbrev pub DenylistEntry : Type 0
DenylistEntry = ℕ × Option ℕ

-- UNION leaves no indexer twice.
unfoldable pub get_indexer_denylist : ℕ → List DenylistEntry → List MissingInfo → List ℕ
unfolding select get_dips_info_blocks distinct
get_indexer_denylist now entries rows = distinct (
    map (λ (e : DenylistEntry). e.0)
      (select (λ (e : DenylistEntry). elim e.1 [ none ↦ true | some t ↦ ltb now t ]) entries)
    ++ get_dips_info_blocks now rows)

same_ℤ_refl : (z : ℤ) → same_ℤ z z ≡ true
same_ℤ_refl (pos n) = ==_refl n
same_ℤ_refl (negsuc n) = ==_refl n

-- Numbers of 64 bits.
abbrev pub Fits64 : ChainListenerStateRow → Type 0
Fits64 s =
    (s.listened_chain < 2 ^ 64)
    × (s.block_number < 2 ^ 64)
    × ((t : ℕ) → s.block_timestamp ≡ some t → t < 2 ^ 64)

read_time_lem : (o : Option ℕ) → ((t : ℕ) → o ≡ some t → t < 2 ^ 64) → read_time (stored_time o) ≡ o
read_time_lem none h = refl
read_time_lem (some t) h = ap some (as_u64-as_i64 t (h t refl))

read_stored : (s : ChainListenerStateRow) → Fits64 s → read_row (stored_row s) ≡ s
read_stored s (c, b, t) =
    rw
      (
        as_u64-as_i64 s.listened_chain c,
        as_u64-as_i64 s.block_number b,
        read_time_lem s.block_timestamp t,
      )
      refl

same_ℤ_equal : (y z : ℤ) → same_ℤ y z ≡ true → y ≡ z
same_ℤ_equal (pos m) (pos n) h = ap pos ((==_iff m n).0 h)
same_ℤ_equal (negsuc m) (negsuc n) h = ap negsuc ((==_iff m n).0 h)
same_ℤ_equal (pos m) (negsuc n) h = absurd (cc h)
same_ℤ_equal (negsuc m) (pos n) h = absurd (cc h)

same_chain : (m n : ℕ) → m < 2 ^ 64 → n < 2 ^ 64 → same_ℤ (as_i64 m) (as_i64 n) ≡ true → m ≡ n
same_chain m n hm hn h =
    sym (as_u64-as_i64 m hm) ∙ ap as_u64 (same_ℤ_equal (as_i64 m) (as_i64 n) h) ∙ as_u64-as_i64 n hn

read_back :
    (s : ChainListenerStateRow) (rows : List ListenerRow)
    → Fits64 s
    → get_chain_listener_state s.listened_chain (update_chain_listener_state s rows) ≡ some s
unfolding get_chain_listener_state update_chain_listener_state
read_back s [] h = rw (same_ℤ_refl (as_i64 s.listened_chain)) (ap some (read_stored s h))
read_back s (r ∷ rows) h = elim (Bool-cases (same_ℤ r.chain_id (as_i64 s.listened_chain))) [
  | inl y ↦ rw (y, same_ℤ_refl (as_i64 s.listened_chain)) (ap some (read_stored s h))
  | inr n ↦ rw (n, n) (read_back s rows h)
]

apart :
    (s : ChainListenerStateRow) (chain : ℕ)
    → s.listened_chain < 2 ^ 64
    → chain < 2 ^ 64
    → chain ≢ s.listened_chain
    → same_ℤ (as_i64 s.listened_chain) (as_i64 chain) ≡ false
apart s chain hs hc ne = elim (Bool-cases (same_ℤ (as_i64 s.listened_chain) (as_i64 chain))) [
  | inl y ↦ absurd (ne (sym (same_chain s.listened_chain chain hs hc y)))
  | inr n ↦ n
]

others_kept :
    (s : ChainListenerStateRow) (rows : List ListenerRow) (chain : ℕ)
    → same_ℤ (as_i64 s.listened_chain) (as_i64 chain) ≡ false
    → get_chain_listener_state chain (update_chain_listener_state s rows)
      ≡ get_chain_listener_state chain rows
unfolding get_chain_listener_state update_chain_listener_state
others_kept s [] chain miss = rw miss refl
others_kept s (r ∷ rows) chain miss =
    elim (Bool-cases (same_ℤ r.chain_id (as_i64 s.listened_chain))) [
      | inl y ↦
          let same = same_ℤ_equal r.chain_id (as_i64 s.listened_chain) y in
          let other : same_ℤ r.chain_id (as_i64 chain) ≡ false =
            ap (λ z. same_ℤ z (as_i64 chain)) same ∙ miss in
          rw (y, miss, other) refl
      | inr n ↦ rw n (
          ap (λ rest. if same_ℤ r.chain_id (as_i64 chain) then some (read_row r) else rest)
            (others_kept s rows chain miss))
    ]

-- What the listener last wrote for a chain is what it reads back, with every number of 64 bits, also
-- those that the signed columns hold as negative ones, and the rows of other chains stay.
pub update_chain_listener_state-get :
    (s : ChainListenerStateRow) (rows : List ListenerRow) (chain : ℕ)
    → Fits64 s
    → chain < 2 ^ 64
    → chain ≢ s.listened_chain
    → (get_chain_listener_state s.listened_chain (update_chain_listener_state s rows) ≡ some s)
      × (get_chain_listener_state chain (update_chain_listener_state s rows)
          ≡ get_chain_listener_state chain rows)
update_chain_listener_state-get s rows chain h hc ne =
    (read_back s rows h, others_kept s rows chain (apart s chain h.0 hc ne))
