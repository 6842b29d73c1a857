-- ===== src/Migrate/State/Scan.antt =====
-- migrate/state.py: the scans of `MigrationStateManager` over all keys of the store.
use quantum_safe_py.Prelude.{
  ℕ, suc, ◌+◌, ◌≡◌, refl, Bool, true, false, Option, none, some, List, [], ◌∷◌, Bytes, text, length,
  ends_with, drop_last, ltb, ◌==◌, if◌then◌else◌, arith,
}
use quantum_safe_py.Cbor.{Cbor2}
use quantum_safe_py.Keys.{
  MigrationState, classical_only, hybrid_transition, pqc_preferred, pqc_only,
}
use quantum_safe_py.Migrate.State.{get_current_state}
use quantum_safe_py.Migrate.State.Storage.{Store}
use quantum_safe_py.Migrate.State.Records.{Floats, same_state}

-- `s <= t` on texts, by code points.
unfoldable pub text_le : Bytes → Bytes → Bool
text_le [] t = true
text_le (a ∷ s) [] = false
text_le (a ∷ s) (b ∷ t) = if a == b then text_le s t else ltb a b

unfoldable pub insert_text : Bytes → List Bytes → List Bytes
insert_text s [] = s ∷ []
insert_text s (t ∷ ts) = if text_le s t then s ∷ t ∷ ts else t ∷ insert_text s ts

-- `sorted(...)`
unfoldable pub sorted : List Bytes → List Bytes
sorted [] = []
sorted (s ∷ ss) = insert_text s (sorted ss)

-- `current == state`
unfoldable pub is_state : MigrationState → Option MigrationState → Bool
is_state s none = false
is_state s (some t) = same_state t s

-- `state in (MigrationState.CLASSICAL_ONLY, None)`
unfoldable pub is_unmigrated : Option MigrationState → Bool
is_unmigrated none = true
is_unmigrated (some classical_only) = true
is_unmigrated (some _) = false

-- The key IDs of the entries that end in `_current`, in the order of the store.
unfoldable pub current_ids : Store → List Bytes
current_ids [] = []
current_ids ((k, v) ∷ s) =
    if ends_with k (text "_current") then drop_last 8 k ∷ current_ids s else current_ids s

unfoldable pub select : (Bytes → Bool) → List Bytes → List Bytes
select p [] = []
select p (k ∷ ks) = if p k then k ∷ select p ks else select p ks

-- `counts`, with the number of keys of unknown state.
pub record Progress : Type 0 where
  pub in_classical_only : ℕ
  pub in_hybrid_transition : ℕ
  pub in_pqc_preferred : ℕ
  pub in_pqc_only : ℕ
  pub unknown : ℕ

-- One round of `counts[...] += 1`.
unfoldable pub count_state : Option MigrationState → Progress → Progress
count_state none p = record p { unknown = suc p.unknown }
count_state (some classical_only) p = record p { in_classical_only = suc p.in_classical_only }
count_state (some hybrid_transition) p = record p {
  in_hybrid_transition = suc p.in_hybrid_transition;
}
count_state (some pqc_preferred) p = record p { in_pqc_preferred = suc p.in_pqc_preferred }
count_state (some pqc_only) p = record p { in_pqc_only = suc p.in_pqc_only }

unfoldable pub count_all : (Bytes → Option MigrationState) → List Bytes → Progress → Progress
count_all state [] p = p
count_all state (k ∷ ks) p = count_all state ks (count_state (state k) p)

module _ (c : Cbor2) (f : Floats) (cas : Bool) where
  unfoldable pub keys_by_state : MigrationState → Store → List Bytes
  keys_by_state state s =
      sorted (select (λ k. is_state state (get_current_state c f cas k s)) (current_ids s))

  unfoldable pub needs_migration : Store → List Bytes
  needs_migration s =
      sorted (select (λ k. is_unmigrated (get_current_state c f cas k s)) (current_ids s))

  unfoldable pub migration_progress : Store → Progress
  migration_progress s =
      count_all (λ k. get_current_state c f cas k s) (current_ids s)
        (record {
          in_classical_only = 0;
          in_hybrid_transition = 0;
          in_pqc_preferred = 0;
          in_pqc_only = 0;
          unknown = 0;
        })

length-insert_text : (s : Bytes) (ts : List Bytes) → length (insert_text s ts) ≡ suc (length ts)
unfolding insert_text
length-insert_text s [] = refl
length-insert_text s (t ∷ ts) = ground (arith, length-insert_text s ts)

length-sorted : (ts : List Bytes) → length (sorted ts) ≡ length ts
unfolding sorted
length-sorted [] = refl
length-sorted (s ∷ ts) = omega (arith, length-insert_text s (sorted ts), length-sorted ts)

-- What a count adds to, for each state.
module _ (state : Bytes → Option MigrationState) where
  abbrev in_state : MigrationState → List Bytes → ℕ
  in_state t ks = length (select (λ k. is_state t (state k)) ks)

  abbrev unmigrated : List Bytes → ℕ
  unmigrated ks = length (select (λ k. is_unmigrated (state k)) ks)

  -- The progress `r` is `p` with the keys counted in.
  abbrev Counts : Progress → Progress → List Bytes → Type 0
  Counts r p ks =
      (r.in_classical_only ≡ p.in_classical_only + in_state classical_only ks)
      × (r.in_hybrid_transition ≡ p.in_hybrid_transition + in_state hybrid_transition ks)
      × (r.in_pqc_preferred ≡ p.in_pqc_preferred + in_state pqc_preferred ks)
      × (r.in_pqc_only ≡ p.in_pqc_only + in_state pqc_only ks)
      × (r.in_classical_only + r.unknown ≡ p.in_classical_only + p.unknown + unmigrated ks)

  Counts-count_state :
      (r p : Progress) (k : Bytes) (ks : List Bytes) (o : Option MigrationState)
      → state k ≡ o
      → Counts r (count_state o p) ks
      → Counts r p (k ∷ ks)
  unfolding count_state select is_state is_unmigrated same_state
  Counts-count_state r p k ks none e h = rw e (omega arith)
  Counts-count_state r p k ks (some classical_only) e h = rw e (omega arith)
  Counts-count_state r p k ks (some hybrid_transition) e h = rw e (omega arith)
  Counts-count_state r p k ks (some pqc_preferred) e h = rw e (omega arith)
  Counts-count_state r p k ks (some pqc_only) e h = rw e (omega arith)

  count_all-Counts : (ks : List Bytes) (p : Progress) → Counts (count_all state ks p) p ks
  unfolding count_all select
  count_all-Counts [] p = omega arith
  count_all-Counts (k ∷ ks) p =
      Counts-count_state (count_all state ks (count_state (state k) p)) p k ks (state k) refl
        (count_all-Counts ks (count_state (state k) p))

-- The progress agrees with the lists: `keys_by_state` has as many keys for each state as
-- `migration_progress` counts, and `needs_migration` those counted as classical only or unknown.
pub migration_progress_counts :
    (c : Cbor2) (f : Floats) (cas : Bool) (s : Store)
    → ((migration_progress c f cas s).in_classical_only
        ≡ length (keys_by_state c f cas classical_only s))
      × ((migration_progress c f cas s).in_hybrid_transition
          ≡ length (keys_by_state c f cas hybrid_transition s))
      × ((migration_progress c f cas s).in_pqc_preferred
          ≡ length (keys_by_state c f cas pqc_preferred s))
      × ((migration_progress c f cas s).in_pqc_only ≡ length (keys_by_state c f cas pqc_only s))
      × ((migration_progress c f cas s).in_classical_only + (migration_progress c f cas s).unknown
          ≡ length (needs_migration c f cas s))
unfolding migration_progress keys_by_state needs_migration
migration_progress_counts c f cas s =
    let state = λ (k : Bytes). get_current_state c f cas k s in
    let counts = count_all-Counts state (current_ids s) (record {
      in_classical_only = 0;
      in_hybrid_transition = 0;
      in_pqc_preferred = 0;
      in_pqc_only = 0;
      unknown = 0;
    }) in
    omega (
      arith,
      counts,
      length-sorted (select (λ k. is_state classical_only (state k)) (current_ids s)),
      length-sorted (select (λ k. is_state hybrid_transition (state k)) (current_ids s)),
      length-sorted (select (λ k. is_state pqc_preferred (state k)) (current_ids s)),
      length-sorted (select (λ k. is_state pqc_only (state k)) (current_ids s)),
      length-sorted (select (λ k. is_unmigrated (state k)) (current_ids s)),
    )
