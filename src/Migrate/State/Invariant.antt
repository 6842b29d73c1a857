-- ===== src/Migrate/State/Invariant.antt =====
-- migrate/state.py: what holds between the accesses of concurrent calls of `transition`.
use quantum_safe_py.Prelude.{
  Bool, true, false, not, Option, none, some, List, [], ◌∷◌, ◌++◌, ◌≡◌, ◌≢◌, ◌⊎◌, inl, inr, refl,
  ap, Bytes, text, length, bytes_eq, bytes_eq_iff, append-nil, append_assoc, length-append,
  append_inj, Bool-cases, arith, ◌==◌, ◌&&◌, ◌||◌, if◌then◌else◌,
}
use quantum_safe_py.Outcome.{ok, value_error, require, or_raise, or_raise-eq-ok, ◌>>◌, >>=-eq-ok}
use quantum_safe_py.Cbor.{Value, Cbor2, ReadsBack, array, written, loads, loads-written_eq}
use quantum_safe_py.Migrate.State.{
  Request, Stamp, history_key, current_key, check_transition, new_record, history_for_write,
  state_from, is_stale, of_list, as_list, last_of, last_record,
}
use quantum_safe_py.Keys.{
  MigrationState, classical_only, hybrid_transition, pqc_preferred, pqc_only,
}
use quantum_safe_py.Migrate.State.Storage.{Store, lookup}
use quantum_safe_py.Migrate.State.Records.{
  same_state, MigrationRecord, Floats, among, forward_targets, backward_targets, from_dict-to_dict,
}
use quantum_safe_py.Migrate.State.Chain.{
  IsLegal, IsChain, Follows, Encodes, dicts, end_state, to_list-of_list,
}
use quantum_safe_py.Migrate.State.Writers.{
  Pc, idle, reading, deciding, committing, writing, returned, raised,
}

tails_inj : (a b t u : Bytes) → length t ≡ length u → a ++ t ≡ b ++ u → (a ≡ b) × (t ≡ u)
tails_inj a b t u n e =
    append_inj a b t u (omega (arith, length-append a t, length-append b u, ap length e)) e

pub history_key_injective : (j k : Bytes) → bytes_eq (history_key j) (history_key k) ≡ true → j ≡ k
unfolding history_key
history_key_injective j k h =
    (tails_inj j k (text "_history") (text "_history") refl
      ((bytes_eq_iff (j ++ text "_history") (k ++ text "_history")).0 h)).0

endings_differ : bytes_eq (text "_current") (text "_history") ≡ false
unfolding bytes_eq
endings_differ = refl

pub current_key_other : (j k : Bytes) → bytes_eq (current_key j) (history_key k) ≡ false
unfolding history_key current_key
current_key_other j k = elim (Bool-cases (bytes_eq (j ++ text "_current") (k ++ text "_history"))) [
  | inl e ↦
      let same =
        (tails_inj j k (text "_current") (text "_history") refl
          ((bytes_eq_iff (j ++ text "_current") (k ++ text "_history")).0 e)).1 in
      let both : bytes_eq (text "_current") (text "_history") ≡ true =
        (bytes_eq_iff (text "_current") (text "_history")).1 same in
      let differ = endings_differ in cc
  | inr e ↦ e
]

legal_tests :
    (forward back allowed : Bool) (reason : Bytes)
    → (do
      require (forward || back) value_error
      if back then require (allowed && not (length reason == 0)) value_error else ok tt)
      ≡ ok tt
    → (forward ≡ true) ⊎ ((back ≡ true) × (reason ≢ []))
legal_tests true back allowed reason h = inl refl
legal_tests false false allowed reason h = cc
legal_tests false true false reason h = cc
legal_tests false true true [] h = cc
legal_tests false true true (c ∷ reason) h = inr (refl, λ e. cc)

pub check_transition-IsLegal :
    (q : Request) (t : Stamp) → check_transition q ≡ ok tt → IsLegal (new_record q t)
unfolding check_transition new_record
check_transition-IsLegal q t h =
    elim (legal_tests (among q.to_state (forward_targets q.from_state))
      (among q.to_state (backward_targets q.from_state)) q.allow_backward q.reason h) [
        | inl e ↦ inl e
        | inr (e, some_reason) ↦ inr (e, λ b. some_reason (cc))
      ]

-- The state after a chain is read from its last record.
last_record-end :
    (f : Floats) (s : Option MigrationState) (r : MigrationRecord) (rs : List MigrationRecord)
    → IsChain f s (r ∷ rs)
    → (l : MigrationRecord) × (last_record f (last_of (dicts (r ∷ rs))) ≡ some l)
      × (end_state s (r ∷ rs) ≡ some l.to_state)
unfolding last_of last_record
last_record-end f s r [] chain = (r, rw (from_dict-to_dict f r chain.2) refl, refl)
last_record-end f s r (q ∷ rs) chain = last_record-end f (some r.to_state) q rs chain.3

same_state_sound : (s t : MigrationState) → same_state s t ≡ true → s ≡ t
unfolding same_state
same_state_sound classical_only classical_only h = refl
same_state_sound classical_only hybrid_transition h = cc
same_state_sound classical_only pqc_preferred h = cc
same_state_sound classical_only pqc_only h = cc
same_state_sound hybrid_transition classical_only h = cc
same_state_sound hybrid_transition hybrid_transition h = refl
same_state_sound hybrid_transition pqc_preferred h = cc
same_state_sound hybrid_transition pqc_only h = cc
same_state_sound pqc_preferred classical_only h = cc
same_state_sound pqc_preferred hybrid_transition h = cc
same_state_sound pqc_preferred pqc_preferred h = refl
same_state_sound pqc_preferred pqc_only h = cc
same_state_sound pqc_only classical_only h = cc
same_state_sound pqc_only hybrid_transition h = cc
same_state_sound pqc_only pqc_preferred h = cc
same_state_sound pqc_only pqc_only h = refl

-- A request that is not stale starts where the chain ends.
pub is_stale-Follows :
    (c : Cbor2) (f : Floats) (k : Bytes) (s : Store) (rs : List MigrationRecord)
    (from_state : MigrationState)
    → IsChain f none rs
    → is_stale c f (state_from c f (dicts rs) k s) from_state ≡ false
    → Follows (end_state none rs) from_state
unfolding is_stale state_from
is_stale-Follows c f k s [] from_state chain h = tt
is_stale-Follows c f k s (r ∷ rs) from_state chain h =
    let (l, e, d) = last_record-end f none r rs chain in
    let state : state_from c f (dicts (r ∷ rs)) k s ≡ some l.to_state = rw e in
    let fresh : not (same_state l.to_state from_state) ≡ false = rw state at h in
    let same : same_state l.to_state from_state ≡ true = ground arith in
    rw d (same_state_sound l.to_state from_state same)

-- What is read for a write is what the entry stands for.
pub history_for_write-Encodes :
    (c : Cbor2)
    → ((v : Value) → ReadsBack c v)
    → (raw : Option Bytes) (rs : List MigrationRecord) (history : List Value) → Encodes c raw rs
    → history_for_write c raw ≡ ok history
    → history ≡ dicts rs
unfolding history_for_write
history_for_write-Encodes c back none rs history e h = rw e (cc)
history_for_write-Encodes c back (some raw) rs history e h =
    let v : Value = array (of_list (dicts rs)) in
    let (w, loaded, rest) = >>=-eq-ok (or_raise (loads c raw) value_error) as_list h in
    let read : loads c (written c v) ≡ ok w =
      rw e.0 at (or_raise-eq-ok (loads c raw) value_error loaded) in
    let same = loads-written_eq c v w (back v) read in
    let listed : as_list v ≡ ok history = rw (← same) at rest in
    let e' = to_list-of_list (dicts rs) in cc

-- The values that cbor2 writes and reads, and the time as a float, are shared by all that follows.
module _ (c : Cbor2) (f : Floats) (back : (v : Value) → ReadsBack c v) where
  -- The call saw the records `rs`, and they are still at the front of the history.
  abbrev pub Saw : Store → Request → Option Bytes → List Value → List MigrationRecord → Type 0
  Saw s q raw history rs =
      Encodes c raw rs
      × (history ≡ dicts rs)
      × IsChain f none rs
      × (ext : List MigrationRecord) × Encodes c (lookup s (history_key q.key_id)) (rs ++ ext)

  abbrev pub IsGood : Store → Pc → Type 0
  IsGood s (reading q left) = check_transition q ≡ ok tt
  IsGood s (deciding q left raw history) =
      (check_transition q ≡ ok tt) × (rs : List MigrationRecord) × Saw s q raw history rs
  IsGood s (committing q left raw history r) =
      (check_transition q ≡ ok tt)
      × (rs : List MigrationRecord) × Saw s q raw history rs
      × IsChain f none (rs ++ (r ∷ []))
  IsGood s _ = Unit

  -- Every history in the store is a chain.
  abbrev pub IsLogs : Store → Type 0
  IsLogs s =
      (k : Bytes)
      → (rs : List MigrationRecord) × Encodes c (lookup s (history_key k)) rs × IsChain f none rs

  -- No history loses a record from one store to the other.
  abbrev pub Grows : Store → Store → Type 0
  Grows s t =
      (k : Bytes) (rs : List MigrationRecord)
      → Encodes c (lookup s (history_key k)) rs
      → (ext : List MigrationRecord) × Encodes c (lookup t (history_key k)) (rs ++ ext)

  pub Grows-refl : (s : Store) → Grows s s
  Grows-refl s k rs e = ([], rw (append-nil rs) e)

  pub Grows-trans : (s t u : Store) → Grows s t → Grows t u → Grows s u
  Grows-trans s t u g h k rs e =
      let (a, ea) = g k rs e in
      let (b, eb) = h k (rs ++ a) ea in (a ++ b, rw (← append_assoc rs a b) eb)

  Saw-Grows :
      (s t : Store) (q : Request) (raw : Option Bytes) (history : List Value)
      (rs : List MigrationRecord)
      → Grows s t
      → Saw s q raw history rs
      → Saw t q raw history rs
  Saw-Grows s t q raw history rs g (enc, hist, chain, ext, e) =
      let (a, ea) = g q.key_id (rs ++ ext) e in
      (enc, hist, chain, ext ++ a, rw (← append_assoc rs ext a) ea)

  pub IsGood-Grows : (s t : Store) (p : Pc) → Grows s t → IsGood s p → IsGood t p
  IsGood-Grows s t idle g h = tt
  IsGood-Grows s t (reading q left) g h = h
  IsGood-Grows s t (deciding q left raw history) g (v, rs, saw) =
      (v, rs, Saw-Grows s t q raw history rs g saw)
  IsGood-Grows s t (committing q left raw history r) g (v, rs, saw, chain) =
      (v, rs, Saw-Grows s t q raw history rs g saw, chain)
  IsGood-Grows s t (writing q r) g h = tt
  IsGood-Grows s t (returned r) g h = tt
  IsGood-Grows s t (raised e) g h = tt
