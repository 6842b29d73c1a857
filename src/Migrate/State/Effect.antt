-- ===== src/Migrate/State/Effect.antt =====
-- migrate/state.py: what `transition` over a plain dict does to what the manager answers.
use quantum_safe_py.Prelude.{
  Bool, true, false, not, ◌||◌, ◌&&◌, ◌==◌, some, List, [], ◌∷◌, ◌++◌, ◌≡◌, ◌≤◌, ◌⊎◌, ◌∙◌, inl, inr,
  refl, sym, ap, Bytes, length, if◌then◌else◌,
}
use quantum_safe_py.Outcome.{
  Error, Result, ok, err, value_error, ◌>>=◌, ◌>>◌, require, Result-cases, >>=-eq-ok, >>-eq-ok,
  >>=-eq-err, require-eq-err,
}
use quantum_safe_py.Cbor.{Value, Cbor2, ReadsBack, array, loads-written, max_payload}
use quantum_safe_py.Migrate.State.{
  Request, Stamp, history_key, current_key, check_transition, new_record, dumps_history,
  dump_new_history, history_for_write, parse_history, of_list, get_current_state,
  get_current_record, get_history, load_history, legacy_current, legacy_of, is_stale, last_record,
  last_of, records_of,
}
use quantum_safe_py.Migrate.State.Storage.{Store, lookup, put, lookup-put, lookup-put_other}
use quantum_safe_py.Migrate.State.Records.{
  among, backward_targets, forward_targets, MigrationRecord, Floats, to_dict, record_to_bytes,
  record_from_bytes, from_dict, from_dict-to_dict,
}
use quantum_safe_py.Migrate.State.Chain.{to_list-of_list}
use quantum_safe_py.Migrate.State.Invariant.{current_key_other}
use quantum_safe_py.Migrate.State.Quiet.{
  history_for_write-parse, history_for_write_errors, dump_new_history-cases,
}
use quantum_safe_py.Migrate.State.Locked.{prepare, write_both, transition_locked}

records_of-append :
    (f : Floats) (vs ws : List Value) → records_of f (vs ++ ws) ≡ records_of f vs ++ records_of f ws
unfolding records_of
records_of-append f [] ws = refl
records_of-append f (v ∷ vs) ws = elim (Result-cases (from_dict f v)) [
  | inl (e, h) ↦ rw (h, records_of-append f vs ws) refl
  | inr (r, h) ↦ rw (h, records_of-append f vs ws) refl
]

last_of-append : (vs : List Value) (w : Value) → last_of (vs ++ (w ∷ [])) ≡ some w
unfolding last_of
last_of-append [] w = refl
last_of-append (v ∷ []) w = refl
last_of-append (v ∷ u ∷ vs) w = last_of-append (u ∷ vs) w

parse_history-dumps_history :
    (c : Cbor2) (history : List Value) (r : MigrationRecord)
    → ((v : Value) → ReadsBack c v)
    → length (dumps_history c history r) ≤ max_payload
    → parse_history c (some (dumps_history c history r)) ≡ history ++ (to_dict r ∷ [])
unfolding parse_history dumps_history
parse_history-dumps_history c history r back fits =
    let v : Value = array (of_list (history ++ (to_dict r ∷ []))) in
    rw (loads-written c v (back v) fits) (to_list-of_list (history ++ (to_dict r ∷ [])))

dump_new_history-eq-ok :
    (c : Cbor2) (history : List Value) (r : MigrationRecord) (entry : Bytes)
    → dump_new_history c history r ≡ ok entry
    → entry ≡ dumps_history c history r
dump_new_history-eq-ok c history r entry h = elim (dump_new_history-cases c history r) [
  | inl (e, _, d) ↦ let bad : err e ≡ ok entry = sym d ∙ h in absurd (cc)
  | inr d ↦ let same : ok (dumps_history c history r) ≡ ok entry = sym d ∙ h in cc
]

encode_raised :
    (c : Cbor2) (history : List Value) (r : MigrationRecord) (e : Error)
    → ◌>>=◌ {Y = Bytes × MigrationRecord} (dump_new_history c history r) (λ entry. ok (entry, r))
      ≡ err e
    → c.encode_error (array (of_list (history ++ (to_dict r ∷ [])))) ≡ some e
encode_raised c history r e h = elim (dump_new_history-cases c history r) [
  | inl (e', refused, d) ↦
      let same : ◌≡◌ {A = Result (Bytes × MigrationRecord)} (err e') (err e) = rw d at h in
      let one : e' ≡ e = cc in rw (← one) refused
  | inr d ↦
      let bad : ◌≡◌ {A = Result (Bytes × MigrationRecord)} (ok (dumps_history c history r, r))
          (err e) =
        rw d at h in
      absurd (cc)
]

-- A call that returned, taken apart.
prepare-eq-ok :
    (c : Cbor2) (f : Floats) (q : Request) (t : Stamp) (s : Store) (h : Bytes) (r : MigrationRecord)
    → prepare c f q t s ≡ ok (h, r)
    → (history : List Value) × (history_for_write c (lookup s (history_key q.key_id)) ≡ ok history)
      × (h ≡ dumps_history c history r)
      × (r ≡ new_record q t)
unfolding prepare
prepare-eq-ok c f q t s h r e =
    let (u, checked, e1) = >>=-eq-ok (check_transition q) (λ u. _) e in
    let (fresh, e2) =
      >>-eq-ok (not (is_stale c f (get_current_state c f false q.key_id s) q.from_state))
        value_error _ e1 in
    let (history, read, e3) =
      >>=-eq-ok (history_for_write c (lookup s (history_key q.key_id))) (λ history. _) e2 in
    let (entry, encoded, e4) =
      >>=-eq-ok (dump_new_history c history (new_record q t)) (λ entry. ok (entry, new_record q t))
        e3 in
    let made : r ≡ new_record q t = cc in
    let first : entry ≡ h = cc in
    let bytes : h ≡ dumps_history c history (new_record q t) =
      sym first ∙ dump_new_history-eq-ok c history (new_record q t) entry encoded in
    (history, read, rw made bytes, made)

tests_errors :
    (known back allowed : Bool) (e : Error)
    → (do require known value_error; if back then require allowed value_error else ok tt) ≡ err e
    → e ≡ value_error
tests_errors false back allowed e h = cc
tests_errors true true true e h = cc
tests_errors true true false e h = cc
tests_errors true false allowed e h = cc

check_transition_errors : (q : Request) (e : Error) → check_transition q ≡ err e → e ≡ value_error
unfolding check_transition
check_transition_errors q e h =
    tests_errors
      (among q.to_state (forward_targets q.from_state)
        || among q.to_state (backward_targets q.from_state))
      (among q.to_state (backward_targets q.from_state))
      (q.allow_backward && not (length q.reason == 0)) e h

-- What `prepare` raises: `ValueError`, or the exception of cbor2 for the history with the new record.
abbrev IsRefused : Cbor2 → Request → Stamp → Store → Error → Type 0
IsRefused c q t s e =
    (e ≡ value_error)
    ⊎ ((history : List Value) × (history_for_write c (lookup s (history_key q.key_id)) ≡ ok history)
        × (c.encode_error (array (of_list (history ++ (to_dict (new_record q t) ∷ [])))) ≡ some e))

prepare_errors :
    (c : Cbor2) (f : Floats) (q : Request) (t : Stamp) (s : Store) (e : Error)
    → prepare c f q t s ≡ err e
    → IsRefused c q t s e
unfolding prepare
prepare_errors c f q t s e h = elim (>>=-eq-err (check_transition q) (λ u. _) h) [
  | inl raised ↦ inl (check_transition_errors q e raised)
  | inr (u, checked, h1) ↦
      elim (>>=-eq-err
        (require (not (is_stale c f (get_current_state c f false q.key_id s) q.from_state))
          value_error)
        (λ u. _) h1) [
          | inl raised ↦ inl (require-eq-err _ value_error raised)
          | inr (u', fresh, h2) ↦
              elim (>>=-eq-err (history_for_write c (lookup s (history_key q.key_id)))
                (λ history. _) h2) [
                  | inl raised ↦
                      inl (history_for_write_errors c (lookup s (history_key q.key_id)) e raised)
                  | inr (history, read, h3) ↦
                      inr (history, read, encode_raised c history (new_record q t) e h3)
                ]
        ]
]

write_both-eq-ok :
    (c : Cbor2) (k : Bytes) (p : Result (Bytes × MigrationRecord)) (s s' : Store)
    (r : MigrationRecord)
    → write_both c k p s ≡ (s', ok r)
    → (h : Bytes) × (p ≡ ok (h, r))
      × (put (put s (history_key k) h) (current_key k) (record_to_bytes c r) ≡ s')
unfolding write_both
write_both-eq-ok c k (err e) s s' r done =
    let no_way : err e ≡ ok r = ap (λ x. x.1) done in absurd (cc)
write_both-eq-ok c k (ok (h, r')) s s' r done =
    let same : ok r' ≡ ok r = ap (λ x. x.1) done in
    let stored : put (put s (history_key k) h) (current_key k) (record_to_bytes c r') ≡ s' =
      ap (λ x. x.0) done in
    let r_same : r' ≡ r = cc in (h, rw r_same refl, rw r_same at stored)

write_both-eq-err :
    (c : Cbor2) (k : Bytes) (p : Result (Bytes × MigrationRecord)) (s s' : Store) (e : Error)
    → write_both c k p s ≡ (s', err e)
    → (p ≡ err e) × (s' ≡ s)
unfolding write_both
write_both-eq-err c k (err e') s s' e done =
    let raised : ◌≡◌ {A = Result MigrationRecord} (err e') (err e) = ap (λ x. x.1) done in
    let same : s ≡ s' = ap (λ x. x.0) done in (cc, sym same)
write_both-eq-err c k (ok (h, r)) s s' e done =
    let no_way : ok r ≡ err e = ap (λ x. x.1) done in absurd (cc)

records_of_one :
    (f : Floats) (r : MigrationRecord)
    → f.float r.timestamp ≡ ok r.timestamp
    → records_of f (to_dict r ∷ []) ≡ r ∷ []
unfolding records_of
records_of_one f r timed = rw (from_dict-to_dict f r timed) refl

-- What the manager answers for a key with these two entries.
module _ (c : Cbor2) (f : Floats) (back : (v : Value) → ReadsBack c v) (k : Bytes) (s : Store)
    (history : List Value) (r : MigrationRecord) (timed : f.float r.timestamp ≡ ok r.timestamp)
    (fits : length (dumps_history c history r) ≤ max_payload)
    (small : length (record_to_bytes c r) ≤ max_payload)
    (in_history : lookup s (history_key k) ≡ some (dumps_history c history r))
    (in_current : lookup s (current_key k) ≡ some (record_to_bytes c r)) where
  get_history-written : get_history c f k s ≡ records_of f history ++ (r ∷ [])
  unfolding get_history load_history
  get_history-written =
      rw
        (
          in_history,
          parse_history-dumps_history c history r back fits,
          records_of-append f history (to_dict r ∷ []),
          records_of_one f r timed,
        )
        refl

  get_current_record-written : (cas : Bool) → get_current_record c f cas k s ≡ some r
  unfolding get_current_record legacy_current legacy_of last_record record_from_bytes
      record_to_bytes
  get_current_record-written true =
      rw
        (
          in_history,
          parse_history-dumps_history c history r back fits,
          last_of-append history (to_dict r),
          from_dict-to_dict f r timed,
        )
        refl
  get_current_record-written false =
      rw
        (
          in_current,
          loads-written c (to_dict r) (back (to_dict r)) small,
          from_dict-to_dict f r timed,
        )
        refl

module _ (c : Cbor2) (f : Floats) (q : Request) (t : Stamp) (s s' : Store) where
  -- A transition that returned has recorded what it returned: the record is the last of the key's
  -- history, after the records that were there, and it is the key's current record, for a manager of
  -- either kind. cbor2 reads back what it writes, the time is a float, and both entries fit in the
  -- serializer's limit.
  pub transition_locked_effect :
      (r : MigrationRecord)
      → ((v : Value) → ReadsBack c v)
      → f.float t.timestamp ≡ ok t.timestamp
      → transition_locked c f q t s ≡ (s', ok r)
      → length (record_to_bytes c r) ≤ max_payload
      → ((raw : Bytes) → lookup s' (history_key q.key_id) ≡ some raw → length raw ≤ max_payload)
      → (get_history c f q.key_id s' ≡ get_history c f q.key_id s ++ (r ∷ []))
        × ((cas : Bool) → get_current_record c f cas q.key_id s' ≡ some r)
        × (r ≡ new_record q t)
  unfolding transition_locked get_history load_history new_record
  transition_locked_effect r back timed done small fits =
      let k = q.key_id in
      let (h, prepared, stored) = write_both-eq-ok c k (prepare c f q t s) s s' r done in
      let (history, read, made_bytes, made) = prepare-eq-ok c f q t s h r prepared in
      let in_history : lookup s' (history_key k) ≡ some (dumps_history c history r) =
        rw
          (
            ← stored,
            ← made_bytes,
            lookup-put_other (put s (history_key k) h) (current_key k) (history_key k)
                (record_to_bytes c r) (current_key_other k k),
          )
          (lookup-put s (history_key k) h) in
      let in_current : lookup s' (current_key k) ≡ some (record_to_bytes c r) =
        rw (← stored)
          (lookup-put (put s (history_key k) h) (current_key k) (record_to_bytes c r)) in
      let timed' : f.float r.timestamp ≡ ok r.timestamp = rw made timed in
      let fits' = fits (dumps_history c history r) in_history in
      let before = history_for_write-parse c (lookup s (history_key k)) history read in
      (
        rw before
            (get_history-written c f back k s' history r timed' fits' small in_history in_current),
        get_current_record-written c f back k s' history r timed' fits' small in_history in_current,
        made,
      )

  -- A transition that raised has changed nothing, and what it raised is `ValueError`, or the exception of
  -- cbor2 for the key's history with the new record, whose metadata may have no encoding.
  pub transition_locked_errors :
      (e : Error)
      → transition_locked c f q t s ≡ (s', err e)
      → (s' ≡ s)
        × ((e ≡ value_error)
            ⊎ ((history : List Value) × (history_for_write c (lookup s (history_key q.key_id))
                  ≡ ok history)
                × (c.encode_error (array (of_list (history ++ (to_dict (new_record q t) ∷ []))))
                    ≡ some e)))
  unfolding transition_locked
  transition_locked_errors e done =
      let (raised, same) = write_both-eq-err c q.key_id (prepare c f q t s) s s' e done in
      (same, prepare_errors c f q t s e raised)
