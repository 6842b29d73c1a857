-- ===== src/Migrate/State/Chain.antt =====
-- migrate/state.py: what a history should be, and how it stands in the store.
use quantum_safe_py.Prelude.{
  true, Option, none, some, List, [], ◌∷◌, ◌++◌, ◌≡◌, ◌≢◌, ◌⊎◌, refl, sym, ap, ◌∙◌, Bytes,
}
use quantum_safe_py.Outcome.{ok}
use quantum_safe_py.Cbor.{Value, Cbor2, ReadsBack, array, string, written}
use quantum_safe_py.Keys.{MigrationState}
use quantum_safe_py.Migrate.State.{of_list, to_list}
use quantum_safe_py.Migrate.State.Records.{
  MigrationRecord, Floats, among, forward_targets, backward_targets, to_dict, from_dict,
  from_dict-to_dict,
}

-- A move forward, or a move back with a reason.
abbrev pub IsLegal : MigrationRecord → Type 0
IsLegal r =
    (among r.to_state (forward_targets r.from_state) ≡ true)
    ⊎ ((among r.to_state (backward_targets r.from_state) ≡ true) × (r.reason ≢ string []))

abbrev pub Follows : Option MigrationState → MigrationState → Type 0
Follows none t = Unit
Follows (some s) t = s ≡ t

-- Every record is legal, was made at a time, and starts where the one before it ended.
abbrev pub IsChain : Floats → Option MigrationState → List MigrationRecord → Type 0
IsChain f s [] = Unit
IsChain f s (r ∷ rs) =
    Follows s r.from_state
    × IsLegal r
    × (f.float r.timestamp ≡ ok r.timestamp)
    × IsChain f (some r.to_state) rs

-- The state after the records.
abbrev pub end_state : Option MigrationState → List MigrationRecord → Option MigrationState
end_state s [] = s
end_state s (r ∷ rs) = end_state (some r.to_state) rs

abbrev pub dicts : List MigrationRecord → List Value
dicts [] = []
dicts (r ∷ rs) = to_dict r ∷ dicts rs

-- The entry of a history: absent, or the bytes written for its records, at least one.
abbrev pub Encodes : Cbor2 → Option Bytes → List MigrationRecord → Type 0
Encodes c none rs = rs ≡ []
Encodes c (some raw) rs = (raw ≡ written c (array (of_list (dicts rs)))) × (rs ≢ [])

pub to_list-of_list : (vs : List Value) → to_list (of_list vs) ≡ vs
to_list-of_list [] = refl
to_list-of_list (v ∷ vs) = rw (to_list-of_list vs)

pub dicts-append : (rs qs : List MigrationRecord) → dicts (rs ++ qs) ≡ dicts rs ++ dicts qs
dicts-append [] qs = refl
dicts-append (r ∷ rs) qs = rw (dicts-append rs qs)

pub IsChain-append :
    (f : Floats) (s : Option MigrationState) (rs : List MigrationRecord) (r : MigrationRecord)
    → IsChain f s rs
    → Follows (end_state s rs) r.from_state
    → IsLegal r
    → f.float r.timestamp ≡ ok r.timestamp
    → IsChain f s (rs ++ (r ∷ []))
IsChain-append f s [] r chain follows legal timed = (follows, legal, timed, tt)
IsChain-append f s (q ∷ rs) r chain follows legal timed =
    (chain.0, chain.1, chain.2, IsChain-append f (some q.to_state) rs r chain.3 follows legal timed)

-- What is written for a value determines it.
pub dumps_injective :
    (c : Cbor2) (v w : Value) → ReadsBack c v → ReadsBack c w → written c v ≡ written c w → v ≡ w
unfolding written
dumps_injective c v w rv rw' e =
    let p : c.decode (c.encode v ++ []) ≡ some (v, []) = rv [] in
    let q : c.decode (c.encode w ++ []) ≡ some (w, []) = rw' [] in
    let d : c.decode (c.encode v ++ []) ≡ c.decode (c.encode w ++ []) = rw e in cc

exactly : Floats
exactly = record { float = ok }

to_dict_injective : (r q : MigrationRecord) → to_dict r ≡ to_dict q → r ≡ q
unfolding exactly
to_dict_injective r q e =
    let a : from_dict exactly (to_dict r) ≡ ok r = from_dict-to_dict exactly r refl in
    let b : from_dict exactly (to_dict q) ≡ ok q = from_dict-to_dict exactly q refl in
    let d : from_dict exactly (to_dict r) ≡ from_dict exactly (to_dict q) =
      ap (from_dict exactly) e in
    cc

dicts_injective : (rs qs : List MigrationRecord) → dicts rs ≡ dicts qs → rs ≡ qs
dicts_injective [] [] e = refl
dicts_injective [] (q ∷ qs) e = cc
dicts_injective (r ∷ rs) [] e = cc
dicts_injective (r ∷ rs) (q ∷ qs) e =
    let h : to_dict r ≡ to_dict q = cc in
    let t : dicts rs ≡ dicts qs = cc in
    let a = to_dict_injective r q h in let b = dicts_injective rs qs t in cc

of_list_injective : (vs ws : List Value) → of_list vs ≡ of_list ws → vs ≡ ws
of_list_injective vs ws e = sym (to_list-of_list vs) ∙ ap to_list e ∙ to_list-of_list ws

-- An entry stands for one list of records.
pub Encodes-unique :
    (c : Cbor2)
    → ((v : Value) → ReadsBack c v)
    → (raw : Option Bytes) (rs qs : List MigrationRecord) → Encodes c raw rs
    → Encodes c raw qs
    → rs ≡ qs
Encodes-unique c back none rs qs a b = a ∙ sym b
Encodes-unique c back (some raw) rs qs a b =
    let v = array (of_list (dicts rs)) in
    let w = array (of_list (dicts qs)) in
    let e : array (of_list (dicts rs)) ≡ array (of_list (dicts qs)) =
      dumps_injective c v w (back v) (back w) (sym a.0 ∙ b.0) in
    let i : of_list (dicts rs) ≡ of_list (dicts qs) = cc in
    dicts_injective rs qs (of_list_injective (dicts rs) (dicts qs) i)

-- Records stand in one entry.
pub Encodes-entry :
    (c : Cbor2) (raw new : Option Bytes) (rs : List MigrationRecord)
    → Encodes c raw rs
    → Encodes c new rs
    → raw ≡ new
Encodes-entry c none none rs a b = refl
Encodes-entry c none (some new) rs a b = absurd (b.1 a)
Encodes-entry c (some raw) none rs a b = absurd (a.1 b)
Encodes-entry c (some raw) (some new) rs a b = ap some (a.0 ∙ sym b.0)

pub append_cons-not_nil : (rs : List MigrationRecord) (r : MigrationRecord) → rs ++ (r ∷ []) ≢ []
append_cons-not_nil [] r = λ e. cc
append_cons-not_nil (q ∷ rs) r = λ e. cc
