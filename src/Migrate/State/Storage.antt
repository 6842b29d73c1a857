-- ===== src/Migrate/State/Storage.antt =====
-- migrate/state.py: a store, and the atomic `compare_and_set` of `MemoryMigrationStore`.
use quantum_safe_py.Prelude.{
  Bool, true, false, Bool-cases, inl, inr, ap, Option, none, some, List, [], ◌∷◌, ◌≡◌, refl, Bytes,
  bytes_eq, bytes_eq_iff, bytes_eq_refl, if◌then◌else◌, arith,
}

abbrev pub Store : Type 0
Store = List (Bytes × Bytes)

-- `store.get(key)`
unfoldable pub lookup : Store → Bytes → Option Bytes
lookup [] k = none
lookup ((j, v) ∷ s) k = if bytes_eq j k then some v else lookup s k

-- `store[key] = value`
unfoldable pub put : Store → Bytes → Bytes → Store
put [] k v = (k, v) ∷ []
put ((j, w) ∷ s) k v = if bytes_eq j k then (k, v) ∷ s else (j, w) ∷ put s k v

-- `a == b` for `bytes | None`.
unfoldable pub same_value : Option Bytes → Option Bytes → Bool
same_value none none = true
same_value (some a) (some b) = bytes_eq a b
same_value _ _ = false

unfoldable pub compare_and_set : Bytes → Option Bytes → Bytes → Store → Store × Bool
compare_and_set k expected v s =
    if same_value (lookup s k) expected then (put s k v, true) else (s, false)

pub lookup-put : (s : Store) (k v : Bytes) → lookup (put s k v) k ≡ some v
unfolding lookup put
lookup-put [] k v = rw (bytes_eq_refl k)
lookup-put ((j, w) ∷ s) k v = ground (arith, bytes_eq_refl k, lookup-put s k v)

pub lookup-put_other :
    (s : Store) (k j v : Bytes) → bytes_eq k j ≡ false → lookup (put s k v) j ≡ lookup s j
unfolding lookup put
lookup-put_other [] k j v h = rw h
lookup-put_other ((i, w) ∷ s) k j v h = ground (arith, bytes_eq_iff i k, lookup-put_other s k j v h)

pub same_value_sound : (a b : Option Bytes) → same_value a b ≡ true → a ≡ b
unfolding same_value
same_value_sound none none h = refl
same_value_sound none (some b) h = cc
same_value_sound (some a) none h = cc
same_value_sound (some a) (some b) h = ground (arith, bytes_eq_iff a b)

pub same_value_refl : (a : Option Bytes) → same_value a a ≡ true
unfolding same_value
same_value_refl none = refl
same_value_refl (some a) = bytes_eq_refl a

-- What the two results of `compare_and_set` tell of the store.
pub compare_and_set-won :
    (k : Bytes) (expected : Option Bytes) (new : Bytes) (s won : Store)
    → compare_and_set k expected new s ≡ (won, true)
    → (lookup s k ≡ expected) × (put s k new ≡ won)
unfolding compare_and_set
compare_and_set-won k expected new s won h = elim (Bool-cases (same_value (lookup s k) expected)) [
  | inl e ↦
      let w : ◌≡◌ {A = Store × Bool} (put s k new, true) (won, true) = rw e at h in
      (same_value_sound (lookup s k) expected e, ap (λ x. x.0) w)
  | inr e ↦
      let w : ◌≡◌ {A = Store × Bool} (s, false) (won, true) = rw e at h in
      let bad : false ≡ true = ap (λ x. x.1) w in cc
]

pub compare_and_set-lost :
    (k : Bytes) (expected : Option Bytes) (new : Bytes) (s : Store)
    → compare_and_set k expected new s ≡ (s, false)
    → same_value (lookup s k) expected ≡ false
unfolding compare_and_set
compare_and_set-lost k expected new s h = elim (Bool-cases (same_value (lookup s k) expected)) [
  | inl e ↦
      let w : ◌≡◌ {A = Store × Bool} (put s k new, true) (s, false) = rw e at h in
      let bad : true ≡ false = ap (λ x. x.1) w in cc
  | inr e ↦ e
]
