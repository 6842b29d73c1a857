-- ===== src/Signatures/Lms/InMemory.antt =====
-- signatures/stateful.py: `InMemoryLmsStateStore`, and what a store must do for signing to be safe.
use quantum_safe_py.Prelude.{
  ℕ, ◌≤◌, ◌<◌, ◌≡◌, ◌≢◌, refl, ap, false, inl, inr, List, [], ◌∷◌, Bytes, bytes_eq, bytes_eq_iff,
  bytes_eq_refl, leb, Bool-cases, if◌then◌else◌, arith,
}
use quantum_safe_py.Outcome.{Error, Result, ok, err, state_persistence_error}
use quantum_safe_py.Outcome.Exec.{Exec}
use quantum_safe_py.Signatures.Lms.{LmsStateStore}

abbrev pub Marks : Type 0
Marks = List (Bytes × ℕ)

-- `self._marks.get(key_id, 0)`
unfoldable pub high_water_mark : Bytes → Marks → ℕ
high_water_mark k [] = 0
high_water_mark k ((j, n) ∷ s) = if bytes_eq j k then n else high_water_mark k s

-- `self._marks[key_id] = next_index`
unfoldable pub set_mark : Bytes → ℕ → Marks → Marks
set_mark k n [] = (k, n) ∷ []
set_mark k n ((j, m) ∷ s) = if bytes_eq j k then (k, n) ∷ s else (j, m) ∷ set_mark k n s

unfoldable pub reserve : Bytes → ℕ → Exec Marks (Unit {0})
reserve key_id next_index s =
    if leb next_index (high_water_mark key_id s)
    then (s, err state_persistence_error)
    else (set_mark key_id next_index s, ok tt)

unfoldable pub in_memory : LmsStateStore Marks
in_memory = record { high_water_mark = high_water_mark; reserve = reserve }

-- The documented contract of a store: once a reservation returns, the indices below the given one are
-- spent, and what is spent stays spent, whether calls return or raise.
pub record IsDurable {S : Type 0} (store : LmsStateStore S) : Type 0 where
  pub records :
      (k : Bytes) (n : ℕ) (s s' : S)
      → store.reserve k n s ≡ (s', ok tt)
      → n ≤ store.high_water_mark k s'
  pub keeps :
      (k j : Bytes) (n : ℕ) (s : S)
      → store.high_water_mark j s ≤ store.high_water_mark j (store.reserve k n s).0

-- The contract of a store that guards its marks: a reservation that returns moves the mark of its key up, to the index that
-- is given, and nothing else moves a mark.
pub record IsGuarded {S : Type 0} (store : LmsStateStore S) : Type 0 where
  pub moves :
      (k : Bytes) (n : ℕ) (s s' : S)
      → store.reserve k n s ≡ (s', ok tt)
      → (store.high_water_mark k s < n) × (store.high_water_mark k s' ≡ n)
  pub others :
      (k j : Bytes) (n : ℕ) (s s' : S)
      → store.reserve k n s ≡ (s', ok tt)
      → k ≢ j
      → store.high_water_mark j s' ≡ store.high_water_mark j s
  pub raises :
      (k j : Bytes) (n : ℕ) (s s' : S) (e : Error)
      → store.reserve k n s ≡ (s', err e)
      → store.high_water_mark j s' ≡ store.high_water_mark j s

high_water_mark-set_mark : (k : Bytes) (n : ℕ) (s : Marks) → high_water_mark k (set_mark k n s) ≡ n
unfolding high_water_mark set_mark
high_water_mark-set_mark k n [] = rw (bytes_eq_refl k) refl
high_water_mark-set_mark k n ((j, m) ∷ s) =
    ground (arith, bytes_eq_refl k, high_water_mark-set_mark k n s)

high_water_mark-set_mark_other :
    (k j : Bytes) (n : ℕ) (s : Marks)
    → bytes_eq k j ≡ false
    → high_water_mark j (set_mark k n s) ≡ high_water_mark j s
unfolding high_water_mark set_mark
high_water_mark-set_mark_other k j n [] h = rw h refl
high_water_mark-set_mark_other k j n ((i, m) ∷ s) h =
    ground (arith, bytes_eq_iff i k, high_water_mark-set_mark_other k j n s)

not_eq : (k j : Bytes) → k ≢ j → bytes_eq k j ≡ false
not_eq k j h = elim (Bool-cases (bytes_eq k j)) [
  | inl e ↦ absurd (h ((bytes_eq_iff k j).0 e))
  | inr e ↦ e
]

reserve-ok :
    (k : Bytes) (n : ℕ) (s s' : Marks)
    → reserve k n s ≡ (s', ok tt)
    → (high_water_mark k s < n) × (set_mark k n s ≡ s')
unfolding reserve
reserve-ok k n s s' h = elim (Bool-cases (leb n (high_water_mark k s))) [
  | inl e ↦
      let w : ◌≡◌ {A = Marks × Result (Unit {0})} (s, err state_persistence_error) (s', ok tt) =
        rw e at h in
      let bad : ◌≡◌ {A = Result (Unit {0})} (err state_persistence_error) (ok tt) =
        ap (λ x. x.1) w in
      cc
  | inr e ↦
      let w : ◌≡◌ {A = Marks × Result (Unit {0})} (set_mark k n s, ok tt) (s', ok tt) = rw e at h in
      (ground arith, ap (λ x. x.0) w)
]

reserve-err : (k : Bytes) (n : ℕ) (s s' : Marks) (e : Error) → reserve k n s ≡ (s', err e) → s ≡ s'
unfolding reserve
reserve-err k n s s' e h = elim (Bool-cases (leb n (high_water_mark k s))) [
  | inl t ↦
      let w : ◌≡◌ {A = Marks × Result (Unit {0})} (s, err state_persistence_error) (s', err e) =
        rw t at h in
      ap (λ x. x.0) w
  | inr t ↦
      let w : ◌≡◌ {A = Marks × Result (Unit {0})} (set_mark k n s, ok tt) (s', err e) = rw t at h in
      let bad : ◌≡◌ {A = Result (Unit {0})} (ok tt) (err e) = ap (λ x. x.1) w in cc
]

-- The store of the module keeps the contract.
pub in_memory-IsGuarded : IsGuarded in_memory
unfolding in_memory
in_memory-IsGuarded = record {
  moves = λ k n s s' h. (
    (reserve-ok k n s s' h).0,
    rw (← (reserve-ok k n s s' h).1) (high_water_mark-set_mark k n s),
  );
  others = λ k j n s s' h d.
      rw (← (reserve-ok k n s s' h).1) (high_water_mark-set_mark_other k j n s (not_eq k j d));
  raises = λ k j n s s' e h. rw (← reserve-err k n s s' e h) refl;
}

reserve-keeps :
    (k j : Bytes) (n : ℕ) (s : Marks) → high_water_mark j s ≤ high_water_mark j (reserve k n s).0
unfolding reserve
reserve-keeps k j n s = elim (Bool-cases (leb n (high_water_mark k s))) [
  | inl e ↦ rw e (omega arith)
  | inr e ↦ rw e (elim (Bool-cases (bytes_eq k j)) [
    | inl same ↦
        let up : high_water_mark k s < n = ground arith in
        rw (← (bytes_eq_iff k j).0 same) (omega (arith, high_water_mark-set_mark k n s))
    | inr other ↦ omega (arith, high_water_mark-set_mark_other k j n s other)
  ])
]

pub in_memory-IsDurable : IsDurable in_memory
unfolding in_memory
in_memory-IsDurable = record {
  records = λ k n s s' h.
      rw (← (reserve-ok k n s s' h).1) (omega (arith, high_water_mark-set_mark k n s));
  keeps = reserve-keeps;
}
