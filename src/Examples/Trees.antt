-- ===== src/Examples/Trees.antt =====
-- A codec for every value in the place of cbor2: a tag, and lengths and numbers each as one element.
use quantum_safe_py.Prelude.{
  ℕ, zero, suc, ◌≤◌, ◌≡◌, refl, true, false, Option, none, some, [], ◌∷◌, ◌++◌, Bytes, length, take,
  drop, take-append, drop-append, append_assoc, length-append, arith,
}
use quantum_safe_py.Cbor.{
  Value, Items, Fields, nat, neg, bool, null, string, bytes, real, array, dict, other, nil, cons,
  end, field, Cbor2, ReadsBack,
}

mutual
  write : Value → Bytes
  write (nat n) = 0 ∷ n ∷ []
  write (neg n) = 1 ∷ n ∷ []
  write (bool false) = 2 ∷ []
  write (bool true) = 3 ∷ []
  write null = 4 ∷ []
  write (string s) = 5 ∷ length s ∷ s
  write (bytes s) = 6 ∷ length s ∷ s
  write (real none s) = 7 ∷ length s ∷ s
  write (real (some n) s) = 8 ∷ n ∷ length s ∷ s
  write (array vs) = 9 ∷ write_items vs
  write (dict d) = 10 ∷ write_fields d
  write (other s) = 11 ∷ length s ∷ s

  write_items : Items → Bytes
  write_items nil = 0 ∷ []
  write_items (cons v vs) = 1 ∷ (write v ++ write_items vs)

  write_fields : Fields → Bytes
  write_fields end = 0 ∷ []
  write_fields (field k v d) = 1 ∷ (write k ++ (write v ++ write_fields d))

when_read {ℓ κ} : {A : Type ℓ} {B : Type κ} → Option A → (A → Option B) → Option B
when_read none f = none
when_read (some a) f = f a

cut : (Bytes → Value) → Bytes → Option (Value × Bytes)
cut f [] = none
cut f (n ∷ r) = some (f (take n r), drop n r)

number : (ℕ → Bytes → Option (Value × Bytes)) → Bytes → Option (Value × Bytes)
number f [] = none
number f (n ∷ r) = f n r

mutual
  read : ℕ → Bytes → Option (Value × Bytes)
  read zero d = none
  read (suc fuel) [] = none
  read (suc fuel) (zero ∷ r) = number (λ n t. some (nat n, t)) r
  read (suc fuel) (suc zero ∷ r) = number (λ n t. some (neg n, t)) r
  read (suc fuel) (suc (suc zero) ∷ r) = some (bool false, r)
  read (suc fuel) (suc (suc (suc zero)) ∷ r) = some (bool true, r)
  read (suc fuel) (suc (suc (suc (suc zero))) ∷ r) = some (null, r)
  read (suc fuel) (suc (suc (suc (suc (suc zero)))) ∷ r) = cut string r
  read (suc fuel) (suc (suc (suc (suc (suc (suc zero))))) ∷ r) = cut bytes r
  read (suc fuel) (suc (suc (suc (suc (suc (suc (suc zero)))))) ∷ r) = cut (real none) r
  read (suc fuel) (suc (suc (suc (suc (suc (suc (suc (suc zero))))))) ∷ r) =
      number (λ n t. cut (real (some n)) t) r
  read (suc fuel) (suc (suc (suc (suc (suc (suc (suc (suc (suc zero)))))))) ∷ r) =
      when_read (read_items fuel r) (λ x. some (array x.0, x.1))
  read (suc fuel) (suc (suc (suc (suc (suc (suc (suc (suc (suc (suc zero))))))))) ∷ r) =
      when_read (read_fields fuel r) (λ x. some (dict x.0, x.1))
  read (suc fuel) (suc (suc (suc (suc (suc (suc (suc (suc (suc (suc (suc t)))))))))) ∷ r) =
      cut other r

  read_items : ℕ → Bytes → Option (Items × Bytes)
  read_items (suc fuel) (zero ∷ r) = some (nil, r)
  read_items (suc fuel) (suc t ∷ r) =
      when_read (read fuel r)
        (λ v. when_read (read_items fuel v.1) (λ vs. some (cons v.0 vs.0, vs.1)))
  read_items _ _ = none

  read_fields : ℕ → Bytes → Option (Fields × Bytes)
  read_fields (suc fuel) (zero ∷ r) = some (end, r)
  read_fields (suc fuel) (suc t ∷ r) = when_read (read fuel r) (λ k.
      when_read (read fuel k.1)
        (λ v. when_read (read_fields fuel v.1) (λ d. some (field k.0 v.0 d.0, d.1))))
  read_fields _ _ = none

-- Fuel for as many rounds as there are elements is enough.
mutual
  unfolding write write_items write_fields read read_items read_fields when_read cut number

  read-write :
      (v : Value) (fuel : ℕ) (rest : Bytes)
      → length (write v) ≤ fuel
      → read fuel (write v ++ rest) ≡ some (v, rest)
  read-write (nat n) zero rest h = absurd (omega arith)
  read-write (neg n) zero rest h = absurd (omega arith)
  read-write (bool false) zero rest h = absurd (omega arith)
  read-write (bool true) zero rest h = absurd (omega arith)
  read-write null zero rest h = absurd (omega arith)
  read-write (string s) zero rest h = absurd (omega arith)
  read-write (bytes s) zero rest h = absurd (omega arith)
  read-write (real none s) zero rest h = absurd (omega arith)
  read-write (real (some n) s) zero rest h = absurd (omega arith)
  read-write (array vs) zero rest h = absurd (omega arith)
  read-write (dict d) zero rest h = absurd (omega arith)
  read-write (other s) zero rest h = absurd (omega arith)
  read-write (nat n) (suc fuel) rest h = refl
  read-write (neg n) (suc fuel) rest h = refl
  read-write (bool false) (suc fuel) rest h = refl
  read-write (bool true) (suc fuel) rest h = refl
  read-write null (suc fuel) rest h = refl
  read-write (string s) (suc fuel) rest h = rw (take-append s rest, drop-append s rest) refl
  read-write (bytes s) (suc fuel) rest h = rw (take-append s rest, drop-append s rest) refl
  read-write (real none s) (suc fuel) rest h = rw (take-append s rest, drop-append s rest) refl
  read-write (real (some n) s) (suc fuel) rest h = rw (take-append s rest, drop-append s rest) refl
  read-write (array vs) (suc fuel) rest h = rw (read_items-write vs fuel rest (omega arith)) refl
  read-write (dict d) (suc fuel) rest h = rw (read_fields-write d fuel rest (omega arith)) refl
  read-write (other s) (suc fuel) rest h = rw (take-append s rest, drop-append s rest) refl

  read_items-write :
      (vs : Items) (fuel : ℕ) (rest : Bytes)
      → length (write_items vs) ≤ fuel
      → read_items fuel (write_items vs ++ rest) ≡ some (vs, rest)
  read_items-write nil zero rest h = absurd (omega arith)
  read_items-write (cons v vs) zero rest h = absurd (omega arith)
  read_items-write nil (suc fuel) rest h = refl
  read_items-write (cons v vs) (suc fuel) rest h =
      let n = length-append (write v) (write_items vs) in
      rw
        (
          append_assoc (write v) (write_items vs) rest,
          read-write v fuel (write_items vs ++ rest) (omega arith),
          read_items-write vs fuel rest (omega arith),
        )
        refl

  read_fields-write :
      (d : Fields) (fuel : ℕ) (rest : Bytes)
      → length (write_fields d) ≤ fuel
      → read_fields fuel (write_fields d ++ rest) ≡ some (d, rest)
  read_fields-write end zero rest h = absurd (omega arith)
  read_fields-write (field k v d) zero rest h = absurd (omega arith)
  read_fields-write end (suc fuel) rest h = refl
  read_fields-write (field k v d) (suc fuel) rest h =
      let n = length-append (write k) (write v ++ write_fields d) in
      let m = length-append (write v) (write_fields d) in
      rw
        (
          append_assoc (write k) (write v ++ write_fields d) rest,
          append_assoc (write v) (write_fields d) rest,
          read-write k fuel (write v ++ (write_fields d ++ rest)) (omega arith),
          read-write v fuel (write_fields d ++ rest) (omega arith),
          read_fields-write d fuel rest (omega arith),
        )
        refl

unfoldable pub trees : Cbor2
unfolding write write_items write_fields read read_items read_fields when_read cut number
trees = record { encode_error = λ v. none; encode = write; decode = λ d. read (length d) d }

pub trees-ReadsBack : (v : Value) → ReadsBack trees v
unfolding trees
trees-ReadsBack v rest =
    read-write v (length (write v ++ rest)) rest (omega (arith, length-append (write v) rest))
