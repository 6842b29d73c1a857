-- ===== src/Kem/Types/Framing.antt =====
-- The wire form of a hybrid ciphertext: what `from_bytes` makes of any bytes.
use quantum_safe_py.Prelude.{
  ℕ, two_add, suc, ◌+◌, ◌*◌, ◌^◌, ◌≤◌, ◌<◌, ◌≡◌, refl, sym, ◌∙◌, ◌⊎◌, inl, inr, [], ◌∷◌, ◌++◌,
  Bytes, IsBytes, length, length-append, take, drop, take-append-drop, zero, length-take,
  take-append, drop-append, length-drop, ◌||◌, ◌/◌, ◌%◌, if◌then◌else◌, ltb, ◌==◌, arith,
}
use quantum_safe_py.Outcome.{Result, ok, err, value_error, decapsulation_error, ◌>>=◌}
use quantum_safe_py.Wire.{unpack_u16, pack_u16_fits}
use quantum_safe_py.Kem.Types.{HybridCipherText, hybrid_cipher_text, to_bytes, from_bytes}

-- What `from_bytes` does after the length prefix.
unfoldable pub split_at : ℕ → Bytes → Bytes → Result HybridCipherText
split_at n r algorithm =
    if ltb (length r) n || (length (drop n r) == 0)
    then err decapsulation_error
    else hybrid_cipher_text (take n r) (drop n r) algorithm

pub from_bytes-cons :
    (a b : ℕ) (r algorithm : Bytes)
    → from_bytes (a ∷ b ∷ r) algorithm ≡ split_at (a * 256 + b) r algorithm
unfolding from_bytes unpack_u16 split_at
from_bytes-cons a b r algorithm = rw (two_add (a * 256 + b)) (ground arith)

pub split_at-append :
    (x y algorithm : Bytes)
    → 0 < length x
    → 0 < length y
    → split_at (length x) (x ++ y) algorithm
      ≡ ok (record { classical_ct = x; pqc_ct = y; algorithm = algorithm })
unfolding split_at hybrid_cipher_text
split_at-append x y algorithm hx hy =
    rw (take-append x y, drop-append x y, length-append x y) (ground arith)

-- A hybrid ciphertext that the constructor accepts is read back from its wire form, when its
-- classical part is shorter than 2 ^ 16.
pub from_bytes-to_bytes :
    (h : HybridCipherText)
    → 0 < length h.classical_ct
    → length h.classical_ct < 2 ^ 16
    → 0 < length h.pqc_ct
    → (to_bytes h >>= λ d. from_bytes d h.algorithm) ≡ ok h
unfolding to_bytes
from_bytes-to_bytes h lo fits pqc =
    let e : length h.classical_ct / 256 * 256 + length h.classical_ct % 256
        ≡ length h.classical_ct =
      omega arith in
    rw (pack_u16_fits _ fits, from_bytes-cons, e) (split_at-append _ _ _ lo pqc)

split_at-eq-ok :
    (n : ℕ) (r algorithm : Bytes) (h : HybridCipherText)
    → split_at n r algorithm ≡ ok h
    → (n ≤ length r) × (h.classical_ct ≡ take n r) × (h.pqc_ct ≡ drop n r)
unfolding split_at hybrid_cipher_text
split_at-eq-ok n r algorithm h e = ground arith

-- Where `from_bytes` accepts bytes, they are the wire form of what they are read as.
pub to_bytes-from_bytes :
    (d algorithm : Bytes) (h : HybridCipherText)
    → IsBytes d
    → from_bytes d algorithm ≡ ok h
    → to_bytes h ≡ ok d
unfolding to_bytes
to_bytes-from_bytes [] algorithm h bytes e = unfold from_bytes in cc
to_bytes-from_bytes (a ∷ []) algorithm h bytes e = unfold from_bytes in cc
to_bytes-from_bytes (a ∷ b ∷ r) algorithm h bytes e =
    let s : split_at (a * 256 + b) r algorithm ≡ ok h = sym (from_bytes-cons a b r algorithm) ∙ e in
    let (le, x, y) = split_at-eq-ok (a * 256 + b) r algorithm h s in
    let n : length (take (a * 256 + b) r) ≡ a * 256 + b =
      omega (arith, length-take (a * 256 + b) r) in
    let q : (a * 256 + b) / 256 ≡ a = omega arith in
    let m : (a * 256 + b) % 256 ≡ b = omega arith in
    rw (x, y, n, pack_u16_fits (a * 256 + b) (omega arith), q, m, take-append-drop (a * 256 + b) r)

-- The length of the classical part that the two bytes of the prefix give.
unfoldable pub declared_length : Bytes → ℕ
declared_length (a ∷ b ∷ r) = a * 256 + b
declared_length _ = 0

split_at_errors :
    (n : ℕ) (r algorithm : Bytes)
    → ((length r ≤ n) × (split_at n r algorithm ≡ err decapsulation_error))
      ⊎ ((n < length r) × (0 < n) × ((h : HybridCipherText) × (split_at n r algorithm ≡ ok h)))
      ⊎ ((n < length r) × (n ≡ 0) × (split_at n r algorithm ≡ err value_error))
unfolding split_at hybrid_cipher_text
split_at_errors zero [] algorithm = ground arith
split_at_errors zero (x ∷ r) algorithm = ground arith
split_at_errors (suc n) [] algorithm = ground arith
split_at_errors (suc n) (x ∷ r) algorithm = let e = length-drop n r in ground arith

-- What `from_bytes` makes of any bytes: where no byte is left after the prefix and a classical part of the
-- length that it gives, `DecapsulationError`; else a ciphertext, where that length is above 0, and
-- `ValueError`, where it is 0.
pub from_bytes_errors :
    (d algorithm : Bytes)
    → ((length d ≤ 2 + declared_length d) × (from_bytes d algorithm ≡ err decapsulation_error))
      ⊎ ((2 + declared_length d < length d)
          × (0 < declared_length d)
          × ((h : HybridCipherText) × (from_bytes d algorithm ≡ ok h)))
      ⊎ ((2 + declared_length d < length d)
          × (declared_length d ≡ 0)
          × (from_bytes d algorithm ≡ err value_error))
unfolding declared_length
from_bytes_errors [] algorithm = inl (omega arith, (unfold from_bytes in refl))
from_bytes_errors (a ∷ []) algorithm = inl (omega arith, (unfold from_bytes in refl))
from_bytes_errors (a ∷ b ∷ r) algorithm = elim (split_at_errors (a * 256 + b) r algorithm) [
  | inl (short, e) ↦ inl (omega arith, rw (from_bytes-cons a b r algorithm) e)
  | inr (inl (more, pos, (h, e))) ↦
      inr (inl (omega arith, pos, (h, rw (from_bytes-cons a b r algorithm) e)))
  | inr (inr (more, none, e)) ↦
      inr (inr (omega arith, none, rw (from_bytes-cons a b r algorithm) e))
]
