-- ===== src/Wire.antt =====
-- The big-endian integers of `struct.pack` and `struct.unpack`: `">H"` and `">I"`, used by
-- src/quantum_safe/kem/hybrid.py, types/kem.py, signatures/_v2.py and protocols/stream.py.
-- `pack` raises `struct.error` for a number that does not fit, `unpack` for another length.
use quantum_safe_py.Prelude.{
  ℕ, zero, suc, ◌++◌, length, length-append, refl, ◌+◌, ◌*◌, ◌/◌, ◌%◌, ◌^◌, ◌<◌, ◌≡◌, ap, [], ◌∷◌,
  arith, Bytes, IsBytes, ltb, if◌then◌else◌,
}
use quantum_safe_py.Outcome.{Result, ok, err, struct_error, overflow_error}

-- The two bytes of a number below 2 ^ 16.
abbrev pub u16 : ℕ → Bytes
u16 n = n / 256 ∷ n % 256 ∷ []

unfoldable pub pack_u16 : ℕ → Result Bytes
pack_u16 n = if ltb n (2 ^ 16) then ok (u16 n) else err struct_error

unfoldable pub unpack_u16 : Bytes → Result ℕ
unpack_u16 (a ∷ b ∷ []) = ok (a * 256 + b)
unpack_u16 _ = err struct_error

-- The four bytes of a number below 2 ^ 32.
abbrev pub u32 : ℕ → Bytes
u32 n = n / 2 ^ 24 ∷ n / 2 ^ 16 % 256 ∷ n / 2 ^ 8 % 256 ∷ n % 256 ∷ []

unfoldable pub pack_u32 : ℕ → Result Bytes
pack_u32 n = if ltb n (2 ^ 32) then ok (u32 n) else err struct_error

unfoldable pub unpack_u32 : Bytes → Result ℕ
unpack_u32 (a ∷ b ∷ c ∷ d ∷ []) = ok (a * 2 ^ 24 + b * 2 ^ 16 + c * 2 ^ 8 + d)
unpack_u32 _ = err struct_error

pub pack_u16_fits : (n : ℕ) → n < 2 ^ 16 → pack_u16 n ≡ ok (u16 n)
unfolding pack_u16
pack_u16_fits n h = ground arith

pub pack_u32_fits : (n : ℕ) → n < 2 ^ 32 → pack_u32 n ≡ ok (u32 n)
unfolding pack_u32
pack_u32_fits n h = ground arith

pub unpack-u16 : (n : ℕ) → unpack_u16 (u16 n) ≡ ok n
unfolding unpack_u16
unpack-u16 n = ap ok (omega arith)

pub unpack-u32 : (n : ℕ) → unpack_u32 (u32 n) ≡ ok n
unfolding unpack_u32
unpack-u32 n = ap ok (omega arith)

pub u16-IsBytes : (n : ℕ) → n < 2 ^ 16 → IsBytes (u16 n)
u16-IsBytes n h = omega arith

pub u32-IsBytes : (n : ℕ) → n < 2 ^ 32 → IsBytes (u32 n)
u32-IsBytes n h = omega arith

pub u32_injective : (m n : ℕ) → u32 m ≡ u32 n → m ≡ n
u32_injective m n e = ground (arith, unpack-u32 m, unpack-u32 n, ap unpack_u32 e)

-- Four bytes are the encoding of the number that they are read as.
pub u32_of_bytes :
    (a b c d : ℕ)
    → IsBytes (a ∷ b ∷ c ∷ d ∷ [])
    → u32 (a * 2 ^ 24 + b * 2 ^ 16 + c * 2 ^ 8 + d) ≡ a ∷ b ∷ c ∷ d ∷ []
u32_of_bytes a b c d h = ground arith

be_from : ℕ → Bytes → ℕ
be_from acc [] = acc
be_from acc (b ∷ bs) = be_from (acc * 256 + b) bs

-- `int.from_bytes(b, "big")`
unfoldable pub be : Bytes → ℕ
unfolding be_from
be b = be_from 0 b

-- The low `k` bytes of a number, big-endian.
unfoldable pub be_bytes : ℕ → ℕ → Bytes
be_bytes zero n = []
be_bytes (suc k) n = be_bytes k (n / 256) ++ (n % 256 ∷ [])

-- `n.to_bytes(size, "big")`
unfoldable pub to_big_endian : ℕ → ℕ → Result Bytes
to_big_endian size n = if ltb n (256 ^ size) then ok (be_bytes size n) else err overflow_error

pub length-be_bytes : (k n : ℕ) → length (be_bytes k n) ≡ k
unfolding be_bytes
length-be_bytes zero n = refl
length-be_bytes (suc k) n =
    omega (arith, length-append (be_bytes k (n / 256)) (n % 256 ∷ []), length-be_bytes k (n / 256))

be_from-append : (acc : ℕ) (xs ys : Bytes) → be_from acc (xs ++ ys) ≡ be_from (be_from acc xs) ys
unfolding be_from
be_from-append acc [] ys = refl
be_from-append acc (x ∷ xs) ys = be_from-append (acc * 256 + x) xs ys

quotient_fits : (k n : ℕ) → n < 256 ^ suc k → n / 256 < 256 ^ k
quotient_fits k n h = grind arith

pub be-be_bytes : (k n : ℕ) → n < 256 ^ k → be (be_bytes k n) ≡ n
unfolding be be_bytes be_from
be-be_bytes zero n h = omega arith
be-be_bytes (suc k) n h =
    rw
      (
        be_from-append 0 (be_bytes k (n / 256)) (n % 256 ∷ []),
        be-be_bytes k (n / 256) (quotient_fits k n h),
      )
      (omega arith)

pub to_big_endian_fits : (k n : ℕ) → n < 256 ^ k → to_big_endian k n ≡ ok (be_bytes k n)
unfolding to_big_endian
to_big_endian_fits k n h = ground arith
