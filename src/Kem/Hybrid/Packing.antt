-- ===== src/Kem/Hybrid/Packing.antt =====
-- The length-prefixed pair that a hybrid key is: `_pack_components` and `_unpack_components`.
use quantum_safe_py.Prelude.{
  two_add, ◌+◌, ◌*◌, ◌/◌, ◌%◌, ◌^◌, ◌<◌, ◌≡◌, ◌++◌, Bytes, length, take-append, drop-append,
  length-append, arith,
}
use quantum_safe_py.Outcome.{ok, ◌>>=◌}
use quantum_safe_py.Wire.{u16, pack_u16_fits, unpack_u16}
use quantum_safe_py.Kem.Hybrid.{pack_components, unpack_components}

unfoldable pub packed : Bytes → Bytes → Bytes
packed a b = u16 (length a) ++ (a ++ b)

pub pack_components_fits : (a b : Bytes) → length a < 2 ^ 16 → pack_components a b ≡ ok (packed a b)
unfolding pack_components packed
pack_components_fits a b h = rw (pack_u16_fits _ h)

pub unpack_components-packed : (a b : Bytes) → unpack_components (packed a b) ≡ ok (a, b)
unfolding unpack_components packed unpack_u16
unpack_components-packed a b =
    let e : length a / 256 * 256 + length a % 256 ≡ length a = omega arith in
    rw (e, two_add (length a), take-append a b, drop-append a b, length-append a b) (ground arith)

-- What `_pack_components` packs, `_unpack_components` takes apart, when the first part is shorter
-- than 2 ^ 16.
pub unpack_components-pack_components :
    (a b : Bytes) → length a < 2 ^ 16 → (pack_components a b >>= unpack_components) ≡ ok (a, b)
unpack_components-pack_components a b h =
    rw (pack_components_fits a b h) (unpack_components-packed a b)
