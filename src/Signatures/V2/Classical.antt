-- ===== src/Signatures/V2/Classical.antt =====
-- The classical half of a v2 signature: what is signed verifies, and no ECDSA signature has a twin.
use quantum_safe_py.Prelude.{
  ℕ, ◌*◌, ◌-◌, ◌/◌, ◌^◌, ◌≤◌, ◌<◌, ◌≡◌, inl, inr, refl, ◌∙◌, true, false, not, ◌++◌, Bytes, text,
  bytes_eq, one_of, take, drop, take-append_eq, drop-append_eq, length, length-append, ltb, ◌==◌,
  ◌||◌, if◌then◌else◌, arith, Bool-cases, le→ltb_false,
}
use quantum_safe_py.Outcome.{ok}
use quantum_safe_py.Wire.{be, be_bytes, be-be_bytes, length-be_bytes, to_big_endian_fits}
use quantum_safe_py.Signatures.V2.{
  ec, Signer, CurveSpec, curve, is_ecdsa, ec_key, ecdsa_sign, classical_sign, ecdsa_verify,
  classical_verify, classical_len,
}

-- What `cryptography` guarantees of an ECDSA key pair: the public key is two coordinates, and both
-- `(r, s)` and its twin `(r, order - s)` verify.
pub record IsEcdsaPair (signer : Signer) (c : CurveSpec) (secret public : Bytes) : Type 0 where
  pub key : Bytes
  pub loads : signer.load_pem secret ≡ ok (ec key)
  pub length_public : length public ≡ 2 * c.size
  pub signs :
      (d : Bytes)
      → (r : ℕ) × (s : ℕ) × (c.ecdsa.sign key d ≡ ok (r, s))
        × (r < c.order)
        × (0 < s)
        × (s < c.order)
        × (c.ecdsa.verify (be (take c.size public)) (be (drop c.size public)) d r s ≡ true)
        × (c.ecdsa.verify (be (take c.size public)) (be (drop c.size public)) d r (c.order - s)
            ≡ true)

-- The same for Ed25519.
pub record IsEd25519Pair (signer : Signer) (secret public : Bytes) : Type 0 where
  pub signs :
      (d : Bytes)
      → (sig : Bytes) × (signer.ed25519_sign secret d ≡ ok sig)
        × (length sig ≡ 64)
        × (signer.ed25519_verify public sig d ≡ true)

-- The raw form of an ECDSA signature.
abbrev pub raw_signature : CurveSpec → ℕ → ℕ → Bytes
raw_signature c r s = be_bytes c.size r ++ be_bytes c.size s

pub length-raw_signature : (c : CurveSpec) (r s : ℕ) → length (raw_signature c r s) ≡ 2 * c.size
length-raw_signature c r s = omega (
  arith,
  length-append (be_bytes c.size r) (be_bytes c.size s),
  length-be_bytes c.size r,
  length-be_bytes c.size s,
)

-- A raw signature is read back, and is checked by its numbers.
pub ecdsa_verify-raw_signature :
    (c : CurveSpec) (public d : Bytes) (r s : ℕ)
    → length public ≡ 2 * c.size
    → r < 256 ^ c.size
    → s < 256 ^ c.size
    → ecdsa_verify c public d (raw_signature c r s) ≡ (
        if ltb (c.order / 2) s
        then false
        else c.ecdsa.verify (be (take c.size public)) (be (drop c.size public)) d r s)
unfolding ecdsa_verify
ecdsa_verify-raw_signature c public d r s len hr hs =
    let t : take c.size (raw_signature c r s) ≡ be_bytes c.size r =
      take-append_eq c.size (be_bytes c.size r) (be_bytes c.size s) (length-be_bytes c.size r) in
    let u : drop c.size (raw_signature c r s) ≡ be_bytes c.size s =
      drop-append_eq c.size (be_bytes c.size r) (be_bytes c.size s) (length-be_bytes c.size r) in
    let sizes : (not (length public == 2 * c.size)
          || not (length (raw_signature c r s) == 2 * c.size))
        ≡ false =
      ground (arith, len, length-raw_signature c r s) in
    rw (sizes, t, u, be-be_bytes c.size r hr, be-be_bytes c.size s hs)

-- What a classical half is signed to.
pub record Signed (signer : Signer) (classical secret public d : Bytes) : Type 0 where
  pub sig : Bytes
  pub size : ℕ
  pub signed : classical_sign signer classical secret d ≡ ok sig
  pub size_eq : classical_len classical ≡ ok size
  pub length_sig : length sig ≡ size
  pub verified : classical_verify signer classical public d sig ≡ true

low_half : (n s : ℕ) → 0 < s → s < n → (if ltb (n / 2) s then n - s else s) ≤ n / 2
low_half n s pos h = ground arith

ecdsa_signs :
    (signer : Signer) (c : CurveSpec) (secret public d : Bytes)
    → c.order < 256 ^ c.size
    → IsEcdsaPair signer c secret public
    → (sig : Bytes) × (ecdsa_sign signer c secret d ≡ ok sig)
      × (length sig ≡ 2 * c.size)
      × (ecdsa_verify c public d sig ≡ true)
unfolding ecdsa_sign ec_key
ecdsa_signs signer c secret public d small pair =
    let (r, s, signed, hr, pos, hs, one, two) = pair.signs d in
    let low = if ltb (c.order / 2) s then c.order - s else s in
    let half = low_half c.order s pos hs in
    let fits : low < 256 ^ c.size = omega (arith, half) in
    let good : c.ecdsa.verify (be (take c.size public)) (be (drop c.size public)) d r low ≡ true =
      elim (Bool-cases (ltb (c.order / 2) s)) [ inl e ↦ rw e two | inr e ↦ rw e one ] in
    (
      raw_signature c r low,
      rw (
        pair.loads,
        signed,
        to_big_endian_fits c.size r (omega arith),
        to_big_endian_fits c.size low fits,
      ),
      length-raw_signature c r low,
      ecdsa_verify-raw_signature c public d r low pair.length_public (omega arith) fits
          ∙ rw (le→ltb_false (c.order / 2) low half) good,
    )

pub ed25519-Signed :
    (signer : Signer) (classical secret public d : Bytes)
    → classical ≡ text "Ed25519"
    → IsEd25519Pair signer secret public
    → Signed signer classical secret public d
unfolding classical_sign classical_verify classical_len bytes_eq one_of
ed25519-Signed signer classical secret public d e pair =
    let (sig, signed, len, verified) = pair.signs d in
    record {
      sig = sig;
      size = 64;
      signed = rw e signed;
      size_eq = rw e refl;
      length_sig = len;
      verified = rw e verified;
    }

pub p256-Signed :
    (signer : Signer) (classical secret public d : Bytes)
    → classical ≡ text "P-256"
    → IsEcdsaPair signer (curve signer (text "P-256")) secret public
    → Signed signer classical secret public d
unfolding classical_sign classical_verify classical_len bytes_eq one_of is_ecdsa curve
p256-Signed signer classical secret public d e pair =
    let (sig, signed, len, verified) =
      ecdsa_signs signer (curve signer (text "P-256")) secret public d (omega arith) pair in
    record {
      sig = sig;
      size = 64;
      signed = rw e signed;
      size_eq = rw e refl;
      length_sig = len;
      verified = rw e verified;
    }

pub p384-Signed :
    (signer : Signer) (classical secret public d : Bytes)
    → classical ≡ text "P-384"
    → IsEcdsaPair signer (curve signer (text "P-384")) secret public
    → Signed signer classical secret public d
unfolding classical_sign classical_verify classical_len bytes_eq one_of is_ecdsa curve
p384-Signed signer classical secret public d e pair =
    let (sig, signed, len, verified) =
      ecdsa_signs signer (curve signer (text "P-384")) secret public d (omega arith) pair in
    record {
      sig = sig;
      size = 96;
      signed = rw e signed;
      size_eq = rw e refl;
      length_sig = len;
      verified = rw e verified;
    }
