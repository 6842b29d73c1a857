-- ===== src/Signatures/V2/Malleability.antt =====
-- No ECDSA half of a v2 signature has an accepted twin.
use quantum_safe_py.Prelude.{
  ℕ, ◌*◌, ◌-◌, ◌/◌, ◌%◌, ◌^◌, ◌<◌, ◌≡◌, inl, inr, sym, ap, ◌∙◌, Bool, true, false, Bytes, text,
  bytes_eq, bytes_eq_iff, one_of, take, drop, length, ltb, if◌then◌else◌, arith, Bool-cases,
}
use quantum_safe_py.Wire.{be}
use quantum_safe_py.Signatures.V2.{
  Signer, CurveSpec, curve, is_ecdsa, ecdsa_verify, classical_verify,
}
use quantum_safe_py.Signatures.V2.Classical.{raw_signature, ecdsa_verify-raw_signature}

ecdsa_twin :
    (c : CurveSpec) (public d : Bytes) (r s : ℕ)
    → c.order % 2 ≡ 1
    → c.order < 256 ^ c.size
    → r < c.order
    → 0 < s
    → s < c.order
    → length public ≡ 2 * c.size
    → ecdsa_verify c public d (raw_signature c r s) ≡ true
    → ecdsa_verify c public d (raw_signature c r (c.order - s)) ≡ false
ecdsa_twin c public d r s odd small hr pos hs len h = elim (Bool-cases (ltb (c.order / 2) s)) [
  | inl high ↦
      let e = ecdsa_verify-raw_signature c public d r s len (omega arith) (omega arith) in
      let bad : false ≡ true =
        sym (
          ap
            (λ (k : Bool).
              if k
              then false
              else c.ecdsa.verify (be (take c.size public)) (be (drop c.size public)) d r s)
            high)
        ∙ sym e
        ∙ h in
      cc bad
  | inr low ↦
      let high : ltb (c.order / 2) (c.order - s) ≡ true = twin_high c.order s odd low in
      rw (
        ecdsa_verify-raw_signature c public d r (c.order - s) len (omega arith) (omega arith),
        high,
      )
]
  where
    twin_high : (n s : ℕ) → n % 2 ≡ 1 → ltb (n / 2) s ≡ false → ltb (n / 2) (n - s) ≡ true
    twin_high n s odd low = ground arith

curve_odd :
    (signer : Signer) (classical : Bytes)
    → ((curve signer classical).order % 2 ≡ 1)
      × ((curve signer classical).order < 256 ^ (curve signer classical).size)
unfolding curve
curve_odd signer classical = elim (Bool-cases (bytes_eq classical (text "P-384"))) [
  | inl e ↦ rw e (omega arith, omega arith)
  | inr e ↦ rw e (omega arith, omega arith)
]

not_ed25519 : (c : Bytes) → is_ecdsa c ≡ true → bytes_eq c (text "Ed25519") ≡ false
unfolding is_ecdsa one_of bytes_eq
not_ed25519 c e = elim (Bool-cases (bytes_eq c (text "Ed25519"))) [
  | inr n ↦ n
  | inl y ↦
      let same : c ≡ text "Ed25519" = (bytes_eq_iff c (text "Ed25519")).0 y in
      let bad : true ≡ false = sym e ∙ ap is_ecdsa same in cc bad
]

-- No malleability by negation: where an ECDSA half `(r, s)` is accepted, its twin `(r, order - s)` is
-- refused, whatever the `cryptography` package says of it.
pub classical_verify_twin :
    (signer : Signer) (classical public d : Bytes) (r s : ℕ)
    → is_ecdsa classical ≡ true
    → length public ≡ 2 * (curve signer classical).size
    → r < (curve signer classical).order
    → 0 < s
    → s < (curve signer classical).order
    → classical_verify signer classical public d (raw_signature (curve signer classical) r s) ≡ true
    → classical_verify signer classical public d
        (raw_signature (curve signer classical) r ((curve signer classical).order - s))
      ≡ false
unfolding classical_verify
classical_verify_twin signer classical public d r s ecdsa len hr pos hs h =
    let (odd, small) = curve_odd signer classical in
    let not_ed = not_ed25519 classical ecdsa in
    let v : ecdsa_verify (curve signer classical) public d
          (raw_signature (curve signer classical) r s)
        ≡ true =
      rw (not_ed, ecdsa) at h in
    rw (not_ed, ecdsa) (ecdsa_twin (curve signer classical) public d r s odd small hr pos hs len v)
