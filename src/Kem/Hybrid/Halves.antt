-- ===== src/Kem/Hybrid/Halves.antt =====
-- The classical halves of both sides of a key exchange agree.
use quantum_safe_py.Prelude.{
  ℕ, ◌^◌, ◌<◌, ◌≡◌, false, some, Bytes, text, bytes_eq, bytes_eq_refl, length, take, arith,
}
use quantum_safe_py.Outcome.{Result, ok, err, value_error, decapsulation_error}
use quantum_safe_py.Kem.Hybrid.{
  Curve, Primitives, HybridKem, ec_curve, ecdh, gen_classical_keypair, encapsulate_classical,
  decapsulate_classical, gen_on_curve, encapsulate_on_curve, decapsulate_on_curve,
}
use quantum_safe_py.Kem.Hybrid.Laws.{IsX25519, IsCurve}

-- The classical halves of both sides agree, for the seeds of the recipient and of the sender.
pub record ClassicalAgrees (p : Primitives) (k : HybridKem) (s t : Bytes) : Type 0 where
  pub private : Bytes
  pub peer : Bytes
  pub ct : Bytes
  pub ss : Bytes
  pub generated : gen_classical_keypair p k s ≡ ok (private, peer)
  pub sent : encapsulate_classical p k t peer ≡ ok (ct, ss)
  pub received : decapsulate_classical p k private ct ≡ ok ss
  pub private_fits : length private < 2 ^ 16
  pub peer_fits : length peer < 2 ^ 16
  pub ct_nonempty : 0 < length ct

ecdh_agrees :
    {coord : ℕ} {c : Curve}
    → IsCurve coord c
    → (a b : Bytes) (f g : Result Bytes)
    → (s : Bytes) × (ecdh c coord (c.private a) (c.point b) f ≡ ok s)
      × (ecdh c coord (c.private b) (c.point a) g ≡ ok s)
unfolding ecdh
ecdh_agrees {coord} {c} law a b f g =
    let (s, one, two, long) = law.agrees a b in
    (
      take coord s,
      rw (law.length_point b, law.tag b, one) (ground arith),
      rw (law.length_point a, law.tag a, two) (ground arith),
    )

module _ (p : Primitives) (k : HybridKem) (s t : Bytes) where
  pub x25519_agrees : k.classical ≡ text "X25519" → IsX25519 p.x25519 → ClassicalAgrees p k s t
  unfolding gen_classical_keypair encapsulate_classical decapsulate_classical
  x25519_agrees e law =
      let (ss, one, two) = law.agrees t s in
      record {
        private = p.x25519.private s;
        peer = p.x25519.public s;
        ct = p.x25519.public t;
        ss = ss;
        generated = rw (e, bytes_eq_refl (text "X25519"));
        sent = rw (e, bytes_eq_refl (text "X25519"), one);
        received = rw (e, bytes_eq_refl (text "X25519"), two);
        private_fits = omega (arith, law.length_private s);
        peer_fits = omega (arith, law.length_public s);
        ct_nonempty = omega (arith, law.length_public t);
      }

  pub curve_agrees :
      {coord : ℕ} {c : Curve}
      → bytes_eq k.classical (text "X25519") ≡ false
      → ec_curve p k.classical ≡ some (c, coord)
      → coord < 2 ^ 14
      → IsCurve coord c
      → ClassicalAgrees p k s t
  unfolding gen_classical_keypair encapsulate_classical decapsulate_classical gen_on_curve
      encapsulate_on_curve decapsulate_on_curve
  curve_agrees {coord} {c} ne e small law =
      let (ss, one, two) = ecdh_agrees law t s (err value_error) (err decapsulation_error) in
      record {
        private = c.private s;
        peer = c.point s;
        ct = c.point t;
        ss = ss;
        generated = rw (ne, e);
        sent = rw (ne, e, one);
        received = rw (ne, e, two);
        private_fits = law.length_private s;
        peer_fits = omega (arith, law.length_point s);
        ct_nonempty = omega (arith, law.length_point t);
      }
