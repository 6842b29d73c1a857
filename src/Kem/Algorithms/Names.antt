-- ===== src/Kem/Algorithms/Names.antt =====
-- The names of the registry, and what an approved combination is.
use quantum_safe_py.Prelude.{
  ◌≡◌, refl, Bool, true, false, not, List, [], ◌∷◌, ◌++◌, Bytes, bytes_eq, has, has-append,
  before-append, after-append, before-after, one_of, is_ascii, All, arith, inl, inr, ◌&&◌,
  Bool-cases, one_of-All,
}
use quantum_safe_py.Outcome.{Result, ok, err, >>-eq-ok}
use quantum_safe_py.Kem.Algorithms.{
  kem_algorithms, hybrid_combinations, kem_names, classical_names, approved, canonical_hybrid_name,
  parse_hybrid_name, validate_hybrid_combination, KemAlgorithmSpec, get_algorithm_spec,
}

is_ascii-append : (a b : Bytes) → is_ascii a ≡ true → is_ascii b ≡ true → is_ascii (a ++ b) ≡ true
unfolding is_ascii
is_ascii-append [] b ha hb = hb
is_ascii-append (x ∷ a) b ha hb = ground (arith, is_ascii-append a b)

kem_names-is_ascii : All (λ t. is_ascii t ≡ true) kem_names
unfolding kem_names is_ascii
kem_names-is_ascii = (refl, (refl, (refl, (refl, (refl, (refl, (refl, (refl, (refl, tt)))))))))

classical_names-is_ascii : All (λ t. is_ascii t ≡ true) classical_names
unfolding classical_names is_ascii
classical_names-is_ascii = (refl, (refl, (refl, tt)))

canonical-is_ascii :
    (c p : Bytes)
    → is_ascii c ≡ true
    → is_ascii p ≡ true
    → is_ascii (canonical_hybrid_name c p) ≡ true
unfolding canonical_hybrid_name is_ascii
canonical-is_ascii c p hc hp = is_ascii-append c (b'+' ∷ p) hc (ground arith)

-- No classical name has a `+`.
classical_names_plain : All (λ t. not (has b'+' t) ≡ true) classical_names
unfolding classical_names has
classical_names_plain = (refl, (refl, (refl, tt)))

-- A hybrid name is taken apart into the two names that it was made of, when the classical one has
-- no `+`.
pub parse-canonical_hybrid_name :
    (c p : Bytes) → has b'+' c ≡ false → parse_hybrid_name (canonical_hybrid_name c p) ≡ ok (c, p)
unfolding parse_hybrid_name canonical_hybrid_name
parse-canonical_hybrid_name c p h =
    rw (has-append b'+' c p, before-append b'+' c p h, after-append b'+' c p h)

pub has-canonical_hybrid_name : (c p : Bytes) → has b'+' (canonical_hybrid_name c p) ≡ true
unfolding canonical_hybrid_name
has-canonical_hybrid_name c p = has-append b'+' c p

-- A hybrid name that is taken apart is the canonical name of its parts.
pub canonical-parse_hybrid_name :
    (name c p : Bytes) → parse_hybrid_name name ≡ ok (c, p) → name ≡ canonical_hybrid_name c p
unfolding parse_hybrid_name canonical_hybrid_name
canonical-parse_hybrid_name name c p h = ground (arith, before-after b'+' name)

is_suitable : Result KemAlgorithmSpec → Bool
is_suitable (ok s) = s.is_nist_standard && s.suitable_for_hybrid
is_suitable (err e) = false

suitable : Bytes → Bool
suitable name = is_suitable (get_algorithm_spec name)

approved-All :
    (P : Bytes → Bool) (c : Bytes) (table : List (Bytes × List Bytes))
    → All (λ row. All (λ t. P t ≡ true) row.1) table
    → All (λ t. P t ≡ true) (approved c table)
unfolding approved
approved-All P c [] h = tt
approved-All P c ((n, ps) ∷ rest) h = elim (Bool-cases (bytes_eq c n)) [
  | inl e ↦ rw e h.0
  | inr e ↦ rw e (approved-All P c rest h.1)
]

table_suitable : All (λ row. All (λ t. suitable t ≡ true) row.1) hybrid_combinations
unfolding suitable is_suitable get_algorithm_spec kem_algorithms hybrid_combinations bytes_eq
table_suitable = ((refl, (refl, (refl, tt))), ((refl, (refl, tt)), ((refl, tt), tt)))

is_suitable-eq-true :
    (r : Result KemAlgorithmSpec)
    → is_suitable r ≡ true
    → (s : KemAlgorithmSpec) × (r ≡ ok s)
      × (s.is_nist_standard ≡ true)
      × (s.suitable_for_hybrid ≡ true)
unfolding is_suitable
is_suitable-eq-true (ok s) h = (s, refl, ground arith, ground arith)
is_suitable-eq-true (err e) h = cc

-- What `validate_hybrid_combination` accepts.
pub record IsApproved (c p : Bytes) : Type 0 where
  pub parsed : parse_hybrid_name (canonical_hybrid_name c p) ≡ ok (c, p)
  pub ascii : is_ascii (canonical_hybrid_name c p) ≡ true
  pub known : one_of c classical_names ≡ true
  pub spec : KemAlgorithmSpec
  pub found : get_algorithm_spec p ≡ ok spec
  pub standard : spec.is_nist_standard ≡ true
  pub suited : spec.suitable_for_hybrid ≡ true

-- A combination that is accepted has an ASCII name that parses back into its parts, a known
-- classical half, and a registered standard KEM that is marked as suitable for hybrids.
pub validate-IsApproved : (c p : Bytes) → validate_hybrid_combination c p ≡ ok tt → IsApproved c p
unfolding validate_hybrid_combination
validate-IsApproved c p h =
    let (hc, h1) = >>-eq-ok (one_of c classical_names) _ _ h in
    let (hp, h2) = >>-eq-ok (one_of p kem_names) _ _ h1 in
    let approved_p : one_of p (approved c hybrid_combinations) ≡ true = ground arith in
    let plain : has b'+' c ≡ false =
      ground
        (arith, one_of-All (λ t. not (has b'+' t)) c classical_names hc classical_names_plain) in
    let suited : suitable p ≡ true =
      one_of-All suitable p _ approved_p (approved-All suitable c _ table_suitable) in
    let (s, found, standard, fit) =
      is_suitable-eq-true (get_algorithm_spec p) (unfold suitable in suited) in
    record {
      parsed = parse-canonical_hybrid_name c p plain;
      ascii =
          canonical-is_ascii c p (one_of-All is_ascii c _ hc classical_names-is_ascii)
            (one_of-All is_ascii p _ hp kem_names-is_ascii);
      known = hc;
      spec = s;
      found = found;
      standard = standard;
      suited = fit;
    }
