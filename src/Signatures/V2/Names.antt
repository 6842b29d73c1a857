-- ===== src/Signatures/V2/Names.antt =====
-- The v2 identifiers, and the bytes that are signed under them.
use quantum_safe_py.Prelude.{
  ℕ, ◌≤◌, ◌≡◌, ◌↔◌, ◌⊎◌, inl, inr, refl, sym, ap, ◌∙◌, Bool, true, false, not, List, [], ◌∷◌, ◌++◌,
  Bytes, bytes_eq, bytes_eq_iff, has, before, after, before-after, one_of, ends_with, drop_last,
  is_ascii, append_inj, All, length, ltb, ◌&&◌, arith, Bool-cases, Option-cases, one_of-All,
  ends_with-append,
}
use quantum_safe_py.Outcome.{Result, ok, err, unsupported_algorithm}
use quantum_safe_py.Signatures.V2.{
  suffix, v2_ml_dsa, v2_hybrids, partners, is_v2, base_of, require_base, all_identifiers,
  signed_input,
}

listed : Bytes → Bool
listed base = one_of (base ++ suffix) all_identifiers

ml_dsa_listed : All (λ b. listed b ≡ true) v2_ml_dsa
unfolding listed one_of bytes_eq all_identifiers v2_ml_dsa
ml_dsa_listed = (refl, (refl, (refl, tt)))

hybrid_listed :
    All
      (λ (row : Bytes × List Bytes). All (λ p. listed (row.0 ++ (b'+' ∷ p)) ≡ true) row.1)
      v2_hybrids
unfolding listed one_of bytes_eq all_identifiers v2_ml_dsa v2_hybrids
hybrid_listed = ((refl, (refl, (refl, tt))), ((refl, (refl, tt)), ((refl, tt), tt)))

partners-All :
    (P : Bytes → Bytes → Bool) (c : Bytes) (table : List (Bytes × List Bytes))
    → All (λ (row : Bytes × List Bytes). All (λ p. P row.0 p ≡ true) row.1) table
    → All (λ p. P c p ≡ true) (partners c table)
unfolding partners
partners-All P c [] h = tt
partners-All P c ((n, ps) ∷ rest) h = elim (Bool-cases (bytes_eq c n)) [
  | inl e ↦ rw (e, (bytes_eq_iff c n).0 e) h.0
  | inr e ↦ rw e (partners-All P c rest h.1)
]

-- What a base name that is given out is.
pub record IsBase (algorithm base : Bytes) : Type 0 where
  pub whole : algorithm ≡ base ++ suffix
  pub kind :
      ((has b'+' base ≡ false) × (one_of base v2_ml_dsa ≡ true))
      ⊎ ((has b'+' base ≡ true)
          × (one_of (after b'+' base) (partners (before b'+' base) v2_hybrids) ≡ true))

ml_dsa_plain : All (λ b. not (has b'+' b) ≡ true) v2_ml_dsa
unfolding has v2_ml_dsa
ml_dsa_plain = (refl, (refl, (refl, tt)))

pub require_base-IsBase :
    (algorithm base : Bytes) → require_base algorithm ≡ ok base → IsBase algorithm base
unfolding require_base base_of is_v2
require_base-IsBase algorithm base h = elim (Bool-cases (ends_with algorithm suffix)) [
  | inr e ↦ let bad : err unsupported_algorithm ≡ ok base = rw e at h in cc bad
  | inl e ↦
      let whole = ends_with-append algorithm suffix e in
      elim (Bool-cases (one_of (drop_last 3 algorithm) v2_ml_dsa)) [
        | inl m ↦
            let same : drop_last 3 algorithm ≡ base = ground (arith, h) in
            record {
              whole = whole ∙ ap (λ b. b ++ suffix) same;
              kind = inl (
                ground (
                  arith,
                  one_of-All (λ b. not (has b'+' b)) base v2_ml_dsa
                      (sym (ap (λ b. one_of b v2_ml_dsa) same) ∙ m) ml_dsa_plain,
                ),
                sym (ap (λ b. one_of b v2_ml_dsa) same) ∙ m,
              );
            }
        | inr m ↦
            let same : drop_last 3 algorithm ≡ base = ground (arith, h) in
            record {
              whole = whole ∙ ap (λ b. b ++ suffix) same;
              kind = inr (rw (← same) (ground (arith, h)), rw (← same) (ground (arith, h)));
            }
      ]
]

hybrid_partners_known :
    All (λ (row : Bytes × List Bytes). All (λ p. one_of p v2_ml_dsa ≡ true) row.1) v2_hybrids
unfolding one_of bytes_eq v2_ml_dsa v2_hybrids
hybrid_partners_known = ((refl, (refl, (refl, tt))), ((refl, (refl, tt)), ((refl, tt), tt)))

-- The post-quantum half of a hybrid is one of the three ML-DSA algorithms.
pub partner_known :
    (classical pqc : Bytes)
    → one_of pqc (partners classical v2_hybrids) ≡ true
    → one_of pqc v2_ml_dsa ≡ true
partner_known classical pqc listed =
    one_of-All (λ p. one_of p v2_ml_dsa) pqc (partners classical v2_hybrids) listed
      (partners-All (λ c p. one_of p v2_ml_dsa) classical v2_hybrids hybrid_partners_known)

-- The identifiers that are accepted are those that are listed.
listed-IsBase :
    (algorithm base : Bytes) → IsBase algorithm base → one_of algorithm all_identifiers ≡ true
unfolding listed
listed-IsBase algorithm base b = rw (b.whole) (elim b.kind [
  | inl (_, m) ↦ one_of-All listed base v2_ml_dsa m ml_dsa_listed
  | inr (plus, m) ↦ rw (before-after b'+' base plus) (
      one_of-All (λ p. listed (before b'+' base ++ (b'+' ∷ p))) (after b'+' base) _ m
        (partners-All (λ c p. listed (c ++ (b'+' ∷ p))) (before b'+' base) v2_hybrids
          hybrid_listed))
])

is_ok : Result Bytes → Bool
is_ok (ok b) = true
is_ok (err e) = false

identifiers_accepted : All (λ a. is_ok (require_base a) ≡ true) all_identifiers
unfolding is_ok require_base base_of is_v2 ends_with one_of bytes_eq has before after partners
    all_identifiers v2_ml_dsa v2_hybrids
identifiers_accepted = (refl, (refl, (refl, (refl, (refl, (refl, (refl, (refl, (refl, tt)))))))))

is_ok-eq-true : (r : Result Bytes) → is_ok r ≡ true → (b : Bytes) × (r ≡ ok b)
unfolding is_ok
is_ok-eq-true (ok b) h = (b, refl)
is_ok-eq-true (err e) h = cc

require_base-cases :
    (algorithm : Bytes)
    → ((base : Bytes) × (require_base algorithm ≡ ok base))
      ⊎ (require_base algorithm ≡ err unsupported_algorithm)
unfolding require_base
require_base-cases algorithm = elim (Option-cases (base_of algorithm)) [
  | inl e ↦ inr (rw e)
  | inr (base, e) ↦ inl (base, rw e)
]

-- An identifier has a base suite exactly when it is one of the nine that `all_identifiers` lists; any
-- other is refused as unsupported.
pub require_base_iff :
    (algorithm : Bytes)
    → (((base : Bytes) × (require_base algorithm ≡ ok base))
        ↔ (one_of algorithm all_identifiers ≡ true))
      × ((one_of algorithm all_identifiers ≡ false)
          → require_base algorithm ≡ err unsupported_algorithm)
require_base_iff algorithm = (
  (
    λ (base, h). listed-IsBase algorithm base (require_base-IsBase algorithm base h),
    λ m.
        is_ok-eq-true (require_base algorithm) (
          one_of-All (λ a. is_ok (require_base a)) algorithm all_identifiers m
            identifiers_accepted),
  ),
  λ m. elim (require_base-cases algorithm) [
    | inr e ↦ e
    | inl (base, e) ↦
        let bad = sym m ∙ listed-IsBase algorithm base (require_base-IsBase algorithm base e) in
        cc bad
  ],
)

identifiers_ascii : All (λ a. (is_ascii a && not (ltb 255 (length a))) ≡ true) all_identifiers
unfolding is_ascii all_identifiers v2_ml_dsa v2_hybrids
identifiers_ascii = (refl, (refl, (refl, (refl, (refl, (refl, (refl, (refl, (refl, tt)))))))))

-- For an accepted identifier and a context of 255 bytes at most, the signed bytes exist.
pub signed_input_fits :
    (algorithm base context message : Bytes)
    → require_base algorithm ≡ ok base
    → length context ≤ 255
    → signed_input algorithm context message
      ≡ ok (length algorithm ∷ (algorithm ++ (length context ∷ (context ++ message))))
unfolding signed_input
signed_input_fits algorithm base context message h fits =
    let plain =
      one_of-All (λ a. is_ascii a && not (ltb 255 (length a))) algorithm all_identifiers
        (listed-IsBase algorithm base (require_base-IsBase algorithm base h)) identifiers_ascii in
    ground (arith, plain)

signed_input-eq-ok :
    (algorithm context message x : Bytes)
    → signed_input algorithm context message ≡ ok x
    → length algorithm ∷ (algorithm ++ (length context ∷ (context ++ message))) ≡ x
unfolding signed_input
signed_input-eq-ok algorithm context message x h = ground (arith, h)

-- What is signed determines all that was meant: two calls that give the same bytes have the same
-- algorithm, the same context and the same message.
pub signed_input_injective :
    (a a' c c' m m' x : Bytes)
    → signed_input a c m ≡ ok x
    → signed_input a' c' m' ≡ ok x
    → (a ≡ a') × (c ≡ c') × (m ≡ m')
signed_input_injective a a' c c' m m' x h h' =
    let e = signed_input-eq-ok a c m x h ∙ sym (signed_input-eq-ok a' c' m' x h') in
    let (one, rest) = append_inj a a' _ _ (cons_head e) (cons_tail e) in
    let (two, three) = append_inj c c' _ _ (cons_head rest) (cons_tail rest) in (one, two, three)
  where
    cons_head : {x y : ℕ} {xs ys : Bytes} → ◌≡◌ {A = Bytes} (x ∷ xs) (y ∷ ys) → x ≡ y
    cons_head e = cc e

    cons_tail : {x y : ℕ} {xs ys : Bytes} → ◌≡◌ {A = Bytes} (x ∷ xs) (y ∷ ys) → xs ≡ ys
    cons_tail e = cc e
