-- ===== src/Signatures/Lms/Signers.antt =====
-- signatures/stateful.py: any number of signers over one store, a call at a time, as the module asks of
-- the signers of a key.
use quantum_safe_py.Prelude.{ℕ, ◌≡◌, Option, none, some, List, [], ◌∷◌, Bytes, ◌==◌, if◌then◌else◌}
use quantum_safe_py.Outcome.{Error, ok, err}
use quantum_safe_py.Signatures.Lms.{
  Pyhsslms, LmsStateStore, LmsSigner, lms_signer, check_sign, reserve_next,
}
use quantum_safe_py.Signatures.Lms

-- `issued` has the key and the index of every signature that was made, the last first.
pub record System (Key S : Type 0) : Type 0 where
  pub store : S
  pub signers : ℕ → Option (LmsSigner Key)
  pub issued : List (Bytes × ℕ)

unfoldable pub update :
    {Key : Type 0}
    → (ℕ → Option (LmsSigner Key))
    → ℕ
    → Option (LmsSigner Key)
    → ℕ
    → Option (LmsSigner Key)
update signers i x j = if j == i then x else signers j

-- A signer may be made at any time of any private key: a fresh one, one that was stored, a copy or an
-- old snapshot. It may call `sign`, which returns or raises; its process may end between the calls,
-- and in a call, after the reservation and before the signature.
pub data Step {Key S : Type 0} (lib : Pyhsslms Key) (store : LmsStateStore S) (s : System Key S)
    : System Key S → Type 0 where
  construct :
      (i : ℕ) (key_id : Bytes) (sk : Key) (x : LmsSigner Key)
      → lms_signer lib store key_id sk s.store ≡ ok x
      → Step lib store s (record s { signers = update s.signers i (some x) })
  signed :
      (i : ℕ) (x y : LmsSigner Key) (message signature : Bytes) (t : S)
      → s.signers i ≡ some x
      → Lms.sign lib store message (s.store, x) ≡ ((t, y), ok signature)
      → Step lib store s (record {
        store = t;
        signers = update s.signers i (some y);
        issued = (x.key_id, lib.q x.sk) ∷ s.issued;
      })
  raised :
      (i : ℕ) (x y : LmsSigner Key) (message : Bytes) (t : S) (e : Error)
      → s.signers i ≡ some x
      → Lms.sign lib store message (s.store, x) ≡ ((t, y), err e)
      → Step lib store s
          (record { store = t; signers = update s.signers i (some y); issued = s.issued })
  crashed :
      (i : ℕ) (x : LmsSigner Key)
      → s.signers i ≡ some x
      → check_sign lib store x s.store ≡ ok tt
      → Step lib store s (record {
        store = (reserve_next lib store x s.store).0;
        signers = update s.signers i none;
        issued = s.issued;
      })
  stopped : (i : ℕ) → Step lib store s (record s { signers = update s.signers i none })

pub data Reach {Key S : Type 0} (lib : Pyhsslms Key) (store : LmsStateStore S) (s : System Key S)
    : System Key S → Type 0 where
  start : Reach lib store s s
  later : {t u : System Key S} → Reach lib store s t → Step lib store t u → Reach lib store s u

-- No signer yet, and no signature.
abbrev pub fresh : {Key S : Type 0} → S → System Key S
fresh s = record { store = s; signers = λ i. none; issued = [] }
