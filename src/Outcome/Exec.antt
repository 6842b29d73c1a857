-- ===== src/Outcome/Exec.antt =====
-- A method of a mutable object: it gives the object's new state, whether it returns or raises.
use quantum_safe_py.Outcome.{Result}

abbrev pub Exec {ℓ} : Type ℓ → Type ℓ → Type ℓ
Exec S A = S → S × Result A
