-- ===== src/Outcome/Both.antt =====
-- Two runs of fallible code that raise the same exception, or return related values.
use quantum_safe_py.Prelude.{◌≡◌, refl, Bool, true, false}
use quantum_safe_py.Outcome.{Error, Result, ok, err, ◌>>=◌, ◌>>◌, require}

pub data Both {A B : Type 0} (R : A → B → Type 0) : Result A → Result B → Type 0 where
  both_raise : (e : Error) → Both R (err e) (err e)
  both_return : (a : A) (b : B) → R a b → Both R (ok a) (ok b)

pub Both-require :
    {A B : Type 0} {R : A → B → Type 0} (t : Bool) (e : Error) (k : Result A) (l : Result B)
    → (t ≡ true → Both R k l)
    → Both R (require t e >> k) (require t e >> l)
Both-require true e k l h = h refl
Both-require false e k l h = both_raise e

pub Both-bind :
    {A B X : Type 0} {R : A → B → Type 0} (m : Result X) (f : X → Result A) (g : X → Result B)
    → ((x : X) → Both R (f x) (g x))
    → Both R (m >>= f) (m >>= g)
Both-bind (ok x) f g h = h x
Both-bind (err e) f g h = both_raise e
