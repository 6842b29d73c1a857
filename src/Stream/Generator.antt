-- ===== src/Stream/Generator.antt =====
-- What a Python generator did: the values that it yielded, in order, and how it ended.
use quantum_safe_py.Prelude.{List, [], ◌∷◌, ◌++◌, Bytes}
use quantum_safe_py.Outcome.{Error, Result, ok, err}

-- `out_of_fuel` is no Python outcome: the model's loop bound was too small.
pub data Ending : Type 0 where
  finished out_of_fuel : Ending
  raised : Error → Ending

pub record Run : Type 0 where
  pub yields : List Bytes
  pub ending : Ending

abbrev pub stop : Run
stop = record { yields = []; ending = finished }

abbrev pub fail : Error → Run
fail e = record { yields = []; ending = raised e }

abbrev pub yield : Bytes → Run → Run
yield b g = record { yields = b ∷ g.yields; ending = g.ending }

abbrev pub yield_all : List Bytes → Run → Run
yield_all bs g = record { yields = bs ++ g.yields; ending = g.ending }

-- A step that may raise, and then the rest of the generator.
abbrev pub then_run {ℓ} : {A : Type ℓ} → Result A → (A → Run) → Run
then_run (ok a) f = f a
then_run (err e) f = fail e
