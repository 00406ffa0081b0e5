-- ===== src/Action.antt =====
-- A call that reads and writes a state and may return an error: what was written before the error
-- stays written.
pub mod Run
use nexus_local.Prelude.{Option, none, some}
use nexus_local.Result.{Error, Result, ok, err}

abbrev pub Action : Type 0 → Type 0 → Type 0
Action S A = S → Result A × S

module _ {S A : Type 0} where
  abbrev pub pure : A → Action S A
  pure a s = (ok a, s)

  abbrev pub raise : Error → Action S A
  raise e s = (err e, s)

  abbrev pub lift : Result A → Action S A
  lift r s = (r, s)

module _ {S A B : Type 0} where
  abbrev pub continue : Result A → (A → Action S B) → S → Result B × S
  continue (ok a) f s = f a s
  continue (err e) f s = (err e, s)

  infixl 5 ◌>>=◌ ◌>>◌
  abbrev pub ◌>>=◌ : Action S A → (A → Action S B) → Action S B
  ◌>>=◌ m f s = let (r, s') = m s in continue r f s'

  abbrev pub ◌>>◌ : Action S A → Action S B → Action S B
  m >> n = m >>= λ _. n

-- What `ctx.Err()` returns for the context of a call; `none` while the context is live.
abbrev pub Context : Type 0
Context = Option Error

-- `if err := ctx.Err(); err != nil { return err }`
abbrev pub live : {S A : Type 0} → Context → Action S A → Action S A
live none m = m
live (some e) m = raise e

-- `if err := m; err != nil { … }`: what is done about an error, in the state that the call left.
module _ {S A B : Type 0} where
  abbrev pub on_result : (Result A → Action S B) → Result A → S → Result B × S
  on_result f r s = f r s

  abbrev pub attempt : Action S A → (Result A → Action S B) → Action S B
  attempt m f s = let (r, s') = m s in on_result f r s'
