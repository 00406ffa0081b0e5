-- ===== src/Action/Run.antt =====
-- A call that may not return, as one that runs a loop on fuel: `none` then.
use nexus_local.Prelude.{Option, none, some}
use nexus_local.Result.{Result, ok, err}
use nexus_local.Action.{Action}

abbrev pub Run : Type 0 → Type 0 → Type 0
Run S A = S → Option (Result A × S)

module _ {S A : Type 0} where
  abbrev pub returns : Action S A → Run S A
  returns m s = some (m s)

module _ {S A B : Type 0} where
  abbrev pub next : (Result A → Run S B) → Option (Result A × S) → Option (Result B × S)
  next f none = none
  next f (some r) = f r.0 r.1

  -- The rest of a call, which sees the result of the first part, an error too.
  abbrev pub follow : Run S A → (Result A → Run S B) → Run S B
  follow m f s = next f (m s)

  abbrev pub unless_error : (A → Run S B) → Result A → Run S B
  unless_error f (ok a) = f a
  unless_error f (err e) = λ s. some (err e, s)

  infixl 5 ◌>>=◌
  abbrev pub ◌>>=◌ : Run S A → (A → Run S B) → Run S B
  m >>= f = follow m (unless_error f)
