-- ===== src/Result.antt =====
-- What a Go function returns as `(value, error)`: the errors that a caller can tell apart with
-- `errors.Is`, and one for all others. The text that `fmt.Errorf` wraps round an error is left out.
use nexus_local.Prelude.{◌≡◌, ◌⊎◌, inl, inr, refl, Bool, true, false}

pub data Error : Type 0 where
  invalid_entity : Error
  invalid_state_transition : Error
  not_found : Error
  canceled : Error
  unauthenticated : Error
  forbidden : Error
  unsupported_auth_mode : Error
  last_owner : Error
  tenant_not_empty : Error
  object_store_unavailable : Error
  unsupported_document_type : Error
  end_of_file : Error
  unknown_target : Error
  empty_target : Error
  other_error : Error

pub data Result {ℓ} (A : Type ℓ) : Type ℓ where
  err : Error → Result A
  ok : A → Result A

infixl 5 ◌>>=◌ ◌>>◌
abbrev pub ◌>>=◌ {ℓ κ} : {A : Type ℓ} {B : Type κ} → Result A → (A → Result B) → Result B
err e >>= next = err e
ok a >>= next = next a

abbrev pub ◌>>◌ {ℓ} : {B : Type ℓ} → Result (Unit {0}) → Result B → Result B
m >> rest = m >>= λ _. rest

-- `if bad { return err }`
abbrev pub reject_if : Bool → Error → Result (Unit {0})
reject_if true e = err e
reject_if false e = ok tt

-- To split on a result and keep the equation.
pub Result-cases {ℓ} :
    {A : Type ℓ} (r : Result A) → ((a : A) × (r ≡ ok a)) ⊎ ((e : Error) × (r ≡ err e))
Result-cases (ok a) = inl (a, refl)
Result-cases (err e) = inr (e, refl)
