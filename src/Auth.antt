-- ===== src/Auth.antt =====
-- internal/auth/auth.go: who calls, and whether they may. `r.Header.Get` is a function `header`; the
-- repository behind an authorizer is the memory store.
pub mod Access
use nexus_local.Prelude.{ℕ, List, [], ◌∷◌, Bool, true, false, not, ◌&&◌, ◌≡◌, if◌then◌else◌, Option}
use nexus_local.Result.{
  Result, ok, err, invalid_entity, unauthenticated, forbidden, unsupported_auth_mode,
}
use nexus_local.Action.{Action, Context, live, raise, pure, ◌>>=◌, continue}
use nexus_local.Text.{Text, text, text_eq, is_empty, trim_space, to_lower}
use nexus_local.Domain.Ids.{TenantId, UserId, empty_id}
use nexus_local.Domain.Membership.{Membership, Permission, allows}
use nexus_local.Store.{Store}
use nexus_local.Store.Tenants.{list_memberships_for_user}

-- The fields of config.Config that this package reads.
pub record Config : Type 0 where
  pub auth_mode : Text
  pub dev_user_id : Text
  pub dev_user_email : Text
  pub trusted_user_id_header : Text
  pub trusted_email_header : Text

pub record Principal : Type 0 where
  pub user_id : UserId
  pub email : Text
  pub mode : Text

pub record Authenticator : Type 0 where
  pub mode : Text
  pub dev_user_id : UserId
  pub dev_email : Text
  pub user_id_header : Text
  pub email_header : Text

-- `has_repos` is `repos != nil`.
pub record Authorizer : Type 0 where
  pub mode : Text
  pub has_repos : Bool

abbrev pub mode_dev : Text
mode_dev = text "dev"

abbrev pub mode_trusted_header : Text
mode_trusted_header = text "trusted-header"

-- `if value == "" { value = fallback }`
abbrev pub or_default : Text → Text → Text
or_default [] fallback = fallback
or_default (c ∷ value) fallback = c ∷ value

-- The first argument is the case table of `unicode` beyond ASCII.
unfoldable pub normalize_mode : (ℕ → ℕ) → Text → Text
normalize_mode table mode = or_default (to_lower table (trim_space mode)) mode_dev

unfoldable pub new_authenticator : (ℕ → ℕ) → Config → Authenticator
unfolding normalize_mode
new_authenticator table cfg = record {
  mode = normalize_mode table cfg.auth_mode;
  dev_user_id = trim_space cfg.dev_user_id;
  dev_email = trim_space cfg.dev_user_email;
  user_id_header = trim_space cfg.trusted_user_id_header;
  email_header = trim_space cfg.trusted_email_header;
}

unfoldable pub new_authorizer : (ℕ → ℕ) → Config → Bool → Authorizer
unfolding normalize_mode
new_authorizer table cfg has_repos = record {
  mode = normalize_mode table cfg.auth_mode;
  has_repos = has_repos;
}

-- Authenticator.Authenticate
unfoldable pub authenticate : Authenticator → (Text → Text) → Result Principal
authenticate a header =
    let sent = trim_space (header a.user_id_header) in
    let email = trim_space (header a.email_header) in
    if text_eq a.mode mode_dev
    then if is_empty (or_default sent a.dev_user_id)
      then err unauthenticated
      else ok (record {
        user_id = or_default sent a.dev_user_id;
        email = or_default email a.dev_email;
        mode = mode_dev;
      })
    else if text_eq a.mode mode_trusted_header
    then if is_empty sent
      then err unauthenticated
      else ok (record { user_id = sent; email = email; mode = mode_trusted_header })
    else err unsupported_auth_mode

-- The loop of Authorizer.Require
unfoldable pub grants : TenantId → Permission → List Membership → Bool
grants tenant permission [] = false
grants tenant permission (m ∷ rest) =
    let later = grants tenant permission rest in
    if text_eq m.tenant_id tenant && allows m.role permission then true else later

-- Authorizer.Require
unfoldable pub require :
    Authorizer → Context → Principal → TenantId → Permission → Action Store (Unit {0})
unfolding grants
require a ctx principal tenant permission = live ctx (
    if empty_id principal.user_id
    then raise unauthenticated
    else if empty_id tenant
    then raise invalid_entity
    else if text_eq a.mode mode_dev
    then pure tt
    else if not a.has_repos
    then raise forbidden
    else list_memberships_for_user ctx principal.user_id >>= λ memberships.
        if grants tenant permission memberships then pure tt else raise forbidden)
