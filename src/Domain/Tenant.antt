-- ===== src/Domain/Tenant.antt =====
-- tenant.go: workspaces and users.
use nexus_local.Prelude.{ℕ, not, ◌||◌, if◌then◌else◌}
use nexus_local.Result.{Result, ok, err, invalid_entity}
use nexus_local.Text.{Text, text, is_empty, trim_space, to_lower, contains}
use nexus_local.Clock.{Time, or_now}
use nexus_local.Domain.Ids.{TenantId, UserId, empty_id}

pub record Tenant : Type 0 where
  pub id : TenantId
  pub name : Text
  pub created_at : Time
  pub updated_at : Time

pub record User : Type 0 where
  pub id : UserId
  pub email : Text
  pub name : Text
  pub created_at : Time
  pub updated_at : Time

pub record TenantCreate : Type 0 where
  pub id : TenantId
  pub name : Text
  pub now : Time

pub record UserCreate : Type 0 where
  pub id : UserId
  pub email : Text
  pub name : Text
  pub now : Time

unfoldable pub new_tenant : Time → TenantCreate → Result Tenant
new_tenant wall input =
    if empty_id input.id || is_empty (trim_space input.name)
    then err invalid_entity
    else ok (record {
      id = input.id;
      name = trim_space input.name;
      created_at = or_now wall input.now;
      updated_at = or_now wall input.now;
    })

-- The first argument is the case table of `unicode` beyond ASCII.
unfoldable pub new_user : (ℕ → ℕ) → Time → UserCreate → Result User
new_user table wall input =
    let email = to_lower table (trim_space input.email) in
    if empty_id input.id || is_empty email || not (contains email (text "@"))
    then err invalid_entity
    else ok (record {
      id = input.id;
      email = email;
      name = trim_space input.name;
      created_at = or_now wall input.now;
      updated_at = or_now wall input.now;
    })
