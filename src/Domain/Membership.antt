-- ===== src/Domain/Membership.antt =====
-- membership.go: roles and what each of them allows.
use nexus_local.Prelude.{Bool, true, false, not, ◌||◌, ◌≡◌, arith, if◌then◌else◌}
use nexus_local.Result.{Result, ok, err, invalid_entity}
use nexus_local.Text.{Text}
use nexus_local.Domain.Ids.{TenantId, UserId, empty_id}

-- `Role` and `Permission` are string types; a value that is none of the constants is an `other_…`.
pub data Role : Type 0 where
  owner : Role
  admin : Role
  member : Role
  viewer : Role
  other_role : Text → Role

pub data Permission : Type 0 where
  manage_tenant : Permission
  manage_users : Permission
  use_ai : Permission
  upload_documents : Permission
  read_documents : Permission
  manage_sources : Permission
  import_sources : Permission
  other_permission : Text → Permission

pub record Membership : Type 0 where
  pub tenant_id : TenantId
  pub user_id : UserId
  pub role : Role

-- Role.Valid
unfoldable pub valid_role : Role → Bool
valid_role (other_role t) = false
valid_role _ = true

-- The argument has the fields of `MembershipCreate`, which are those of `Membership`.
unfoldable pub new_membership : Membership → Result Membership
unfolding valid_role
new_membership input =
    if empty_id input.tenant_id || empty_id input.user_id || not (valid_role input.role)
    then err invalid_entity
    else ok (record { tenant_id = input.tenant_id; user_id = input.user_id; role = input.role })

-- Role.Allows
unfoldable pub allows : Role → Permission → Bool
allows owner p = true
allows admin (other_permission t) = false
allows admin p = true
allows member use_ai = true
allows member upload_documents = true
allows member read_documents = true
allows member manage_sources = true
allows member import_sources = true
allows member p = false
allows viewer read_documents = true
allows viewer p = false
allows (other_role t) p = false

-- r == RoleOwner
abbrev pub is_owner : Role → Bool
is_owner owner = true
is_owner _ = false

-- How far up a role stands.
abbrev rank : Role → Role → Bool
rank a owner = true
rank admin admin = true
rank member admin = true
rank viewer admin = true
rank member member = true
rank viewer member = true
rank viewer viewer = true
rank (other_role t) b = true
rank a b = false

-- The roles form a ladder, viewer, member, admin, owner: whatever a role allows, it is one of the four,
-- and every role above it allows the same. So a role that is none of the four allows nothing.
pub allows_mono :
    (a b : Role) (p : Permission)
    → rank a b ≡ true
    → allows a p ≡ true
    → (valid_role a ≡ true) × (allows b p ≡ true)
unfolding allows valid_role
allows_mono a b p r h = ground arith
