-- ===== src/App/Tenants.antt =====
-- internal/app/tenants.go: workspaces and their members. The authorizer has been asked before.
pub mod Owners
pub mod Closing
use nexus_local.Prelude.{
  ℕ, ◌+◌, List, [], ◌∷◌, ◌++◌, Bool, true, false, not, ◌&&◌, ◌||◌, leb, if◌then◌else◌, Option, none,
  some,
}
use nexus_local.Result.{
  Result, ok, err, invalid_entity, not_found, last_owner, tenant_not_empty, reject_if,
}
use nexus_local.Action.{Action, Context, live, pure, raise, lift, continue, ◌>>=◌, ◌>>◌}
use nexus_local.Text.{Text, text, text_eq, is_empty, trim_space}
use nexus_local.Clock.{Time}
use nexus_local.Domain.Ids.{TenantId, UserId}
use nexus_local.Domain.Tenant.{Tenant, User, new_tenant, new_user}
use nexus_local.Domain.Membership.{
  Membership, Role, owner, member, other_role, is_owner, new_membership,
}
use nexus_local.Domain.Document.{Document, DocumentStatus, deleted}
use nexus_local.Domain.DataSource.{DataSource, DataSourceStatus, archived}
use nexus_local.Auth.{Principal, or_default}
use nexus_local.Store.{Store}
use nexus_local.Store.Tenants.{
  save_tenant, get_tenant, save_user, get_user, save_membership, list_memberships_for_user,
  list_memberships_for_tenant, delete_membership,
}
use nexus_local.Store.Tenants
use nexus_local.Store.Documents.{list_documents}
use nexus_local.Store.Sources.{list_data_sources}

-- What the service is built from and asks for: the case table of `unicode` beyond ASCII, the
-- identifier that the generator returns, the time that the clock returns for the user and for the
-- tenant, and that of `time.Now`.
pub record Surroundings : Type 0 where
  pub case_table : ℕ → ℕ
  pub new_tenant_id : TenantId
  pub user_now : Time
  pub tenant_now : Time
  pub wall : Time

pub record MembershipSummary : Type 0 where
  pub tenant : Tenant
  pub membership : Membership

pub record TenantMemberSummary : Type 0 where
  pub user : User
  pub membership : Membership

pub record CurrentUserResult : Type 0 where
  pub user : User
  pub memberships : List MembershipSummary

pub record CreateTenantResult : Type 0 where
  pub user : User
  pub tenant : Tenant
  pub membership : Membership

pub record ListTenantMembersResult : Type 0 where
  pub tenant : Tenant
  pub members : List TenantMemberSummary

pub record AddTenantMemberInput : Type 0 where
  pub tenant_id : TenantId
  pub user_id : UserId
  pub email : Text
  pub name : Text
  pub role : Role

-- AddTenantMemberResult and DeleteTenantMemberResult
pub record TenantMemberResult : Type 0 where
  pub tenant : Tenant
  pub summary : TenantMemberSummary

unfoldable pub ensure_user : Surroundings → Context → Principal → Action Store User
ensure_user e ctx principal = do
  user ← lift (
      new_user e.case_table e.wall (record {
        id = principal.user_id;
        email =
            or_default (trim_space principal.email) (principal.user_id ++ text "@unknown.local");
        name = [];
        now = e.user_now;
      }))
  _ ← save_user ctx user
  pure user

-- The loop of membershipSummaries
unfoldable pub summarize_memberships :
    Context → List Membership → Action Store (List MembershipSummary)
summarize_memberships ctx [] = pure []
summarize_memberships ctx (m ∷ rest) = do
  tenant ← get_tenant ctx m.tenant_id
  more ← summarize_memberships ctx rest
  pure (record { tenant = tenant; membership = m } ∷ more)

unfoldable pub membership_summaries : Context → UserId → Action Store (List MembershipSummary)
membership_summaries ctx user = do
  memberships ← list_memberships_for_user ctx user
  summarize_memberships ctx memberships

-- The loop of tenantMemberSummaries
unfoldable pub summarize_members :
    Context → List Membership → Action Store (List TenantMemberSummary)
summarize_members ctx [] = pure []
summarize_members ctx (m ∷ rest) = do
  user ← get_user ctx m.user_id
  more ← summarize_members ctx rest
  pure (record { user = user; membership = m } ∷ more)

unfoldable pub tenant_member_summaries :
    Context → TenantId → Action Store (List TenantMemberSummary)
tenant_member_summaries ctx tenant = do
  memberships ← list_memberships_for_tenant ctx tenant
  summarize_members ctx memberships

unfoldable pub current_user : Surroundings → Context → Principal → Action Store CurrentUserResult
current_user e ctx principal = live ctx do
  user ← ensure_user e ctx principal
  memberships ← membership_summaries ctx user.id
  pure (record { user = user; memberships = memberships })

unfoldable pub create_tenant :
    Surroundings → Context → Principal → Text → Action Store CreateTenantResult
create_tenant e ctx principal name = live ctx do
  _ ← lift (reject_if (is_empty (trim_space name)) invalid_entity)
  user ← ensure_user e ctx principal
  tenant ←
      lift (new_tenant e.wall (record { id = e.new_tenant_id; name = name; now = e.tenant_now }))
  membership ←
      lift (new_membership (record { tenant_id = tenant.id; user_id = user.id; role = owner }))
  _ ← save_tenant ctx tenant
  _ ← save_membership ctx membership
  pure (record { user = user; tenant = tenant; membership = membership })

unfoldable pub list_tenant_members : Context → TenantId → Action Store ListTenantMembersResult
list_tenant_members ctx id = live ctx do
  tenant ← get_tenant ctx id
  members ← tenant_member_summaries ctx id
  pure (record { tenant = tenant; members = members })

-- `if input.Role == "" { input.Role = domain.RoleMember }`
abbrev pub role_or_member : Role → Role
role_or_member (other_role []) = member
role_or_member role = role

unfoldable pub add_tenant_member :
    Surroundings → Context → AddTenantMemberInput → Action Store TenantMemberResult
add_tenant_member e ctx input = live ctx do
  tenant ← get_tenant ctx input.tenant_id
  user ← lift (
      new_user e.case_table e.wall
        (record { id = input.user_id; email = input.email; name = input.name; now = e.user_now }))
  membership ← lift (
      new_membership (record {
        tenant_id = input.tenant_id;
        user_id = user.id;
        role = role_or_member input.role;
      }))
  _ ← save_user ctx user
  _ ← save_membership ctx membership
  pure (record { tenant = tenant; summary = record { user = user; membership = membership } })

-- The loop of DeleteTenantMember: what `removed` and `ownerCount` are after it. `none` is the zero
-- value of `removed`.
unfoldable pub scan_members :
    UserId
    → List TenantMemberSummary
    → Option TenantMemberSummary
    → ℕ
    → Option TenantMemberSummary × ℕ
scan_members user [] removed owner_count = (removed, owner_count)
scan_members user (m ∷ rest) removed owner_count =
    scan_members user rest (if text_eq m.membership.user_id user then some m else removed)
      (if is_owner m.membership.role then owner_count + 1 else owner_count)

-- The two guards of DeleteTenantMember, and who is to go.
unfoldable pub removable : Option TenantMemberSummary → ℕ → Result TenantMemberSummary
removable none owner_count = err not_found
removable (some removed) owner_count =
    if is_empty removed.membership.user_id
    then err not_found
    else if is_owner removed.membership.role && leb owner_count 1
    then err last_owner
    else ok removed

unfoldable pub delete_tenant_member : Context → TenantId → UserId → Action Store TenantMemberResult
delete_tenant_member ctx id user = live ctx do
  tenant ← get_tenant ctx id
  members ← tenant_member_summaries ctx id
  removed ←
      (let (found, owner_count) = scan_members user members none 0 in
        lift (removable found owner_count))
  _ ← delete_membership ctx id user
  pure (record { tenant = tenant; summary = removed })

-- document.Status != domain.DocumentStatusDeleted
abbrev pub is_active_document : Document → Bool
is_active_document d = elim d.status [ deleted ↦ false | _ ↦ true ]

-- source.Status != domain.DataSourceStatusArchived
abbrev pub is_active_source : DataSource → Bool
is_active_source d = elim d.status [ archived ↦ false | _ ↦ true ]

unfoldable pub any_active : {A : Type 0} → (A → Bool) → List A → Bool
any_active active [] = false
any_active active (x ∷ rest) = active x || any_active active rest

unfoldable pub delete_tenant : Context → TenantId → Action Store Tenant
delete_tenant ctx id = live ctx do
  tenant ← get_tenant ctx id
  documents ← list_documents ctx id
  _ ← lift (reject_if (any_active is_active_document documents) tenant_not_empty)
  sources ← list_data_sources ctx id
  _ ← lift (reject_if (any_active is_active_source sources) tenant_not_empty)
  _ ← nexus_local.Store.Tenants.delete_tenant ctx id
  pure tenant
