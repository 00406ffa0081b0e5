-- ===== src/Tests/Members.antt =====
-- app/tenants.go at fixed inputs: members that come and go.
use nexus_local.Prelude.{pos, [], ◌∷◌, ◌≡◌, refl, none, some}
use nexus_local.Result.{ok, err, last_owner}
use nexus_local.Text.{Text, text, text_eq, text_ltb, trim_space, is_space, to_lower, contains}
use nexus_local.Map
use nexus_local.Domain.Document.{Document, deleted}
use nexus_local.Store.Documents.{save_document, list_documents}
use nexus_local.Store.Sources.{list_data_sources}
use nexus_local.Sort.{sort, insert}
use nexus_local.Store.Select.{select}
use nexus_local.Domain.Ids.{empty_id}
use nexus_local.Domain.Tenant.{Tenant, User, new_user}
use nexus_local.Domain.Membership.{Membership, Role, owner, member, viewer, new_membership}
use nexus_local.Store.{Store, new_store, key_Eq}
use nexus_local.Store.WellFormed.{
  IsWellFormed, call_save_tenant, call_save_user, call_save_membership, call_save_document, perform,
  perform_all, new_store-IsWellFormed, perform_all-IsWellFormed,
}
use nexus_local.Store.Tenants.{
  delete_tenant, save_tenant, save_user, save_membership, get_tenant, get_user,
  list_memberships_for_tenant,
}
use nexus_local.App.Tenants.{
  Surroundings, AddTenantMemberInput, tenant_member_summaries, summarize_members, scan_members,
  removable, delete_tenant_member, add_tenant_member,
}
use nexus_local.App.Tenants
use nexus_local.App.Tenants.Closing.{IsVacant, delete_tenant-IsVacant}
use nexus_local.App.Tenants.Owners.{
  HasOwner, IsMemberDeletion, delete_tenant_member-IsMemberDeletion, delete_tenant_member-HasOwner,
}

abbrev acme : Tenant
acme = record { id = text "acme"; name = text "Acme"; created_at = 1; updated_at = 1 }

abbrev user : Text → User
user id = record { id = id; email = text "u@local"; name = []; created_at = 1; updated_at = 1 }

abbrev place : Text → Role → Membership
place id role = record { tenant_id = text "acme"; user_id = id; role = role }

store : Store
store =
    perform_all
      ((none, call_save_tenant acme)
        ∷ (none, call_save_user (user (text "ann")))
        ∷ (none, call_save_user (user (text "bob")))
        ∷ (none, call_save_membership (place (text "ann") owner))
        ∷ (none, call_save_membership (place (text "bob") member))
        ∷ [])
      new_store

store-IsWellFormed : IsWellFormed store
unfolding store
store-IsWellFormed = perform_all-IsWellFormed _ new_store new_store-IsWellFormed

held : Map.get store.memberships (text "acme", text "ann") ≡ some (place (text "ann") owner)
unfolding store perform perform_all Map.get Map.lookup save_membership Map.put text_eq Map.without
held = refl

ann_owns : HasOwner (text "acme") store
ann_owns = record {
  membership = place (text "ann") owner;
  in_tenant = refl;
  stored = held;
  owns = refl;
}

ann_stays : (delete_tenant_member none (text "acme") (text "ann") store).0 ≡ err last_owner
unfolding store perform perform_all delete_tenant_member get_tenant Map.get Map.lookup
    save_membership save_user save_tenant Map.put text_eq tenant_member_summaries
    list_memberships_for_tenant summarize_members select sort Map.values insert Map.without
    Map.empty new_store removable scan_members get_user text_ltb
ann_stays = refl

delete_tenant_member-IsMemberDeletion_example :
    IsMemberDeletion
      (text "acme")
      (text "bob")
      store
      (delete_tenant_member none (text "acme") (text "bob") store)
delete_tenant_member-IsMemberDeletion_example =
    delete_tenant_member-IsMemberDeletion (text "acme") (text "bob") store store-IsWellFormed

delete_tenant_member-HasOwner_example :
    HasOwner (text "acme") (delete_tenant_member none (text "acme") (text "bob") store).1
delete_tenant_member-HasOwner_example =
    delete_tenant_member-HasOwner (text "acme") (text "bob") store store-IsWellFormed ann_owns

abbrev surroundings : Surroundings
surroundings = record {
  case_table = λ c. c;
  new_tenant_id = text "t";
  user_now = 2;
  tenant_now = 2;
  wall = 2;
}

abbrev demotion : AddTenantMemberInput
demotion = record {
  tenant_id = text "acme";
  user_id = text "ann";
  email = text "u@local";
  name = [];
  role = viewer;
}

-- AddTenantMember writes the membership of a user who is already a member, without the guard that
-- DeleteTenantMember has: the last owner of a workspace becomes a viewer.
demoted :
    Map.get
      (add_tenant_member surroundings none demotion store).1.memberships
      (text "acme", text "ann")
    ≡ some (place (text "ann") viewer)
unfolding store perform perform_all add_tenant_member Map.get Map.lookup get_tenant save_membership
    save_user save_tenant Map.put text_eq new_user empty_id trim_space is_space to_lower contains
    new_membership
demoted = refl

abbrev gone : Document
gone = record {
  id = text "doc";
  tenant_id = text "acme";
  owner_id = text "ann";
  name = text "notes.md";
  storage_key = text "acme/notes.md";
  size_bytes = pos 1;
  status = deleted;
  created_at = 1;
  updated_at = 2;
}

closing : Store
closing =
    perform_all ((none, call_save_tenant acme) ∷ (none, call_save_document gone) ∷ []) new_store

closing-IsWellFormed : IsWellFormed closing
unfolding closing
closing-IsWellFormed = perform_all-IsWellFormed _ new_store new_store-IsWellFormed

acme_closes : (Tenants.delete_tenant none (text "acme") closing).0 ≡ ok acme
unfolding closing perform perform_all Tenants.delete_tenant get_tenant Map.get Map.lookup
    save_document save_tenant Map.put Map.without text_eq list_documents Tenants.any_active select
    sort insert Map.values new_store Map.empty list_data_sources delete_tenant
acme_closes = refl

delete_tenant-IsVacant_example : IsVacant (text "acme") closing
delete_tenant-IsVacant_example =
    delete_tenant-IsVacant (text "acme") closing acme closing-IsWellFormed acme_closes
