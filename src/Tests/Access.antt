-- ===== src/Tests/Access.antt =====
-- auth/auth.go at fixed inputs: who is let in and what is granted.
use nexus_local.Prelude.{ℕ, [], ◌∷◌, true, false, ◌≡◌, ◌↔◌, refl, none, if◌then◌else◌}
use nexus_local.Result.{ok}
use nexus_local.Text.{Text, text, text_eq, trim_space, is_space, to_lower}
use nexus_local.Domain.Ids.{empty_id}
use nexus_local.Domain.Membership.{Membership, Role, owner, viewer, manage_users}
use nexus_local.Store.{Store, new_store}
use nexus_local.Store.WellFormed.{
  IsWellFormed, call_save_membership, perform_all, new_store-IsWellFormed, perform_all-IsWellFormed,
}
use nexus_local.Auth.{
  Config, Authorizer, Principal, mode_trusted_header, normalize_mode, new_authenticator,
  authenticate, require,
}
use nexus_local.Auth.Access.{HasGrant, IsKnown, require-ok_iff, authenticate-IsKnown}

ascii : ℕ → ℕ
ascii c = c

abbrev config : Config
config = record {
  auth_mode = text " Trusted-Header ";
  dev_user_id = text "dev";
  dev_user_email = text "dev@local";
  trusted_user_id_header = text "X-User";
  trusted_email_header = text "X-Email";
}

-- The headers of one request.
abbrev header : Text → Text
header name = if text_eq name (text "X-User") then text " ann " else []

abbrev ann : Principal
ann = record { user_id = text "ann"; email = []; mode = mode_trusted_header }

ann_enters : authenticate (new_authenticator ascii config) header ≡ ok ann
unfolding authenticate new_authenticator normalize_mode to_lower trim_space is_space text_eq
ann_enters = refl

authenticate-IsKnown_example : IsKnown (new_authenticator ascii config) header ann
authenticate-IsKnown_example = authenticate-IsKnown ascii config header ann ann_enters

abbrev grant : Text → Role → Membership
grant user role = record { tenant_id = text "acme"; user_id = user; role = role }

store : Store
store =
    perform_all
      ((none, call_save_membership (grant (text "ann") owner))
        ∷ (none, call_save_membership (grant (text "bob") viewer))
        ∷ [])
      new_store

store-IsWellFormed : IsWellFormed store
unfolding store
store-IsWellFormed = perform_all-IsWellFormed _ new_store new_store-IsWellFormed

abbrev trusted : Authorizer
trusted = record { mode = mode_trusted_header; has_repos = true }

trusted_mode : text_eq mode_trusted_header (text "dev") ≡ false
unfolding text_eq
trusted_mode = refl

ann_named : empty_id (text "ann") ≡ false
unfolding empty_id trim_space is_space
ann_named = refl

acme_named : empty_id (text "acme") ≡ false
unfolding empty_id trim_space is_space
acme_named = refl

require-ok_iff_example :
    (require trusted none ann (text "acme") manage_users store ≡ (ok tt, store))
    ↔ HasGrant store (text "ann") (text "acme") manage_users
require-ok_iff_example =
    require-ok_iff trusted ann (text "acme") manage_users store store-IsWellFormed trusted_mode refl
      ann_named acme_named
