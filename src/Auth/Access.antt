-- ===== src/Auth/Access.antt =====
-- auth.go: whom the authenticator lets in and what the authorizer grants.
use nexus_local.Prelude.{
  ℕ, List, [], ◌∷◌, true, false, ◌&&◌, ◌≡◌, ◌⊎◌, ◌↔◌, inl, inr, refl, sym, ap, arith, none, some,
  In, Bool-cases,
}
use nexus_local.Result.{ok}
use nexus_local.Text.{Text, text_Eq, text_eq, text_eq_iff, trim_space, is_empty}
use nexus_local.Text.Trim.{trim_space_idem}
use mathlib.Core.Path.{ap₂}
use nexus_local.Map
use nexus_local.Map.Keyed.{get-key}
use nexus_local.Domain.Ids.{TenantId, UserId, empty_id}
use nexus_local.Domain.Membership.{Membership, Permission, allows}
use nexus_local.Store.{Store, Key, key_Eq, membership_key}
use nexus_local.Store.WellFormed.{IsWellFormed}
use nexus_local.Store.Listing.{In-select}
use nexus_local.Store.Select.{select}
use nexus_local.Store.Tenants.{list_memberships_for_user, by_tenant}
use nexus_local.Auth.{
  Authenticator, Authorizer, Principal, Config, mode_dev, mode_trusted_header, or_default,
  authenticate, new_authenticator, grants, require,
}

-- The store holds a membership of the user in the tenant with a role that allows the permission.
pub record HasGrant (s : Store) (user : UserId) (tenant : TenantId) (permission : Permission)
    : Type 0 where
  pub membership : Membership
  pub stored : Map.get s.memberships (tenant, user) ≡ some membership
  pub allowed : allows membership.role permission ≡ true

record IsGrant (tenant : TenantId) (permission : Permission) (ms : List Membership) : Type 0 where
  membership : Membership
  listed : In membership ms
  here : membership.tenant_id ≡ tenant
  allowed : allows membership.role permission ≡ true

grants-IsGrant :
    (tenant : TenantId) (permission : Permission) (ms : List Membership)
    → grants tenant permission ms ≡ true
    → IsGrant tenant permission ms
unfolding grants
grants-IsGrant tenant permission [] h = cc
grants-IsGrant tenant permission (m ∷ rest) h =
    elim (Bool-cases (text_eq m.tenant_id tenant && allows m.role permission)) [
      | inl met ↦ record {
        membership = m;
        listed = inl refl;
        here = ground (arith, text_eq_iff m.tenant_id tenant, met);
        allowed = ground (arith, met);
      }
      | inr unmet ↦
          let g = grants-IsGrant tenant permission rest (rw unmet at h) in
          record {
            membership = g.membership;
            listed = inr g.listed;
            here = g.here;
            allowed = g.allowed;
          }
    ]

grants_of_In :
    (tenant : TenantId) (permission : Permission) (m : Membership) (ms : List Membership)
    → In m ms
    → m.tenant_id ≡ tenant
    → allows m.role permission ≡ true
    → grants tenant permission ms ≡ true
unfolding grants
grants_of_In tenant permission m [] i h k = elim i [ ]
grants_of_In tenant permission m (n ∷ ms) (inl p) h k = ground (
  arith,
  text_eq_iff n.tenant_id tenant,
  ap (λ (x : Membership). x.tenant_id) p,
  ap (λ (x : Membership). allows x.role permission) p,
  h,
  k,
)
grants_of_In tenant permission m (n ∷ ms) (inr q) h k =
    ground (arith, grants_of_In tenant permission m ms q h k)

listed_grants_iff :
    (user : UserId) (tenant : TenantId) (permission : Permission) (s : Store)
    → IsWellFormed s
    → (grants tenant permission (select (λ m. text_eq m.user_id user) by_tenant s.memberships)
        ≡ true)
      ↔ HasGrant s user tenant permission
listed_grants_iff user tenant permission s w = (
  λ g.
      let found = grants-IsGrant tenant permission _ g in
      let (stored, of_user) = (here found.membership).0 found.listed in
      let same : ◌≡◌ {A = Key} (membership_key found.membership) (tenant, user) =
        ap₂ (λ t u. (t, u)) found.here ((text_eq_iff _ user).0 of_user) in
      record { membership = found.membership; stored = rw same at stored; allowed = found.allowed },
  λ g.
      let same =
        get-key membership_key s.memberships (tenant, user) g.membership w.memberships g.stored in
      grants_of_In tenant permission g.membership _
        ((here g.membership).1
          (rw same at g.stored, (text_eq_iff _ user).1 (sym (ap (λ k. k.1) same))))
        (sym (ap (λ k. k.0) same)) g.allowed,
)
  where
    here :
        (m : Membership)
        → In m (select (λ m. text_eq m.user_id user) by_tenant s.memberships)
          ↔ ((Map.get s.memberships (membership_key m) ≡ some m) × (text_eq m.user_id user ≡ true))
    here m =
        In-select membership_key (λ m. text_eq m.user_id user) by_tenant s.memberships m
          w.memberships

-- In any mode but dev, on a live context, a well-formed store and identifiers that are not blank, an
-- authorizer with a repository lets a call through exactly when the store holds a membership of that
-- user in that tenant whose role allows the permission.
pub require-ok_iff :
    (a : Authorizer) (principal : Principal) (tenant : TenantId) (permission : Permission)
    (s : Store)
    → IsWellFormed s
    → text_eq a.mode mode_dev ≡ false
    → a.has_repos ≡ true
    → empty_id principal.user_id ≡ false
    → empty_id tenant ≡ false
    → (require a none principal tenant permission s ≡ (ok tt, s))
      ↔ HasGrant s principal.user_id tenant permission
unfolding require list_memberships_for_user
require-ok_iff a principal tenant permission s w m r u t =
    let both = listed_grants_iff principal.user_id tenant permission s w in
    (λ h. both.0 (ground (arith, h, m, r, u, t)), λ g. ground (arith, both.1 g, m, r, u, t))

-- Who is let in: a user that is not blank, under one of the two modes; outside dev mode it is the
-- user that the header names.
pub record IsKnown (a : Authenticator) (header : Text → Text) (p : Principal) : Type 0 where
  pub mode : p.mode ≡ a.mode
  pub known_mode : (a.mode ≡ mode_dev) ⊎ (a.mode ≡ mode_trusted_header)
  pub named : empty_id p.user_id ≡ false
  pub of_header : (a.mode ≡ mode_dev) ⊎ (p.user_id ≡ trim_space (header a.user_id_header))

trimmed-empty_id : (t : Text) → is_empty (trim_space t) ≡ false → empty_id (trim_space t) ≡ false
unfolding empty_id
trimmed-empty_id t h = rw trim_space_idem h

or_default-cases :
    (value fallback : Text)
    → (is_empty value ≡ true) × (or_default value fallback ≡ fallback)
      ⊎ (is_empty value ≡ false) × (or_default value fallback ≡ value)
or_default-cases [] fallback = inl (refl, refl)
or_default-cases (c ∷ value) fallback = inr (refl, refl)

known :
    (a : Authenticator) (raw : Text) (header : Text → Text) (p : Principal)
    → a.dev_user_id ≡ trim_space raw
    → authenticate a header ≡ ok p
    → IsKnown a header p
unfolding authenticate
known a raw header p d h =
    let sent = header a.user_id_header in
    let dev = text_eq_iff a.mode mode_dev in
    let trusted = text_eq_iff a.mode mode_trusted_header in
    let pick = or_default-cases (trim_space sent) a.dev_user_id in
    record {
      mode = ground (arith, h, dev, trusted);
      known_mode = ground (arith, h, dev, trusted);
      named = ground (arith, h, d, pick, trimmed-empty_id sent, trimmed-empty_id raw);
      of_header = ground (arith, h, dev);
    }

-- Whoever an authenticator made from a configuration lets in has an identifier that is not blank, so
-- that no authorizer refuses them as unauthenticated; the mode is dev or trusted-header, and in the
-- latter the identifier is the trimmed value of the user header.
pub authenticate-IsKnown :
    (table : ℕ → ℕ) (cfg : Config) (header : Text → Text) (p : Principal)
    → authenticate (new_authenticator table cfg) header ≡ ok p
    → IsKnown (new_authenticator table cfg) header p
unfolding new_authenticator
authenticate-IsKnown table cfg header p h =
    known (new_authenticator table cfg) cfg.dev_user_id header p refl h
