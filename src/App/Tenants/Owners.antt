-- ===== src/App/Tenants/Owners.antt =====
-- app/tenants.go, DeleteTenantMember: the members and owners of a workspace.
use mathlib.Core.Path.{ap₂}
use nexus_local.Prelude.{
  ℕ, ◌+◌, ◌≤◌, List, [], ◌∷◌, map, Bool, true, false, ◌&&◌, ◌≡◌, ◌≢◌, ◌⊎◌, inl, inr, refl, ap, ◌∙◌,
  arith, Option, none, some, if◌then◌else◌, In, keep, Bool-cases,
}
use nexus_local.Result.{Error, Result, ok, err, Result-cases}
use nexus_local.Text.{text_Eq, text_eq, text_eq_iff}
use nexus_local.Map
use nexus_local.Map.{Map, lookup, get-remove}
use nexus_local.Map.Count.{count, count-sort, count-keep, other_of_two}
use nexus_local.Map.Keyed.{In-values_iff}
use nexus_local.Domain.Ids.{TenantId, UserId}
use nexus_local.Domain.Membership.{Membership, is_owner}
use nexus_local.Store.{Store, Key, key_Eq, membership_key, found}
use nexus_local.Store.Select.{select}
use nexus_local.Store.Tenants.{
  by_user, get_tenant, get_user, list_memberships_for_tenant, delete_membership,
}
use nexus_local.Store.Listing.{In-select}
use nexus_local.Store.WellFormed.{IsWellFormed}
use nexus_local.App.Tenants.{
  TenantMemberSummary, TenantMemberResult, summarize_members, tenant_member_summaries, scan_members,
  removable, delete_tenant_member,
}

abbrev memberships_of : List TenantMemberSummary → List Membership
memberships_of = map (λ m. m.membership)

-- The memberships that were given, in their order.
record IsSummary (ms : List Membership) (s : Store) (r : Result (List TenantMemberSummary) × Store)
    : Type 0 where
  sums : List TenantMemberSummary
  outcome : r ≡ (ok sums, s)
  same : memberships_of sums ≡ ms

summarize_members-cases :
    (ms : List Membership) (s : Store)
    → IsSummary ms s (summarize_members none ms s)
      ⊎ ((e : Error) × (summarize_members none ms s ≡ (err e, s)))
unfolding summarize_members get_user
summarize_members-cases [] s = inl (record { sums = []; outcome = refl; same = refl })
summarize_members-cases (m ∷ ms) s = elim (Result-cases (found (Map.get s.users m.user_id))) [
  | inr (e, p) ↦ inr (e, rw p refl)
  | inl (user, p) ↦ elim (summarize_members-cases ms s) [
    | inr (e, q) ↦ inr (e, rw (p, q) refl)
    | inl more ↦ inl (record {
      sums = record { user = user; membership = m } ∷ more.sums;
      outcome = rw (p, more.outcome) refl;
      same = ap (λ xs. m ∷ xs) more.same;
    })
  ]
]

abbrev pub owns : Membership → Bool
owns m = is_owner m.role

scan_members-count :
    (user : UserId) (ms : List TenantMemberSummary) (removed : Option TenantMemberSummary) (n : ℕ)
    → (scan_members user ms removed n).1 ≡ n + count owns (memberships_of ms)
unfolding scan_members count
scan_members-count user [] removed n = omega arith
scan_members-count user (m ∷ ms) removed n =
    let next : Option TenantMemberSummary =
      if text_eq m.membership.user_id user then some m else removed in
    ground (arith, scan_members-count user ms next (n + 1), scan_members-count user ms next n)

-- Who is to go is one of the members, with the user id that was asked for.
scan_members-removed :
    (user : UserId) (ms : List TenantMemberSummary) (removed : Option TenantMemberSummary) (n : ℕ)
    (m : TenantMemberSummary)
    → (scan_members user ms removed n).0 ≡ some m
    → (removed ≡ some m) ⊎ (In m.membership (memberships_of ms) × (m.membership.user_id ≡ user))
unfolding scan_members
scan_members-removed user [] removed n m h = inl h
scan_members-removed user (x ∷ ms) removed n m h = elim (scan_members-removed user ms _ _ m h) [
  | inr found ↦ inr (inr found.0, found.1)
  | inl p ↦ elim (Bool-cases (text_eq x.membership.user_id user)) [
    | inr apart ↦ inl (rw apart at p)
    | inl same ↦
        let q : some x ≡ some m = rw same at p in
        inr (ground (arith, q), ground (arith, q, text_eq_iff x.membership.user_id user, same))
  ]
]

-- The tenant has a stored membership with the role of owner.
pub record HasOwner (tenant : TenantId) (s : Store) : Type 0 where
  pub membership : Membership
  pub in_tenant : membership.tenant_id ≡ tenant
  pub stored : Map.get s.memberships (membership_key membership) ≡ some membership
  pub owns : is_owner membership.role ≡ true

-- The list of a tenant's memberships, by user.
pub listing : TenantId → Store → List Membership
listing tenant s = select (λ m. text_eq m.tenant_id tenant) by_user s.memberships

count-listing :
    (tenant : TenantId) (s : Store)
    → count owns (listing tenant s)
      ≡ count (λ m. text_eq m.tenant_id tenant && owns m) (Map.values s.memberships)
unfolding listing select
count-listing tenant s =
    count-sort owns by_user (keep (λ m. text_eq m.tenant_id tenant) (Map.values s.memberships))
    ∙ count-keep owns (λ m. text_eq m.tenant_id tenant) (Map.values s.memberships)

get-remove_other :
    (m : Map Key Membership) (k : Key) (v : Membership)
    → Map.get m (membership_key v) ≡ some v
    → membership_key v ≢ k
    → Map.get (Map.remove m k) (membership_key v) ≡ some v
get-remove_other m k v h n =
    ground (arith, get-remove m k (membership_key v), key_Eq.same_iff k (membership_key v), h, n)

-- Where two owners are listed, one remains when any one user goes.
other_owner :
    (tenant : TenantId) (user : UserId) (s : Store)
    → IsWellFormed s
    → 2 ≤ count owns (listing tenant s)
    → HasOwner tenant (record s { memberships = Map.remove s.memberships (tenant, user) })
unfolding Map.values
other_owner tenant user s w c =
    let two : 2 ≤ count (λ m. text_eq m.tenant_id tenant && owns m) (Map.values s.memberships) =
      rw (count-listing tenant s) at c in
    let other =
      other_of_two membership_key (λ m. text_eq m.tenant_id tenant && owns m) (tenant, user)
        s.memberships.entries w.memberships.keyed two in
    record {
      membership = other.value;
      in_tenant = ground (arith, other.passes, text_eq_iff other.value.tenant_id tenant);
      stored =
          get-remove_other s.memberships (tenant, user) other.value
            ((In-values_iff membership_key s.memberships other.value w.memberships).0 other.inside)
            other.apart;
      owns = ground (arith, other.passes);
    }

-- How a call of DeleteTenantMember ends.
pub data IsMemberDeletion (tenant : TenantId) (user : UserId) (s : Store)
    (r : Result TenantMemberResult × Store) : Type 0 where
  refused : (e : Error) → r ≡ (err e, s) → IsMemberDeletion tenant user s r
  removed :
      (out : TenantMemberResult)
      → r ≡ (ok out, record s { memberships = Map.remove s.memberships (tenant, user) })
      → Map.get s.memberships (tenant, user) ≡ some out.summary.membership
      → (is_owner out.summary.membership.role ≡ false) ⊎ (2 ≤ count owns (listing tenant s))
      → IsMemberDeletion tenant user s r

removable-ok :
    (o : Option TenantMemberSummary) (n : ℕ) (m : TenantMemberSummary)
    → removable o n ≡ ok m
    → (o ≡ some m) × ((is_owner m.membership.role ≡ false) ⊎ (2 ≤ n))
unfolding removable
removable-ok none n m h = cc (h)
removable-ok (some x) n m h = (ground (arith, h), ground (arith, h))

-- The member that the loop has found is stored under its key.
found_member :
    (tenant : TenantId) (user : UserId) (s : Store) (m : TenantMemberSummary)
    (sums : List TenantMemberSummary)
    → IsWellFormed s
    → memberships_of sums ≡ listing tenant s
    → (scan_members user sums none 0).0 ≡ some m
    → Map.get s.memberships (tenant, user) ≡ some m.membership
unfolding listing
found_member tenant user s m sums w same h = elim (scan_members-removed user sums none 0 m h) [
  | inl p ↦ cc (p)
  | inr (i, at_user) ↦
      let (stored, of_tenant) =
        (In-select membership_key (λ m. text_eq m.tenant_id tenant) by_user s.memberships
            m.membership w.memberships).0
          (rw same at i) in
      let key : ◌≡◌ {A = Key} (membership_key m.membership) (tenant, user) =
        ap₂ (λ t u. (t, u)) ((text_eq_iff m.membership.tenant_id tenant).0 of_tenant) at_user in
      rw key at stored
]

-- On a well-formed store and a live context, DeleteTenantMember either returns an error and leaves
-- the store as it was, or it returns the membership stored for that user in that tenant and removes
-- exactly that one, and then the membership was not an owner's or the tenant had at least two
-- owners.
pub delete_tenant_member-IsMemberDeletion :
    (tenant : TenantId) (user : UserId) (s : Store)
    → IsWellFormed s
    → IsMemberDeletion tenant user s (delete_tenant_member none tenant user s)
unfolding delete_tenant_member get_tenant tenant_member_summaries list_memberships_for_tenant
    listing delete_membership Map.remove
delete_tenant_member-IsMemberDeletion tenant user s w =
    elim (Result-cases (found (Map.get s.tenants tenant))) [
      | inr (e, p) ↦ refused e (rw p refl)
      | inl (there, p) ↦ elim (summarize_members-cases (listing tenant s) s) [
        | inr (e, q) ↦ refused e (rw (p, q) refl)
        | inl sum ↦
            let (at_last, owner_count) = scan_members user sum.sums none 0 in
            elim (Result-cases (removable at_last owner_count)) [
              | inr (e, r) ↦ refused e (rw (p, sum.outcome, r) refl)
              | inl (m, r) ↦
                  let (picked, guard) = removable-ok at_last owner_count m r in
                  let stored = found_member tenant user s m sum.sums w sum.same picked in
                  removed (record { tenant = there; summary = m })
                    (rw (p, sum.outcome, r, stored) refl) stored
                    (ground (arith, guard, scan_members-count user sum.sums none 0, sum.same))
            ]
      ]
    ]

-- A workspace that has an owner has one after any call of DeleteTenantMember on a well-formed store
-- and a live context, whatever the call returns.
pub delete_tenant_member-HasOwner :
    (tenant : TenantId) (user : UserId) (s : Store)
    → IsWellFormed s
    → HasOwner tenant s
    → HasOwner tenant (delete_tenant_member none tenant user s).1
delete_tenant_member-HasOwner tenant user s w o =
    elim (delete_tenant_member-IsMemberDeletion tenant user s w) [
      | refused e p ↦ rw p o
      | removed out p g (inr two) ↦ rw p (other_owner tenant user s w two)
      | removed out p g (inl plain) ↦ rw p (record {
        membership = o.membership;
        in_tenant = o.in_tenant;
        stored =
            get-remove_other s.memberships (tenant, user) o.membership o.stored
              λ q. ground (arith, rw q at o.stored, g, plain, o.owns);
        owns = o.owns;
      })
    ]
