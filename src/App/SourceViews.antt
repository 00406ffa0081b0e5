-- ===== src/App/SourceViews.antt =====
-- internal/app/source_views.go and source_policy_profiles.go: saved views and policies of sources. The
-- identifier that the generator returns and the time that the clock returns are arguments.
use nexus_local.Prelude.{ℕ, List, leb, length}
use nexus_local.Result.{invalid_entity, invalid_state_transition, reject_if}
use nexus_local.Action.{Action, Context, live, lift, pure, ◌>>=◌}
use nexus_local.Text.{Text}
use nexus_local.Clock.{Time}
use nexus_local.Domain.Ids.{TenantId, SourceViewId, SourcePolicyProfileId, empty_id}
use nexus_local.Domain.SourceView.{SourceView, SourceViewFilters, SourceViewCreate, new_source_view}
use nexus_local.Domain.SourceView
use nexus_local.Domain.PolicyProfile.{
  SourcePolicyProfile, SourcePolicyProfileCreate, new_source_policy_profile,
}
use nexus_local.Domain.PolicyProfile
use nexus_local.Store.{Store}
use nexus_local.Store.Sources.{
  save_source_view, get_source_view, list_source_views, delete_source_view,
  save_source_policy_profile, get_source_policy_profile, list_source_policy_profiles,
  delete_source_policy_profile,
}

abbrev pub max_source_views_per_tenant : ℕ
max_source_views_per_tenant = 50

abbrev pub max_source_policy_profiles_per_tenant : ℕ
max_source_policy_profiles_per_tenant = 50

-- The case table of `unicode` beyond ASCII, and what `time.Now` returns.
module _ (table : ℕ → ℕ) (wall : Time) where
  unfoldable pub list_views : Context → TenantId → Action Store (List SourceView)
  list_views ctx tenant =
      live ctx
        do _ ← lift (reject_if (empty_id tenant) invalid_entity); list_source_views table ctx tenant

  -- The argument has the fields of CreateSourceViewInput, the new identifier and the time.
  unfoldable pub create_view : Context → SourceViewCreate → Action Store SourceView
  create_view ctx input = live ctx do
    views ← list_source_views table ctx input.tenant_id
    _ ← lift (reject_if (leb max_source_views_per_tenant (length views)) invalid_state_transition)
    view ← lift (new_source_view table wall input)
    _ ← save_source_view ctx view
    pure view

  unfoldable pub update_view :
      Context → TenantId → SourceViewId → Text → SourceViewFilters → Time → Action Store SourceView
  update_view ctx tenant id name filters now = live ctx do
    view ← get_source_view ctx tenant id
    changed ← lift (SourceView.update table view name filters now wall)
    _ ← save_source_view ctx changed
    pure changed

  unfoldable pub delete_view : Context → TenantId → SourceViewId → Action Store (Unit {0})
  delete_view ctx tenant id = live ctx (delete_source_view ctx tenant id)

  unfoldable pub list_profiles : Context → TenantId → Action Store (List SourcePolicyProfile)
  list_profiles ctx tenant = live ctx do
    _ ← lift (reject_if (empty_id tenant) invalid_entity)
    list_source_policy_profiles table ctx tenant

  -- The argument has the fields of CreateSourcePolicyProfileInput, the new identifier and the time.
  unfoldable pub create_profile :
      Context → SourcePolicyProfileCreate → Action Store SourcePolicyProfile
  create_profile ctx input = live ctx do
    profiles ← list_source_policy_profiles table ctx input.tenant_id
    _ ← lift (
        reject_if (leb max_source_policy_profiles_per_tenant (length profiles))
          invalid_state_transition)
    profile ← lift (new_source_policy_profile wall input)
    _ ← save_source_policy_profile ctx profile
    pure profile

  -- The argument has the fields of UpdateSourcePolicyProfileInput and the time.
  unfoldable pub update_profile :
      Context → SourcePolicyProfileCreate → Action Store SourcePolicyProfile
  update_profile ctx input = live ctx do
    profile ← get_source_policy_profile ctx input.tenant_id input.id
    changed ← lift (PolicyProfile.update profile input wall)
    _ ← save_source_policy_profile ctx changed
    pure changed

  unfoldable pub delete_profile :
      Context → TenantId → SourcePolicyProfileId → Action Store (Unit {0})
  delete_profile ctx tenant id = live ctx (delete_source_policy_profile ctx tenant id)
