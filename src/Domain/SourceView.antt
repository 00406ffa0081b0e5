-- ===== src/Domain/SourceView.antt =====
-- source_view.go: the saved filters over the sources of a workspace.
use nexus_local.Prelude.{
  ℕ, ◌≤◌, Bool, true, false, not, ◌||◌, ◌&&◌, ◌≡◌, arith, ltb, if◌then◌else◌, ◌⊎◌, inl, inr,
}
use nexus_local.Result.{Result, ok, err, invalid_entity, ◌>>=◌, ◌>>◌, reject_if, Result-cases}
use nexus_local.Text.{Text, text, text_eq, is_empty, trim_space, to_lower, byte_len}
use nexus_local.Text.Trim.{trim_space_idem}
use nexus_local.Clock.{Time, or_now}
use nexus_local.Domain.Ids.{SourceViewId, TenantId, UserId, empty_id}

-- The `Type` filter is kept as the string that the source converts.
pub record SourceViewFilters : Type 0 where
  pub health : Text
  pub query : Text
  pub schedule : Text
  pub type : Text

pub record SourceView : Type 0 where
  pub id : SourceViewId
  pub tenant_id : TenantId
  pub owner_id : UserId
  pub name : Text
  pub filters : SourceViewFilters
  pub created_at : Time
  pub updated_at : Time

pub record SourceViewCreate : Type 0 where
  pub id : SourceViewId
  pub tenant_id : TenantId
  pub owner_id : UserId
  pub name : Text
  pub filters : SourceViewFilters
  pub now : Time

abbrev pub max_source_view_name_length : ℕ
max_source_view_name_length = 80

abbrev pub max_source_view_query_length : ℕ
max_source_view_query_length = 160

unfoldable pub valid_source_view_health : Text → Bool
valid_source_view_health value =
    is_empty value
    || text_eq value (text "active")
    || text_eq value (text "blocked")
    || text_eq value (text "review")
    || text_eq value (text "healthy")
    || text_eq value (text "archived")

unfoldable pub valid_source_view_schedule : Text → Bool
valid_source_view_schedule value =
    is_empty value
    || text_eq value (text "manual")
    || text_eq value (text "scheduled")
    || text_eq value (text "overdue")

-- DataSourceType.Valid, on the string
unfoldable pub valid_type_name : Text → Bool
valid_type_name value =
    text_eq value (text "folder")
    || text_eq value (text "synced_folder")
    || text_eq value (text "network_share")
    || text_eq value (text "export")
    || text_eq value (text "connector")

-- The first argument is the case table of `unicode` beyond ASCII.
unfoldable pub normalize_source_view_filters :
    (ℕ → ℕ) → SourceViewFilters → Result SourceViewFilters
normalize_source_view_filters table filters =
    let health = to_lower table (trim_space filters.health) in
    let schedule = to_lower table (trim_space filters.schedule) in
    let query = trim_space filters.query in
    let type = trim_space filters.type in
    if not (valid_source_view_health health)
    then err invalid_entity
    else if not (valid_source_view_schedule schedule)
    then err invalid_entity
    else if ltb max_source_view_query_length (byte_len query)
    then err invalid_entity
    else if not (is_empty type) && not (valid_type_name type)
    then err invalid_entity
    else ok (record { health = health; query = query; schedule = schedule; type = type })

unfoldable pub new_source_view : (ℕ → ℕ) → Time → SourceViewCreate → Result SourceView
new_source_view table wall input = do
  filters ← normalize_source_view_filters table input.filters
  let name = trim_space input.name
  reject_if
      (empty_id input.id
        || empty_id input.tenant_id
        || empty_id input.owner_id
        || is_empty name
        || ltb max_source_view_name_length (byte_len name))
      invalid_entity
  ok (record {
    id = input.id;
    tenant_id = input.tenant_id;
    owner_id = input.owner_id;
    name = name;
    filters = filters;
    created_at = or_now wall input.now;
    updated_at = or_now wall input.now;
  })

-- SourceView.Update
unfoldable pub update :
    (ℕ → ℕ) → SourceView → Text → SourceViewFilters → Time → Time → Result SourceView
update table v name filters now wall = do
  normalized ← normalize_source_view_filters table filters
  let trimmed = trim_space name
  reject_if (is_empty trimmed || ltb max_source_view_name_length (byte_len trimmed)) invalid_entity
  ok (record v { name = trimmed; filters = normalized; updated_at = or_now wall now })

pub record IsValidFilters (f : SourceViewFilters) : Type 0 where
  pub health : valid_source_view_health f.health ≡ true
  pub schedule : valid_source_view_schedule f.schedule ≡ true
  pub query : byte_len f.query ≤ max_source_view_query_length
  pub type : (is_empty f.type ≡ true) ⊎ (valid_type_name f.type ≡ true)

pub record IsValid (v : SourceView) : Type 0 where
  pub named : is_empty v.name ≡ false
  pub short : byte_len v.name ≤ max_source_view_name_length
  pub trimmed : trim_space v.name ≡ v.name
  pub filters : IsValidFilters v.filters

normalize-IsValidFilters :
    (table : ℕ → ℕ) (f g : SourceViewFilters)
    → normalize_source_view_filters table f ≡ ok g
    → IsValidFilters g
unfolding normalize_source_view_filters
normalize-IsValidFilters table f g h = record {
  health = ground (arith, h);
  schedule = ground (arith, h);
  query = ground (arith, h);
  type = ground (arith, h);
}

-- What NewSourceView and Update return has a trimmed name of 1 to 80 bytes and filters that are
-- among the declared values, with a query of at most 160 bytes.
pub writers-IsValid :
    (table : ℕ → ℕ) (wall : Time) (input : SourceViewCreate) (v w : SourceView)
    → (new_source_view table wall input ≡ ok w)
      ⊎ (update table v input.name input.filters input.now wall ≡ ok w)
    → IsValid w
unfolding new_source_view update
writers-IsValid table wall input v w h =
    elim (Result-cases (normalize_source_view_filters table input.filters)) [
      | inr (e, p) ↦ absurd (ground (arith, h, p))
      | inl (f, p) ↦ record {
        named = ground (arith, h, p);
        short = ground (arith, h, p);
        trimmed = ground (arith, h, p, trim_space_idem input.name);
        filters =
            let same : w.filters ≡ f = ground (arith, h, p) in
            rw same (normalize-IsValidFilters table input.filters f p);
      }
    ]
