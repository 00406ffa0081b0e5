-- ===== src/Providers/Router.antt =====
-- providers/model_router.go: which provider answers a request for a model.
use nexus_local.Prelude.{ℕ, List, [], ◌∷◌, not, Option, none, some, is_some, if◌then◌else◌}
use nexus_local.Result.{Result, ok, err, unknown_target, empty_target, ◌>>=◌, ◌>>◌, reject_if}
use nexus_local.Action.{Context}
use nexus_local.Text.{Text, text_Eq, is_empty, trim_space, to_lower, text_ltb}
use nexus_local.Map
use nexus_local.Map.{Map}
use nexus_local.Sort.{sort}
use nexus_local.Auth.{or_default}

pub record TargetConfig : Type 0 where
  pub name : Text
  pub provider : Text
  pub base_url : Text
  pub model : Text

-- The fields of ModelRequest that the router reads.
pub record ModelRequest : Type 0 where
  pub target : Text

pub record ModelRoute : Type 0 where
  pub target : Text
  pub provider : Text
  pub base_url : Text
  pub model : Text

pub record ModelRouter : Type 0 where
  pub targets : Map Text TargetConfig
  pub default_target : Text

-- The case table of `unicode` beyond ASCII.
module _ (table : ℕ → ℕ) where
  unfoldable pub normalize_target : Text → Text
  normalize_target name = to_lower table (trim_space name)

  -- The loop of NewModelRouter
  unfoldable pub by_name :
      List TargetConfig → Map Text TargetConfig → Result (Map Text TargetConfig)
  by_name [] targets = ok targets
  by_name (t ∷ rest) targets =
      let name = normalize_target t.name in
      let more = by_name rest (Map.put targets name (record t { name = name })) in
      if is_empty name then err empty_target else more

  unfoldable pub new_model_router : List TargetConfig → Text → Result ModelRouter
  unfolding by_name
  new_model_router configs default_target = do
    targets ← by_name configs Map.empty
    let name = normalize_target default_target
    reject_if (is_empty name) empty_target
    reject_if (not (is_some (Map.get targets name))) unknown_target
    ok (record { targets = targets; default_target = name })

  unfoldable pub route_of : Option TargetConfig → Result ModelRoute
  route_of none = err unknown_target
  route_of (some t) =
      ok (record { target = t.name; provider = t.provider; base_url = t.base_url; model = t.model })

  unfoldable pub route : ModelRouter → Context → ModelRequest → Result ModelRoute
  unfolding normalize_target route_of
  route r (some e) request = err e
  route r none request =
      route_of (Map.get r.targets (or_default (normalize_target request.target) r.default_target))

unfoldable pub targets : ModelRouter → List TargetConfig
targets r = sort (λ a b. text_ltb a.name b.name) (Map.values r.targets)
