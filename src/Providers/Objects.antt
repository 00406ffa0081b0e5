-- ===== src/Providers/Objects.antt =====
-- providers/objectstore/memory/store.go: objects in a map, under keys that begin with their tenant.
pub mod Scope
use nexus_local.Prelude.{
  ℕ, List, Bool, not, ◌||◌, ◌++◌, ◌≡◌, Option, none, some, length, ℤ, pos, if◌then◌else◌,
}
use nexus_local.Result.{Result, ok, err, other_error, reject_if}
use nexus_local.Action.{Action, Context, live, lift, ◌>>=◌, ◌>>◌, continue}
use nexus_local.Text.{Text, text, text_Eq, is_empty, has_prefix}
use nexus_local.Clock.{Time}
use nexus_local.Map
use nexus_local.Map.{Map}
use nexus_local.Domain.Ids.{TenantId}
use nexus_local.Providers.{Bytes, ObjectPut, ObjectInfo, ObjectStore}

pub record Object : Type 0 where
  pub content : Bytes
  pub content_type : Text
  pub size_bytes : ℤ
  pub updated_at : Time

abbrev pub Objects : Type 0
Objects = Map Text Object

unfoldable pub tenant_prefix : TenantId → Text
tenant_prefix tenant = text "tenants/" ++ (tenant ++ text "/")

unfoldable pub validate_tenant_key : TenantId → Text → Result (Unit {0})
unfolding tenant_prefix
validate_tenant_key tenant key =
    reject_if (is_empty tenant || is_empty key || not (has_prefix key (tenant_prefix tenant)))
      other_error

-- `if contentType == "" { contentType = "application/octet-stream" }`
abbrev pub content_type_or_default : Text → Text
content_type_or_default t = if is_empty t then text "application/octet-stream" else t

unfoldable pub info_of : Text → Object → ObjectInfo
info_of key o = record {
  key = key;
  content_type = o.content_type;
  size_bytes = o.size_bytes;
  updated_at = o.updated_at;
}

-- The object that PutObject stores.
unfoldable pub object_of : Time → ObjectPut → Bytes → Object
object_of wall input content = record {
  content = content;
  content_type = content_type_or_default input.content_type;
  size_bytes = pos (length content);
  updated_at = wall;
}

unfoldable pub put_object : Time → Context → ObjectPut → Action Objects ObjectInfo
put_object wall ctx input = live ctx do
  _ ← lift (validate_tenant_key input.tenant_id input.key)
  content ← lift input.body
  λ s. (
    ok (info_of input.key (object_of wall input content)),
    Map.put s input.key (object_of wall input content),
  )

unfoldable pub loaded : Text → Option Object → Result (Bytes × ObjectInfo)
unfolding info_of
loaded key none = err other_error
loaded key (some o) = ok (o.content, info_of key o)

unfoldable pub get_object : Context → TenantId → Text → Action Objects (Bytes × ObjectInfo)
get_object ctx tenant key =
    live ctx do _ ← lift (validate_tenant_key tenant key); λ s. (loaded key (Map.get s key), s)

unfoldable pub delete_object : Context → TenantId → Text → Action Objects (Unit {0})
delete_object ctx tenant key =
    live ctx do _ ← lift (validate_tenant_key tenant key); λ s. (ok tt, Map.remove s key)

-- The memory store as an object store.
unfoldable pub memory_objects : Time → ObjectStore Objects
memory_objects wall = record {
  put_object = put_object wall;
  get_object = get_object;
  delete_object = delete_object;
}
