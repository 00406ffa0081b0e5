-- ===== src/Providers.antt =====
-- internal/providers/contracts.go: the interfaces of the services that the program calls. An
-- implementation is a record of functions over a state of its own. A byte is a number below 256, and
-- a float32 is the number that its bits spell.
pub mod Objects
pub mod Vectors
pub mod Router
use nexus_local.Prelude.{ℕ, List, ℤ}
use nexus_local.Result.{Result}
use nexus_local.Action.{Action, Context}
use nexus_local.Text.{Text}
use nexus_local.Clock.{Time}
use nexus_local.Map.{Map}
use nexus_local.Domain.Ids.{TenantId, DocumentId}

abbrev pub Bytes : Type 0
Bytes = List ℕ

abbrev pub Float : Type 0
Float = ℕ

-- `Body` is what its reader yields.
pub record ObjectPut : Type 0 where
  pub tenant_id : TenantId
  pub key : Text
  pub body : Result Bytes
  pub content_type : Text
  pub size_bytes : ℤ

pub record ObjectInfo : Type 0 where
  pub key : Text
  pub content_type : Text
  pub size_bytes : ℤ
  pub updated_at : Time

-- PresignURL, which no part of the model calls, is left out.
pub record ObjectStore (O : Type 0) : Type 0 where
  pub put_object : Context → ObjectPut → Action O ObjectInfo
  pub get_object : Context → TenantId → Text → Action O (Bytes × ObjectInfo)
  pub delete_object : Context → TenantId → Text → Action O (Unit {0})

pub record Vector : Type 0 where
  pub tenant_id : TenantId
  pub document_id : DocumentId
  pub chunk_id : Text
  pub values : List Float
  pub text : Text
  pub metadata : Map Text Text

pub record VectorSearch : Type 0 where
  pub tenant_id : TenantId
  pub document_id : DocumentId
  pub query : List Float
  pub limit : ℤ
  pub filters : Map Text Text

pub record VectorHit : Type 0 where
  pub document_id : DocumentId
  pub chunk_id : Text
  pub text : Text
  pub score : Float
  pub metadata : Map Text Text

pub record VectorIndex (V : Type 0) : Type 0 where
  pub upsert : Context → List Vector → Action V (Unit {0})
  pub search : Context → VectorSearch → Action V (List VectorHit)
  pub delete_document : Context → TenantId → DocumentId → Action V (Unit {0})

-- The vectors of a list of texts.
abbrev pub Embedder : Type 0
Embedder = Context → List Text → Result (List (List Float))
