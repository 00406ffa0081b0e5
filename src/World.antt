-- ===== src/World.antt =====
-- What the services and the workers change: the repositories, the object store and the vector index.
use nexus_local.Action.{Action}
use nexus_local.Store.{Store}

pub record World (O V : Type 0) : Type 0 where
  pub store : Store
  pub objects : O
  pub vectors : V

-- A call of one of the parts.
module _ {O V A : Type 0} where
  abbrev pub in_store : Action Store A → Action (World O V) A
  in_store m w = let (r, s) = m w.store in (r, record w { store = s })

  abbrev pub in_objects : Action O A → Action (World O V) A
  in_objects m w = let (r, o) = m w.objects in (r, record w { objects = o })

  abbrev pub in_vectors : Action V A → Action (World O V) A
  in_vectors m w = let (r, v) = m w.vectors in (r, record w { vectors = v })
