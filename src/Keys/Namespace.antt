-- ===== src/Keys/Namespace.antt =====
-- lib/src/key/namespace.rs: the keys of a namespace.
use surreal_dbservice.Base.{String, List, [], ◌∷◌}
use surreal_dbservice.Keys.{Storekey, Field, byte, str}

module _ (K : Storekey) where
  -- the fields of `Namespace`, in order
  abbrev pub new : String → List (Field K)
  new ns = byte 0x2f ∷ byte 0x2a ∷ str ns ∷ []
