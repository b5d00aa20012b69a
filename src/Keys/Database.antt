-- ===== src/Keys/Database.antt =====
-- lib/src/key/database.rs: the keys of a database.
use surreal_dbservice.Base.{String, List, [], ◌∷◌}
use surreal_dbservice.Keys.{Storekey, Field, byte, str}

module _ (K : Storekey) where
  -- the fields of `Database`, in order
  abbrev pub new : String → String → List (Field K)
  new ns db = byte 0x2f ∷ byte 0x2a ∷ str ns ∷ byte 0x2a ∷ str db ∷ []
