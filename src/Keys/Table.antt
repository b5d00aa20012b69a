-- ===== src/Keys/Table.antt =====
-- lib/src/key/table.rs: the keys of a table.
use surreal_dbservice.Base.{String, List, [], ◌∷◌}
use surreal_dbservice.Keys.{Storekey, Field, byte, str}

module _ (K : Storekey) where
  -- the fields of `Table`, in order
  abbrev pub new : String → String → String → List (Field K)
  new ns db tb = byte 0x2f ∷ byte 0x2a ∷ str ns ∷ byte 0x2a ∷ str db ∷ byte 0x2a ∷ str tb ∷ []
