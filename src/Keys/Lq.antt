-- ===== src/Keys/Lq.antt =====
-- lib/src/key/lq.rs: a live query of a database.
use surreal_dbservice.Base.{String, List, [], ◌∷◌}
use surreal_dbservice.Keys.{Storekey, Field, byte, str, uuid_field}

module _ (K : Storekey) where
  -- the fields of `Lq`, in order
  abbrev pub new : String → String → K.Uuid → List (Field K)
  new ns db lq =
      byte 0x2f
      ∷ byte 0x2a
      ∷ str ns
      ∷ byte 0x2a
      ∷ str db
      ∷ byte 0x21
      ∷ byte 0x6c
      ∷ byte 0x71
      ∷ uuid_field lq
      ∷ []
