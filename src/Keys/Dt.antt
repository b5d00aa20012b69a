-- ===== src/Keys/Dt.antt =====
-- lib/src/key/dt.rs: a token of a database.
use surreal_dbservice.Base.{String, List, [], ◌∷◌, ◌++◌}
use surreal_dbservice.Kvs.Engine.{Key}
use surreal_dbservice.Keys.{Storekey, Field, byte, str, encode}
use surreal_dbservice.Keys.Database

module _ (K : Storekey) where
  -- the fields of `Dt`, in order
  abbrev pub new : String → String → String → List (Field K)
  new ns db tk =
      byte 0x2f
      ∷ byte 0x2a
      ∷ str ns
      ∷ byte 0x2a
      ∷ str db
      ∷ byte 0x21
      ∷ byte 0x64
      ∷ byte 0x74
      ∷ str tk
      ∷ []

  unfoldable pub prefix : String → String → Key
  prefix ns db = encode (Database.new K ns db) ++ 0x21 ∷ 0x64 ∷ 0x74 ∷ 0x00 ∷ []

  unfoldable pub suffix : String → String → Key
  suffix ns db = encode (Database.new K ns db) ++ 0x21 ∷ 0x64 ∷ 0x74 ∷ 0xff ∷ []
