-- ===== src/Keys/Dl.antt =====
-- lib/src/key/dl.rs: a login of a database.
use surreal_dbservice.Base.{String, List, [], ◌∷◌, ◌++◌}
use surreal_dbservice.Kvs.Engine.{Key}
use surreal_dbservice.Keys.{Storekey, Field, byte, str, encode}
use surreal_dbservice.Keys.Database

module _ (K : Storekey) where
  -- the fields of `Dl`, in order
  abbrev pub new : String → String → String → List (Field K)
  new ns db dl =
      byte 0x2f
      ∷ byte 0x2a
      ∷ str ns
      ∷ byte 0x2a
      ∷ str db
      ∷ byte 0x21
      ∷ byte 0x64
      ∷ byte 0x6c
      ∷ str dl
      ∷ []

  unfoldable pub prefix : String → String → Key
  prefix ns db = encode (Database.new K ns db) ++ 0x21 ∷ 0x64 ∷ 0x6c ∷ 0x00 ∷ []

  unfoldable pub suffix : String → String → Key
  suffix ns db = encode (Database.new K ns db) ++ 0x21 ∷ 0x64 ∷ 0x6c ∷ 0xff ∷ []
