-- ===== src/Keys/Db.antt =====
-- lib/src/key/db.rs: a database definition.
use surreal_dbservice.Base.{String, List, [], ◌∷◌, ◌++◌}
use surreal_dbservice.Kvs.Engine.{Key}
use surreal_dbservice.Keys.{Storekey, Field, byte, str, encode}
use surreal_dbservice.Keys.Namespace

module _ (K : Storekey) where
  -- the fields of `Db`, in order
  abbrev pub new : String → String → List (Field K)
  new ns db = byte 0x2f ∷ byte 0x2a ∷ str ns ∷ byte 0x21 ∷ byte 0x64 ∷ byte 0x62 ∷ str db ∷ []

  unfoldable pub prefix : String → Key
  prefix ns = encode (Namespace.new K ns) ++ 0x21 ∷ 0x64 ∷ 0x62 ∷ 0x00 ∷ []

  unfoldable pub suffix : String → Key
  suffix ns = encode (Namespace.new K ns) ++ 0x21 ∷ 0x64 ∷ 0x62 ∷ 0xff ∷ []
