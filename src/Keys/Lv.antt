-- ===== src/Keys/Lv.antt =====
-- lib/src/key/lv.rs: a live query of a table.
use surreal_dbservice.Base.{String, List, [], ◌∷◌, ◌++◌}
use surreal_dbservice.Kvs.Engine.{Key}
use surreal_dbservice.Keys.{Storekey, Field, byte, str, uuid_field, encode}
use surreal_dbservice.Keys.Table

module _ (K : Storekey) where
  -- the fields of `Lv`, in order
  abbrev pub new : String → String → String → K.Uuid → List (Field K)
  new ns db tb lv =
      byte 0x2f
      ∷ byte 0x2a
      ∷ str ns
      ∷ byte 0x2a
      ∷ str db
      ∷ byte 0x2a
      ∷ str tb
      ∷ byte 0x21
      ∷ byte 0x6c
      ∷ byte 0x76
      ∷ uuid_field lv
      ∷ []

  unfoldable pub prefix : String → String → String → Key
  prefix ns db tb = encode (Table.new K ns db tb) ++ 0x21 ∷ 0x6c ∷ 0x76 ∷ 0x00 ∷ []

  unfoldable pub suffix : String → String → String → Key
  suffix ns db tb = encode (Table.new K ns db tb) ++ 0x21 ∷ 0x6c ∷ 0x76 ∷ 0xff ∷ []
