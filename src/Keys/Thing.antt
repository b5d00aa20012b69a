-- ===== src/Keys/Thing.antt =====
-- lib/src/key/thing.rs: a record.
use surreal_dbservice.Base.{String, List, [], ◌∷◌, ◌++◌}
use surreal_dbservice.Kvs.Engine.{Key}
use surreal_dbservice.Keys.{Storekey, Field, byte, str, id_field, encode}
use surreal_dbservice.Keys.Table

module _ (K : Storekey) where
  -- the fields of `Thing`, in order
  abbrev pub new : String → String → String → K.RecordId → List (Field K)
  new ns db tb id =
      byte 0x2f
      ∷ byte 0x2a
      ∷ str ns
      ∷ byte 0x2a
      ∷ str db
      ∷ byte 0x2a
      ∷ str tb
      ∷ byte 0x2a
      ∷ id_field id
      ∷ []

  unfoldable pub prefix : String → String → String → Key
  prefix ns db tb = encode (Table.new K ns db tb) ++ 0x2a ∷ 0x00 ∷ []

  unfoldable pub suffix : String → String → String → Key
  suffix ns db tb = encode (Table.new K ns db tb) ++ 0x2a ∷ 0xff ∷ []
