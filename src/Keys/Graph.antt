-- ===== src/Keys/Graph.antt =====
-- lib/src/key/graph.rs: an edge of a record, `ft` and `fk` the record at its other end.
use surreal_dbservice.Base.{String, List, [], ◌∷◌, ◌++◌}
use surreal_dbservice.Kvs.Engine.{Key}
use surreal_dbservice.Keys.{Storekey, Field, byte, str, id_field, dir_field, encode}

module _ (K : Storekey) where
  -- the fields of `Graph`, in order
  abbrev pub new :
      String → String → String → K.RecordId → K.Dir → String → K.RecordId → List (Field K)
  new ns db tb id eg ft fk =
      byte 0x2f
      ∷ byte 0x2a
      ∷ str ns
      ∷ byte 0x2a
      ∷ str db
      ∷ byte 0x2a
      ∷ str tb
      ∷ byte 0x7e
      ∷ id_field id
      ∷ dir_field eg
      ∷ str ft
      ∷ id_field fk
      ∷ []

  -- the fields of the private `Prefix`, `PrefixEg` and `PrefixFt`
  abbrev pub new_prefix : String → String → String → K.RecordId → List (Field K)
  new_prefix ns db tb id =
      byte 0x2f
      ∷ byte 0x2a
      ∷ str ns
      ∷ byte 0x2a
      ∷ str db
      ∷ byte 0x2a
      ∷ str tb
      ∷ byte 0x7e
      ∷ id_field id
      ∷ []

  abbrev pub new_egprefix : String → String → String → K.RecordId → K.Dir → List (Field K)
  new_egprefix ns db tb id eg =
      byte 0x2f
      ∷ byte 0x2a
      ∷ str ns
      ∷ byte 0x2a
      ∷ str db
      ∷ byte 0x2a
      ∷ str tb
      ∷ byte 0x7e
      ∷ id_field id
      ∷ dir_field eg
      ∷ []

  abbrev pub new_ftprefix : String → String → String → K.RecordId → K.Dir → String → List (Field K)
  new_ftprefix ns db tb id eg ft =
      byte 0x2f
      ∷ byte 0x2a
      ∷ str ns
      ∷ byte 0x2a
      ∷ str db
      ∷ byte 0x2a
      ∷ str tb
      ∷ byte 0x7e
      ∷ id_field id
      ∷ dir_field eg
      ∷ str ft
      ∷ []

  unfoldable pub prefix : String → String → String → K.RecordId → Key
  prefix ns db tb id = encode (new_prefix ns db tb id) ++ 0x00 ∷ []

  unfoldable pub suffix : String → String → String → K.RecordId → Key
  suffix ns db tb id = encode (new_prefix ns db tb id) ++ 0xff ∷ []

  unfoldable pub egprefix : String → String → String → K.RecordId → K.Dir → Key
  egprefix ns db tb id eg = encode (new_egprefix ns db tb id eg) ++ 0x00 ∷ []

  unfoldable pub egsuffix : String → String → String → K.RecordId → K.Dir → Key
  egsuffix ns db tb id eg = encode (new_egprefix ns db tb id eg) ++ 0xff ∷ []

  unfoldable pub ftprefix : String → String → String → K.RecordId → K.Dir → String → Key
  ftprefix ns db tb id eg ft = encode (new_ftprefix ns db tb id eg ft) ++ 0x00 ∷ []

  unfoldable pub ftsuffix : String → String → String → K.RecordId → K.Dir → String → Key
  ftsuffix ns db tb id eg ft = encode (new_ftprefix ns db tb id eg ft) ++ 0xff ∷ []
