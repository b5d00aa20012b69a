-- ===== src/Keys/Index.antt =====
-- lib/src/key/index.rs: an entry of an index.
use surreal_dbservice.Base.{String, List, [], ◌∷◌, ◌++◌, Option}
use surreal_dbservice.Kvs.Engine.{Key}
use surreal_dbservice.Keys.{Storekey, Field, byte, str, array_field, opt_id_field, encode}

module _ (K : Storekey) where
  -- the fields of `Index`, in order
  abbrev pub new : String → String → String → String → K.Array → Option K.RecordId → List (Field K)
  new ns db tb ix fd id =
      byte 0x2f
      ∷ byte 0x2a
      ∷ str ns
      ∷ byte 0x2a
      ∷ str db
      ∷ byte 0x2a
      ∷ str tb
      ∷ byte 0xa4
      ∷ str ix
      ∷ array_field fd
      ∷ opt_id_field id
      ∷ []

  -- the fields of the private `Prefix`
  abbrev pub new_prefix : String → String → String → String → List (Field K)
  new_prefix ns db tb ix =
      byte 0x2f
      ∷ byte 0x2a
      ∷ str ns
      ∷ byte 0x2a
      ∷ str db
      ∷ byte 0x2a
      ∷ str tb
      ∷ byte 0xa4
      ∷ str ix
      ∷ []

  unfoldable pub prefix : String → String → String → String → Key
  prefix ns db tb ix = encode (new_prefix ns db tb ix) ++ 0x00 ∷ []

  unfoldable pub suffix : String → String → String → String → Key
  suffix ns db tb ix = encode (new_prefix ns db tb ix) ++ 0xff ∷ []
