-- ===== src/Keys/Fd.antt =====
-- lib/src/key/fd.rs: a field of a table.
use surreal_dbservice.Base.{String, List, [], ◌∷◌, ◌++◌}
use surreal_dbservice.Kvs.Engine.{Key}
use surreal_dbservice.Keys.{Storekey, Field, byte, str, encode}
use surreal_dbservice.Keys.Table

module _ (K : Storekey) where
  -- the fields of `Fd`, in order
  abbrev pub new : String → String → String → String → List (Field K)
  new ns db tb fd =
      byte 0x2f
      ∷ byte 0x2a
      ∷ str ns
      ∷ byte 0x2a
      ∷ str db
      ∷ byte 0x2a
      ∷ str tb
      ∷ byte 0x21
      ∷ byte 0x66
      ∷ byte 0x64
      ∷ str fd
      ∷ []

  unfoldable pub prefix : String → String → String → Key
  prefix ns db tb = encode (Table.new K ns db tb) ++ 0x21 ∷ 0x66 ∷ 0x64 ∷ 0x00 ∷ []

  unfoldable pub suffix : String → String → String → Key
  suffix ns db tb = encode (Table.new K ns db tb) ++ 0x21 ∷ 0x66 ∷ 0x64 ∷ 0xff ∷ []
