-- ===== src/Keys/Ns.antt =====
-- lib/src/key/ns.rs: a namespace definition.
use surreal_dbservice.Base.{String, List, [], ◌∷◌, ◌++◌}
use surreal_dbservice.Kvs.Engine.{Key}
use surreal_dbservice.Keys.{Storekey, Field, byte, str, encode}
use surreal_dbservice.Keys.Kv

module _ (K : Storekey) where
  -- the fields of `Ns`, in order
  abbrev pub new : String → List (Field K)
  new ns = byte 0x2f ∷ byte 0x21 ∷ byte 0x6e ∷ byte 0x73 ∷ str ns ∷ []

  unfoldable pub prefix : Key
  prefix = encode (Kv.new K) ++ 0x21 ∷ 0x6e ∷ 0x73 ∷ 0x00 ∷ []

  unfoldable pub suffix : Key
  suffix = encode (Kv.new K) ++ 0x21 ∷ 0x6e ∷ 0x73 ∷ 0xff ∷ []
