-- ===== src/Keys/Nt.antt =====
-- lib/src/key/nt.rs: a token of a namespace.
use surreal_dbservice.Base.{String, List, [], ◌∷◌, ◌++◌}
use surreal_dbservice.Kvs.Engine.{Key}
use surreal_dbservice.Keys.{Storekey, Field, byte, str, encode}
use surreal_dbservice.Keys.Namespace

module _ (K : Storekey) where
  -- the fields of `Nt`, in order
  abbrev pub new : String → String → List (Field K)
  new ns tk = byte 0x2f ∷ byte 0x2a ∷ str ns ∷ byte 0x21 ∷ byte 0x6e ∷ byte 0x74 ∷ str tk ∷ []

  unfoldable pub prefix : String → Key
  prefix ns = encode (Namespace.new K ns) ++ 0x21 ∷ 0x6e ∷ 0x74 ∷ 0x00 ∷ []

  unfoldable pub suffix : String → Key
  suffix ns = encode (Namespace.new K ns) ++ 0x21 ∷ 0x6e ∷ 0x74 ∷ 0xff ∷ []
