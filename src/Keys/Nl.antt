-- ===== src/Keys/Nl.antt =====
-- lib/src/key/nl.rs: a login of a namespace.
use surreal_dbservice.Base.{String, List, [], ◌∷◌, ◌++◌}
use surreal_dbservice.Kvs.Engine.{Key}
use surreal_dbservice.Keys.{Storekey, Field, byte, str, encode}
use surreal_dbservice.Keys.Namespace

module _ (K : Storekey) where
  -- the fields of `Nl`, in order
  abbrev pub new : String → String → List (Field K)
  new ns us = byte 0x2f ∷ byte 0x2a ∷ str ns ∷ byte 0x21 ∷ byte 0x6e ∷ byte 0x6c ∷ str us ∷ []

  unfoldable pub prefix : String → Key
  prefix ns = encode (Namespace.new K ns) ++ 0x21 ∷ 0x6e ∷ 0x6c ∷ 0x00 ∷ []

  unfoldable pub suffix : String → Key
  suffix ns = encode (Namespace.new K ns) ++ 0x21 ∷ 0x6e ∷ 0x6c ∷ 0xff ∷ []
