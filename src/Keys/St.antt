-- ===== src/Keys/St.antt =====
-- lib/src/key/st.rs: a token of a scope. The range starts from the key of the scope, as in the source.
use surreal_dbservice.Base.{String, List, [], ◌∷◌, ◌++◌}
use surreal_dbservice.Kvs.Engine.{Key}
use surreal_dbservice.Keys.{Storekey, Field, byte, str, encode}
use surreal_dbservice.Keys.Sc

module _ (K : Storekey) where
  -- the fields of `St`, in order
  abbrev pub new : String → String → String → String → List (Field K)
  new ns db sc tk =
      byte 0x2f
      ∷ byte 0x2a
      ∷ str ns
      ∷ byte 0x2a
      ∷ str db
      ∷ byte 0x21
      ∷ byte 0x73
      ∷ byte 0x74
      ∷ str sc
      ∷ byte 0x21
      ∷ byte 0x74
      ∷ byte 0x6b
      ∷ str tk
      ∷ []

  unfoldable pub prefix : String → String → String → Key
  prefix ns db sc = encode (Sc.new K ns db sc) ++ 0x21 ∷ 0x74 ∷ 0x6b ∷ 0x00 ∷ []

  unfoldable pub suffix : String → String → String → Key
  suffix ns db sc = encode (Sc.new K ns db sc) ++ 0x21 ∷ 0x74 ∷ 0x6b ∷ 0xff ∷ []
