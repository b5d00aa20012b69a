-- ===== src/Keys/ScopeTokens.antt =====
-- The tokens of a scope: lib/src/key/st.rs reads a range that starts from lib/src/key/sc.rs.
use surreal_dbservice.Base.{String, ◌≡◌, false, List, [], ◌∷◌}
use surreal_dbservice.Kvs.Order.{key_ltb}
use surreal_dbservice.Keys.{Storekey, Field, byte, str, encode}
use surreal_dbservice.Keys.Database
use surreal_dbservice.Keys.St
use surreal_dbservice.Keys.Ranges.{StartLaws, ltb-common, joined}

module _ (K : Storekey) where
  -- what follows the key of the database
  abbrev token : String → String → List (Field K)
  token sc tk =
      byte 0x21 ∷ byte 0x73 ∷ byte 0x74 ∷ str sc ∷ byte 0x21 ∷ byte 0x74 ∷ byte 0x6b ∷ str tk ∷ []

  abbrev scope : String → List (Field K)
  scope sc = byte 0x21 ∷ byte 0x73 ∷ byte 0x63 ∷ str sc ∷ []

  -- Encoded as storekey documents, no token of a scope lies within any range that is read to list the tokens of a scope of the same
  -- database: its key stands behind the end of the range.
  pub scope_token_behind_range :
      (L : StartLaws K) (ns db sc tk other : String)
      → key_ltb (encode (St.new K ns db sc tk)) (St.suffix K ns db other) ≡ false
  unfolding St.suffix joined key_ltb
  scope_token_behind_range L ns db sc tk other =
      ltb-common L (Database.new K ns db) (token sc tk) (scope other)
        (0x21 ∷ 0x74 ∷ 0x6b ∷ 0xff ∷ [])
