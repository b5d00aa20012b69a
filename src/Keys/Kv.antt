-- ===== src/Keys/Kv.antt =====
-- lib/src/key/kv.rs: the root of the keys.
use surreal_dbservice.Base.{List, [], ◌∷◌}
use surreal_dbservice.Keys.{Storekey, Field, byte}

module _ (K : Storekey) where
  -- the fields of `Kv`, in order
  abbrev pub new : List (Field K)
  new = byte 0x2f ∷ []
