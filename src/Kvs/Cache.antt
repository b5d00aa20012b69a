-- ===== src/Kvs/Cache.antt =====
-- lib/src/kvs/cache.rs: the definitions that a transaction has read. The statement types are those of
-- lib/src/sql/statements/define.rs and live.rs, which the store keeps encoded: `Catalog` names them.
use surreal_dbservice.Base.{
  ◌≡◌, refl, Bool, true, false, ◌&&◌, Option, none, some, List, [], ◌∷◌, arith, ◌==◌, is_some,
  if◌then◌else◌,
}
use surreal_dbservice.Kvs.Engine.{Key}

pub record Catalog : Type 1 where
  pub Namespace : Type 0
  pub Database : Type 0
  pub Table : Type 0
  pub Login : Type 0
  pub Token : Type 0
  pub Scope : Type 0
  pub Event : Type 0
  pub Field : Type 0
  pub Index : Type 0
  pub Live : Type 0

pub data Entry (C : Catalog) : Type 0 where
  ns_entry : C.Namespace → Entry C
  db_entry : C.Database → Entry C
  tb_entry : C.Table → Entry C
  nss_entry : List C.Namespace → Entry C
  nls_entry dls_entry : List C.Login → Entry C
  nts_entry dts_entry sts_entry : List C.Token → Entry C
  dbs_entry : List C.Database → Entry C
  scs_entry : List C.Scope → Entry C
  tbs_entry fts_entry : List C.Table → Entry C
  evs_entry : List C.Event → Entry C
  fds_entry : List C.Field → Entry C
  ixs_entry : List C.Index → Entry C
  lvs_entry : List C.Live → Entry C

-- equality of keys, which are vectors of bytes
unfoldable pub key_eq : Key → Key → Bool
key_eq [] [] = true
key_eq (a ∷ k) (b ∷ l) = a == b && key_eq k l
key_eq _ _ = false

pub key_eq_sound : (k l : Key) → key_eq k l ≡ true → k ≡ l
unfolding key_eq
key_eq_sound [] [] h = refl
key_eq_sound [] (b ∷ l) h = ground arith
key_eq_sound (a ∷ k) [] h = ground arith
key_eq_sound (a ∷ k) (b ∷ l) h = ground (arith, key_eq_sound k l)

pub key_eq_refl : (k : Key) → key_eq k k ≡ true
unfolding key_eq
key_eq_refl [] = refl
key_eq_refl (a ∷ k) = ground (arith, key_eq_refl k)

abbrev pub Cache : Catalog → Type 0
Cache C = List (Key × Entry C)

module _ {C : Catalog} where
  unfoldable pub get : Key → Cache C → Option (Entry C)
  get k [] = none
  get k ((j, e) ∷ c) = if key_eq j k then some e else get k c

  unfoldable pub exi : Key → Cache C → Bool
  exi k c = is_some (get k c)

  unfoldable pub set : Key → Entry C → Cache C → Cache C
  set k e [] = (k, e) ∷ []
  set k e ((j, f) ∷ c) = if key_eq j k then (k, e) ∷ c else (j, f) ∷ set k e c

  pub get-set_self : (k : Key) (e : Entry C) (c : Cache C) → get k (set k e c) ≡ some e
  unfolding get set
  get-set_self k e [] = ground (arith, key_eq_refl k)
  get-set_self k e ((j, f) ∷ c) = ground (arith, key_eq_refl k, get-set_self k e c)
