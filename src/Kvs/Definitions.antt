-- ===== src/Kvs/Definitions.antt =====
-- lib/src/kvs/tx.rs: the definitions that a transaction reads, writes and caches.
pub mod All
pub mod One
pub mod Add
pub mod Once
pub mod Exact
pub mod Grow
use surreal_dbservice.Base.{
  ℕ, String, Bool, not, ◌&&◌, if◌then◌else◌, Option, none, some, List, map,
}
use surreal_dbservice.Err.{Error, Result, ok, err}
use surreal_dbservice.Kvs.Engine.{Engine, Key, Val}
use surreal_dbservice.Kvs.Cache
use surreal_dbservice.Kvs.Cache.{Catalog, Entry}
use surreal_dbservice.Kvs.Order.{Pairs}
use surreal_dbservice.Kvs.Tx
use surreal_dbservice.Kvs.Tx.{Transaction}
use surreal_dbservice.Kvs.Batch.{getr}

-- The stored form of a definition, which the third-party crate msgpack writes and reads, and the
-- definitions with a name and no more that are stored where none was made.
pub record Codec (C : Catalog) : Type 0 where
  pub decode_namespace : Val → C.Namespace
  pub decode_database : Val → C.Database
  pub decode_table : Val → C.Table
  pub decode_login : Val → C.Login
  pub decode_token : Val → C.Token
  pub decode_scope : Val → C.Scope
  pub decode_event : Val → C.Event
  pub decode_field : Val → C.Field
  pub decode_index : Val → C.Index
  pub decode_live : Val → C.Live
  pub encode_namespace : C.Namespace → Val
  pub new_namespace : String → C.Namespace
  pub encode_database : C.Database → Val
  pub new_database : String → C.Database
  pub encode_table : C.Table → Val
  pub new_table : String → C.Table

-- `u32::MAX`
abbrev pub u32_max : ℕ
u32_max = 4294967295

-- What a call leaves; `none` if it ran out of rounds or met `unreachable!()`.
abbrev pub Outcome : Engine → Catalog → Type 0 → Type 0
Outcome E C A = Option (Result A × Transaction E C)

-- an entry of another kind is `unreachable!()`
abbrev pub hit :
    {E : Engine} {C : Catalog} {A : Type 0} → Option A → Transaction E C → Outcome E C A
hit none t = none
hit (some v) t = some (ok v, t)

-- the definitions that a range holds
abbrev pub decoded : {A : Type 0} → (Val → A) → Pairs → List A
decoded decode = map (λ p. decode p.1)

module _ {E : Engine} {C : Catalog} {A : Type 0} where
  unfoldable pub listed :
      Key
      → (List A → Entry C)
      → (Val → A)
      → Option (Result Pairs × Transaction E C)
      → Outcome E C (List A)
  listed key entry decode none = none
  listed key entry decode (some (err e, t)) = some (err e, t)
  listed key entry decode (some (ok res, t)) =
      let val = decoded decode res in
      some (ok val, record t { cache = Cache.set key (entry val) t.cache })

  abbrev pub all_cached :
      Option (Entry C)
      → Key
      → Key
      → (Entry C → Option (List A))
      → (List A → Entry C)
      → (Val → A)
      → Transaction E C
      → Outcome E C (List A)
  all_cached (some e) beg end pick entry decode t = hit (pick e) t
  all_cached none beg end pick entry decode t = listed beg entry decode (getr beg end u32_max t)

  -- The body of the functions `all_…`: the list under the start of its range, from the cache or from
  -- the store.
  unfoldable pub all_of :
      Key
      → Key
      → (Entry C → Option (List A))
      → (List A → Entry C)
      → (Val → A)
      → Transaction E C
      → Outcome E C (List A)
  unfolding Cache.get listed
  all_of beg end pick entry decode t =
      all_cached (Cache.get beg t.cache) beg end pick entry decode t

  -- `self.get(key).await?.ok_or(missing)?`
  unfoldable pub found :
      Error → (Val → A) → Result (Option Val) × Transaction E C → Result A × Transaction E C
  found missing decode (err e, t) = (err e, t)
  found missing decode (ok none, t) = (err missing, t)
  found missing decode (ok (some v), t) = (ok (decode v), t)

  unfoldable pub one_of : Key → Error → (Val → A) → Transaction E C → Result A × Transaction E C
  unfolding Tx.get found
  one_of key missing decode t = found missing decode (Tx.get key t)

  abbrev pub keep : Key → (A → Entry C) → Result A × Transaction E C → Outcome E C A
  keep key entry (err e, t) = some (err e, t)
  keep key entry (ok v, t) = some (ok v, record t { cache = Cache.set key (entry v) t.cache })

  abbrev pub one_cached :
      Option (Entry C)
      → Key
      → Error
      → (Entry C → Option A)
      → (A → Entry C)
      → (Val → A)
      → Transaction E C
      → Outcome E C A
  one_cached (some e) key missing pick entry decode t = hit (pick e) t
  one_cached none key missing pick entry decode t = keep key entry (one_of key missing decode t)

  -- the body of the functions `get_and_cache_…`
  unfoldable pub cached_of :
      Key
      → Error
      → (Entry C → Option A)
      → (A → Entry C)
      → (Val → A)
      → Transaction E C
      → Outcome E C A
  unfolding Cache.get one_of
  cached_of key missing pick entry decode t =
      one_cached (Cache.get key t.cache) key missing pick entry decode t

  abbrev pub stored : A → Result (Unit {0}) × Transaction E C → Result A × Transaction E C
  stored v (ok _, t) = (ok v, t)
  stored v (err e, t) = (err e, t)

  -- the body of the functions `add_…`: a definition that is not there is stored, unless in strict mode
  unfoldable pub add_of :
      Key
      → (Error → Bool)
      → Bool
      → (A → Val)
      → A
      → Result A × Transaction E C
      → Result A × Transaction E C
  unfolding Tx.put
  add_of key is_missing strict encode new (ok v, t) = (ok v, t)
  add_of key is_missing strict encode new (err e, t) =
      if is_missing e && not strict then stored new (Tx.put key (encode new) t) else (err e, t)

  abbrev pub add_cached :
      Key → (Error → Bool) → Bool → (A → Val) → A → Outcome E C A → Outcome E C A
  add_cached key is_missing strict encode new none = none
  add_cached key is_missing strict encode new (some r) =
      some (add_of key is_missing strict encode new r)
