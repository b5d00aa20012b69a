-- ===== src/Keys.antt =====
-- lib/src/key: the keys of the store. A key is a struct, whose encoding by the third-party crate
-- storekey is made from those of its fields in order: here it is the list of its fields.
pub mod Database
pub mod Db
pub mod Dl
pub mod Dt
pub mod Ev
pub mod Fd
pub mod Ft
pub mod Graph
pub mod Index
pub mod Ix
pub mod Kv
pub mod Lq
pub mod Lv
pub mod Namespace
pub mod Nl
pub mod Ns
pub mod Nt
pub mod Sc
pub mod St
pub mod Table
pub mod Ranges
pub mod ScopeTokens
pub mod Parsing
pub mod Listing
pub mod Tb
pub mod Thing
use surreal_dbservice.Base.{ℕ, String, Option, List, [], ◌∷◌, ◌++◌, map}
use surreal_dbservice.Kvs.Engine.{Key}

-- storekey, and the values that stand in a key besides text: the record ids, the identifiers of live
-- queries, the directions of edges and the arrays of an index.
pub record Storekey : Type 1 where
  pub RecordId : Type 0
  pub Uuid : Type 0
  pub Dir : Type 0
  pub Array : Type 0
  -- the encoding of a struct, from the encodings of its fields
  pub encode_struct : List Key → Key
  pub encode_str : String → Key
  pub encode_id : RecordId → Key
  pub encode_uuid : Uuid → Key
  pub encode_dir : Dir → Key
  pub encode_array : Array → Key
  pub encode_opt_id : Option RecordId → Key

pub data Field (K : Storekey) : Type 0 where
  byte : ℕ → Field K
  str : String → Field K
  id_field : K.RecordId → Field K
  uuid_field : K.Uuid → Field K
  dir_field : K.Dir → Field K
  array_field : K.Array → Field K
  opt_id_field : Option K.RecordId → Field K

module _ {K : Storekey} where
  abbrev pub field : Field K → Key
  field (byte b) = b ∷ []
  field (str s) = K.encode_str s
  field (id_field i) = K.encode_id i
  field (uuid_field u) = K.encode_uuid u
  field (dir_field d) = K.encode_dir d
  field (array_field a) = K.encode_array a
  field (opt_id_field i) = K.encode_opt_id i

  -- `derive(Key)`
  unfoldable pub encode : List (Field K) → Key
  encode fs = K.encode_struct (map field fs)
