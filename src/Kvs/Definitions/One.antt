-- ===== src/Kvs/Definitions/One.antt =====
-- lib/src/kvs/tx.rs: the functions `get_…` and `get_and_cache_…`, which read one definition, and the
-- check of strict mode.
use surreal_dbservice.Base.{String, Bool, true, false, Option, none, some}
use surreal_dbservice.Err.{
  Result, ok, err, ns_not_found, nl_not_found, nt_not_found, db_not_found, dl_not_found,
  dt_not_found, sc_not_found, st_not_found, tb_not_found,
}
use surreal_dbservice.Kvs.Engine.{Engine}
use surreal_dbservice.Kvs.Cache.{Catalog, Entry, ns_entry, db_entry, tb_entry}
use surreal_dbservice.Kvs.Tx.{Transaction}
use surreal_dbservice.Keys.{Storekey, encode}
use surreal_dbservice.Keys.Ns
use surreal_dbservice.Keys.Nl
use surreal_dbservice.Keys.Nt
use surreal_dbservice.Keys.Db
use surreal_dbservice.Keys.Dl
use surreal_dbservice.Keys.Dt
use surreal_dbservice.Keys.Sc
use surreal_dbservice.Keys.St
use surreal_dbservice.Keys.Tb
use surreal_dbservice.Kvs.Definitions.{Codec, Outcome, one_of, cached_of}

module _ {C : Catalog} where
  abbrev pub as_ns : Entry C → Option C.Namespace
  as_ns (ns_entry v) = some v
  as_ns _ = none

  abbrev pub as_db : Entry C → Option C.Database
  as_db (db_entry v) = some v
  as_db _ = none

  abbrev pub as_tb : Entry C → Option C.Table
  as_tb (tb_entry v) = some v
  as_tb _ = none

-- the `?` on a call
abbrev pub then_do :
    {E : Engine} {C : Catalog} {A B : Type 0}
    → (Transaction E C → Outcome E C B)
    → Outcome E C A
    → Outcome E C B
then_do rest none = none
then_do rest (some (err e, t)) = some (err e, t)
then_do rest (some (ok _, t)) = rest t

module _ {E : Engine} {C : Catalog} (K : Storekey) (D : Codec C) where
  unfoldable pub get_ns : String → Transaction E C → Result C.Namespace × Transaction E C
  unfolding one_of encode
  get_ns ns = one_of (encode (Ns.new K ns)) ns_not_found D.decode_namespace

  unfoldable pub get_nl : String → String → Transaction E C → Result C.Login × Transaction E C
  unfolding one_of encode
  get_nl ns nl = one_of (encode (Nl.new K ns nl)) nl_not_found D.decode_login

  unfoldable pub get_nt : String → String → Transaction E C → Result C.Token × Transaction E C
  unfolding one_of encode
  get_nt ns nt = one_of (encode (Nt.new K ns nt)) nt_not_found D.decode_token

  unfoldable pub get_db : String → String → Transaction E C → Result C.Database × Transaction E C
  unfolding one_of encode
  get_db ns db = one_of (encode (Db.new K ns db)) db_not_found D.decode_database

  unfoldable pub get_dl :
      String → String → String → Transaction E C → Result C.Login × Transaction E C
  unfolding one_of encode
  get_dl ns db dl = one_of (encode (Dl.new K ns db dl)) dl_not_found D.decode_login

  unfoldable pub get_dt :
      String → String → String → Transaction E C → Result C.Token × Transaction E C
  unfolding one_of encode
  get_dt ns db dt = one_of (encode (Dt.new K ns db dt)) dt_not_found D.decode_token

  unfoldable pub get_sc :
      String → String → String → Transaction E C → Result C.Scope × Transaction E C
  unfolding one_of encode
  get_sc ns db sc = one_of (encode (Sc.new K ns db sc)) sc_not_found D.decode_scope

  unfoldable pub get_st :
      String → String → String → String → Transaction E C → Result C.Token × Transaction E C
  unfolding one_of encode
  get_st ns db sc st = one_of (encode (St.new K ns db sc st)) st_not_found D.decode_token

  unfoldable pub get_tb :
      String → String → String → Transaction E C → Result C.Table × Transaction E C
  unfolding one_of encode
  get_tb ns db tb = one_of (encode (Tb.new K ns db tb)) tb_not_found D.decode_table

  unfoldable pub get_and_cache_ns : String → Transaction E C → Outcome E C C.Namespace
  unfolding cached_of encode
  get_and_cache_ns ns =
      cached_of (encode (Ns.new K ns)) ns_not_found as_ns ns_entry D.decode_namespace

  unfoldable pub get_and_cache_db : String → String → Transaction E C → Outcome E C C.Database
  unfolding cached_of encode
  get_and_cache_db ns db =
      cached_of (encode (Db.new K ns db)) db_not_found as_db db_entry D.decode_database

  unfoldable pub get_and_cache_tb : String → String → String → Transaction E C → Outcome E C C.Table
  unfolding cached_of encode
  get_and_cache_tb ns db tb =
      cached_of (encode (Tb.new K ns db tb)) tb_not_found as_tb tb_entry D.decode_table

  unfoldable pub check_ns_db_tb :
      String → String → String → Bool → Transaction E C → Outcome E C (Unit {0})
  unfolding get_and_cache_ns get_and_cache_db get_and_cache_tb
  check_ns_db_tb ns db tb false t = some (ok tt, t)
  check_ns_db_tb ns db tb true t =
      then_do
        (λ t.
          then_do (λ t. then_do (λ t. some (ok tt, t)) (get_and_cache_tb ns db tb t))
            (get_and_cache_db ns db t))
        (get_and_cache_ns ns t)
