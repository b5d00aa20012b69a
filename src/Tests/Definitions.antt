-- ===== src/Tests/Definitions.antt =====
-- The definitions of lib/src/kvs/tx.rs on a concrete store.
use surreal_dbservice.Base.{◌≡◌, refl, true, false, none, some, List, [], ◌∷◌}
use surreal_dbservice.Base.Lists.{take}
use surreal_dbservice.Err.{ok}
use surreal_dbservice.Kvs.Engine.{Key}
use surreal_dbservice.Kvs.Cache
use surreal_dbservice.Kvs.Cache.{Entry, sts_entry, tbs_entry}
use surreal_dbservice.Kvs.Order.{range}
use surreal_dbservice.Kvs.Tx.{Transaction, mem}
use surreal_dbservice.Kvs.Batch.Exact.{IsOpen, contents}
use surreal_dbservice.Keys.{encode}
use surreal_dbservice.Keys.St
use surreal_dbservice.Keys.Tb
use surreal_dbservice.Kvs.Definitions.{Codec, u32_max, decoded, all_of}
use surreal_dbservice.Kvs.Definitions.All.{as_tbs}
use surreal_dbservice.Kvs.Definitions.One.{
  get_ns, get_db, get_tb, get_and_cache_ns, get_and_cache_db, get_and_cache_tb,
}
use surreal_dbservice.Kvs.Definitions.Add.{
  add_ns, add_db, add_tb, add_and_cache_ns, add_and_cache_db, add_and_cache_tb,
}
use surreal_dbservice.Kvs.Definitions.Once.{all_of_again, strict_adds_nothing}
use surreal_dbservice.Kvs.Definitions.Exact.{all_of_exact}
use surreal_dbservice.Tests.Demo.{Table, store, scan_laws, no_catalog, three}
use surreal_dbservice.Tests.Keys.{demo}

abbrev codec : Codec no_catalog
codec = record {
  decode_namespace = λ v. tt;
  decode_database = λ v. tt;
  decode_table = λ v. tt;
  decode_login = λ v. tt;
  decode_token = λ v. tt;
  decode_scope = λ v. tt;
  decode_event = λ v. tt;
  decode_field = λ v. tt;
  decode_index = λ v. tt;
  decode_live = λ v. tt;
  encode_namespace = λ d. [];
  new_namespace = λ s. tt;
  encode_database = λ d. [];
  new_database = λ s. tt;
  encode_table = λ d. [];
  new_table = λ s. tt;
}

abbrev on : Table → Transaction (store true) no_catalog
on t = record { inner = mem (record { finished = false; rw = true; tx = t }); cache = [] }

on-IsOpen : (t : Table) → IsOpen (scan_laws true) (on t)
on-IsOpen t = record { opened = refl; writable = refl; live = tt }

not_cached : (k : Key) → Cache.get {C = no_catalog} k [] ≡ none
unfolding Cache.get
not_cached k = refl

-- a store that holds one table
abbrev tables : Table
tables = record {
  pairs = (encode (Tb.new demo "ns" "db" "person"), 1 ∷ []) ∷ [];
  sorted = (tt, tt);
}

abbrev read_tables : List (Unit {0})
read_tables = decoded codec.decode_table (
    take u32_max (
      range (Tb.prefix demo "ns" "db") (Tb.suffix demo "ns" "db")
        (contents (scan_laws true) (on tables))))

abbrev after_tables : Transaction (store true) no_catalog
after_tables = record (on tables) {
  cache = Cache.set (Tb.prefix demo "ns" "db") (tbs_entry read_tables) [];
}

all_of_exact_example :
    all_of
      (Tb.prefix demo "ns" "db")
      (Tb.suffix demo "ns" "db")
      as_tbs
      tbs_entry
      codec.decode_table
      (on tables)
    ≡ some (ok read_tables, after_tables)
all_of_exact_example =
    all_of_exact (scan_laws true) (Tb.prefix demo "ns" "db") (Tb.suffix demo "ns" "db") as_tbs
      tbs_entry codec.decode_table (on tables) (on-IsOpen tables)
      (not_cached (Tb.prefix demo "ns" "db"))

all_of_tables :
    all_of
      (Tb.prefix demo "ns" "db")
      (Tb.suffix demo "ns" "db")
      as_tbs
      tbs_entry
      codec.decode_table
      (on tables)
    ≡ some (ok read_tables, after_tables)
all_of_tables =
    all_of_exact (scan_laws true) (Tb.prefix demo "ns" "db") (Tb.suffix demo "ns" "db") as_tbs
      tbs_entry codec.decode_table (on tables) (on-IsOpen tables)
      (not_cached (Tb.prefix demo "ns" "db"))

-- the transaction of the first read, when all pairs of its store are gone
abbrev emptied : Transaction (store true) no_catalog
emptied = record after_tables { inner = (on (record { pairs = []; sorted = tt })).inner }

all_of_again_example :
    all_of
      (Tb.prefix demo "ns" "db")
      (Tb.suffix demo "ns" "db")
      as_tbs
      tbs_entry
      codec.decode_table
      emptied
    ≡ some (ok read_tables, emptied)
all_of_again_example =
    all_of_again as_tbs tbs_entry codec.decode_table (λ v. refl) (Tb.prefix demo "ns" "db")
      (Tb.suffix demo "ns" "db") (on tables) read_tables after_tables emptied all_of_tables refl

-- a store that holds one token of a scope
abbrev tokens : Table
tokens = record {
  pairs = (encode (St.new demo "ns" "db" "users" "jwt"), 1 ∷ []) ∷ [];
  sorted = (tt, tt);
}

strict_adds_nothing_example :
    (add_ns demo codec "ns" true (on three) ≡ get_ns demo codec "ns" (on three))
    × (add_db demo codec "ns" "db" true (on three) ≡ get_db demo codec "ns" "db" (on three))
    × (add_tb demo codec "ns" "db" "tb" true (on three)
        ≡ get_tb demo codec "ns" "db" "tb" (on three))
    × (add_and_cache_ns demo codec "ns" true (on three)
        ≡ get_and_cache_ns demo codec "ns" (on three))
    × (add_and_cache_db demo codec "ns" "db" true (on three)
        ≡ get_and_cache_db demo codec "ns" "db" (on three))
    × (add_and_cache_tb demo codec "ns" "db" "tb" true (on three)
        ≡ get_and_cache_tb demo codec "ns" "db" "tb" (on three))
strict_adds_nothing_example = strict_adds_nothing demo codec "ns" "db" "tb" (on three)
