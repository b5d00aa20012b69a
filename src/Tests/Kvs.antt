-- ===== src/Tests/Kvs.antt =====
-- lib/src/kvs on concrete stores.
use surreal_dbservice.Base.{◌≡◌, refl, true, false, some, [], ◌∷◌}
use surreal_dbservice.Base.Lists.{take}
use surreal_dbservice.Err.{ok}
use surreal_dbservice.Kvs.Order.{range, key_ltb}
use surreal_dbservice.Kvs.Mem
use surreal_dbservice.Kvs.Tx.{Transaction, mem, scan}
use surreal_dbservice.Kvs.Batch.{getr, delr}
use surreal_dbservice.Kvs.Batch.Exact.{IsOpen, contents, getr_exact}
use surreal_dbservice.Kvs.Batch.Erase.{Ends, delr_exact}
use surreal_dbservice.Tests.Demo.{store, scan_laws, no_catalog, three}

abbrev pub open_on : Transaction (store true) no_catalog
open_on = record { inner = mem (record { finished = false; rw = true; tx = three }); cache = [] }

abbrev is_open : IsOpen (scan_laws true) open_on
is_open = record { opened = refl; writable = refl; live = tt }

-- two of the three pairs
getr_two :
    getr [] (9 ∷ []) 2 open_on ≡ some (ok ((1 ∷ [], 10 ∷ []) ∷ (1 ∷ 5 ∷ [], 20 ∷ []) ∷ []), open_on)
unfolding getr key_ltb range scan
getr_two = refl

getr_exact_example :
    getr [] (9 ∷ []) 2 open_on
    ≡ some (ok (take 2 (range [] (9 ∷ []) (contents (scan_laws true) open_on))), open_on)
getr_exact_example = getr_exact (scan_laws true) [] (9 ∷ []) 2 open_on is_open

delr_exact_example :
    Ends
      (scan_laws true)
      open_on
      (take 2 (range [] (9 ∷ []) (contents (scan_laws true) open_on)))
      (delr [] (9 ∷ []) 2 open_on)
delr_exact_example = delr_exact (scan_laws true) [] (9 ∷ []) 2 open_on is_open

abbrev ended : Mem.Transaction (store true)
ended = record { finished = true; rw = true; tx = three }

abbrev reader : Mem.Transaction (store true)
reader = record { finished = false; rw = false; tx = three }

abbrev writer : Mem.Transaction (store true)
writer = record { finished = false; rw = true; tx = three }

begin_reader : Mem.transaction (store true) false three ≡ ok reader
unfolding Mem.transaction
begin_reader = refl
