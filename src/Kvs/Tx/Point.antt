-- ===== src/Kvs/Tx/Point.antt =====
-- lib/src/kvs/tx.rs on single keys of an open transaction.
use surreal_dbservice.Base.{◌≡◌, refl, ap, true, false, none, some, arith, if◌then◌else◌}
use surreal_dbservice.Err.{Result, ok, err}
use surreal_dbservice.Kvs.Engine.{Engine, EngineError, error_of, Key, Val, lift}
use surreal_dbservice.Kvs.Mem
use surreal_dbservice.Kvs.Cache.{Catalog, Cache, key_eq}
use surreal_dbservice.Kvs.Laws.{ScanLaws, PointLaws, find}
use surreal_dbservice.Kvs.Tx.{Transaction, Inner, mem, file, core, get, set, put, putc, del, delc}
use surreal_dbservice.Kvs.Batch.Exact.{IsOpen, contents}

module _ {E : Engine} {L : ScanLaws E} (P : PointLaws E L) where
  set-eq :
      (k : Key) (v : Val) (u : Mem.Transaction E)
      → u.finished ≡ false
      → u.rw ≡ true
      → L.IsLive u.tx
      → Mem.set k v u ≡ (ok tt, record u { tx = (E.set k v u.tx).1 })
  unfolding Mem.set lift
  set-eq k v u o w l = ground (arith, P.set_good k v u.tx l)

module _ {E : Engine} {C : Catalog} {L : ScanLaws E} (P : PointLaws E L) where
  get_inner :
      (k : Key) (i : Inner E) (c : Cache C)
      → IsOpen {C = C} L (record { inner = i; cache = c })
      → get {C = C} k (record { inner = i; cache = c })
        ≡ (ok (find k (L.view (core i).tx)), record { inner = i; cache = c })
  unfolding get Mem.get lift
  get_inner k (mem u) c h = rw (h.opened, P.get_lem k u.tx h.live) refl
  get_inner k (file u) c h = rw (h.opened, P.get_lem k u.tx h.live) refl

  -- A read gives the value under the key and changes nothing.
  pub get-open :
      (k : Key) (t : Transaction E C) → IsOpen L t → get k t ≡ (ok (find k (contents L t)), t)
  get-open k t h = get_inner k t.inner t.cache h

  -- How a write of `v` under `k` ends.
  abbrev pub Written : Transaction E C → Key → Val → Result (Unit {0}) × Transaction E C → Type 0
  Written t k v (r, t') =
      (r ≡ ok tt)
      × IsOpen L t'
      × ((j : Key)
          → find j (contents L t') ≡ (if key_eq k j then some v else find j (contents L t)))

  set_inner :
      (k : Key) (v : Val) (i : Inner E) (c : Cache C)
      → IsOpen {C = C} L (record { inner = i; cache = c })
      → Written
          (record { inner = i; cache = c })
          k
          v
          (set {C = C} k v (record { inner = i; cache = c }))
  unfolding set
  set_inner k v (mem u) c h = rw (set-eq P k v u h.opened h.writable h.live) (
    refl,
    record { opened = h.opened; writable = h.writable; live = P.set_live k v u.tx h.live },
    λ j. P.find-set k v j u.tx h.live,
  )
  set_inner k v (file u) c h = rw (set-eq P k v u h.opened h.writable h.live) (
    refl,
    record { opened = h.opened; writable = h.writable; live = P.set_live k v u.tx h.live },
    λ j. P.find-set k v j u.tx h.live,
  )

  pub set-open : (k : Key) (v : Val) (t : Transaction E C) → IsOpen L t → Written t k v (set k v t)
  set-open k v t h = set_inner k v t.inner t.cache h

  put_inner :
      (k : Key) (v : Val) (i : Inner E) (c : Cache C)
      → IsOpen {C = C} L (record { inner = i; cache = c })
      → find k (L.view (core i).tx) ≡ none
      → put {C = C} k v (record { inner = i; cache = c })
        ≡ set k v (record { inner = i; cache = c })
  unfolding put set Mem.put Mem.set
  put_inner k v (mem u) c h e = rw (P.put_lem k v u.tx h.live e) refl
  put_inner k v (file u) c h e = rw (P.put_lem k v u.tx h.live e) refl

  -- Under a key that is not there `put` is `set`.
  pub put-absent :
      (k : Key) (v : Val) (t : Transaction E C)
      → IsOpen L t
      → find k (contents L t) ≡ none
      → put k v t ≡ set k v t
  put-absent k v t h e = put_inner k v t.inner t.cache h e

  putc_inner :
      (k : Key) (v : Val) (i : Inner E) (c : Cache C)
      → IsOpen {C = C} L (record { inner = i; cache = c })
      → find k (L.view (core i).tx) ≡ none
      → putc {C = C} k v none (record { inner = i; cache = c })
        ≡ set k v (record { inner = i; cache = c })
  unfolding putc set Mem.putc Mem.set
  putc_inner k v (mem u) c h e = rw (P.putc_lem k v u.tx h.live e) refl
  putc_inner k v (file u) c h e = rw (P.putc_lem k v u.tx h.live e) refl

  -- Under a key that is not there `putc`, which expects no value, is `set`.
  pub putc-absent :
      (k : Key) (v : Val) (t : Transaction E C)
      → IsOpen L t
      → find k (contents L t) ≡ none
      → putc k v none t ≡ set k v t
  putc-absent k v t h e = putc_inner k v t.inner t.cache h e

  putc_inner_held :
      (k : Key) (v w : Val) (i : Inner E) (c : Cache C)
      → IsOpen {C = C} L (record { inner = i; cache = c })
      → find k (L.view (core i).tx) ≡ some w
      → (e : EngineError) × (putc {C = C} k v none (record { inner = i; cache = c })
          ≡ (err (error_of e), record { inner = i; cache = c }))
  unfolding putc Mem.putc lift
  putc_inner_held k v w (mem u) c h e =
      let (x, refused) = P.putc_held k v w u.tx h.live e in
      (x, rw (h.opened, h.writable, refused) refl)
  putc_inner_held k v w (file u) c h e =
      let (x, refused) = P.putc_held k v w u.tx h.live e in
      (x, rw (h.opened, h.writable, refused) refl)

  -- Under a key that is there `putc`, which expects no value, is refused.
  pub putc-held :
      (k : Key) (v w : Val) (t : Transaction E C)
      → IsOpen L t
      → find k (contents L t) ≡ some w
      → (e : EngineError) × (putc k v none t ≡ (err (error_of e), t))
  putc-held k v w t h e = putc_inner_held k v w t.inner t.cache h e

  delc_inner :
      (k : Key) (v : Val) (i : Inner E) (c : Cache C)
      → IsOpen {C = C} L (record { inner = i; cache = c })
      → find k (L.view (core i).tx) ≡ some v
      → delc {C = C} k (some v) (record { inner = i; cache = c })
        ≡ del k (record { inner = i; cache = c })
  unfolding delc del Mem.delc Mem.del
  delc_inner k v (mem u) c h e = rw (P.delc_lem k v u.tx h.live e) refl
  delc_inner k v (file u) c h e = rw (P.delc_lem k v u.tx h.live e) refl

  -- Under a key with the expected value `delc` is `del`.
  pub delc-held :
      (k : Key) (v : Val) (t : Transaction E C)
      → IsOpen L t
      → find k (contents L t) ≡ some v
      → delc k (some v) t ≡ del k t
  delc-held k v t h e = delc_inner k v t.inner t.cache h e

  -- A write into an open transaction succeeds.
  pub set-eq_ok :
      (k : Key) (v : Val) (t : Transaction E C) → IsOpen L t → set k v t ≡ (ok tt, (set k v t).1)
  set-eq_ok k v t h = ap (λ r. (r, (set k v t).1)) (set-open k v t h).0
