-- ===== src/Keys/Listing.antt =====
-- What the ranges of lib/src/key hold besides the keys that they are meant to hold: nothing.
use surreal_dbservice.Base.{ℕ, ◌≡◌, Path, refl, sym, ap, ◌∙◌, true, List, [], ◌∷◌, ◌++◌, map, arith}
use mathlib.Core.List.{append_assoc}
use surreal_dbservice.Kvs.Engine.{Key}
use surreal_dbservice.Kvs.Order.{key_ltb}
use surreal_dbservice.Keys.{Storekey, Field, byte, encode}
use surreal_dbservice.Keys.Ranges.{
  StartLaws, IsWithin, Listed, ns_key, nl_key, nt_key, db_key, dl_key, dt_key, sc_key, tb_key,
  ev_key, fd_key, ft_key, ix_key, thing_key, fields_of, first_of, last_of, joined, encode-eq,
  joined-append,
}
use surreal_dbservice.Keys.Parsing.{TextLaws, aligned, AllText, joined_front}
use surreal_dbservice.Keys.Kv
use surreal_dbservice.Keys.Namespace
use surreal_dbservice.Keys.Database
use surreal_dbservice.Keys.Table
use surreal_dbservice.Keys.Ns
use surreal_dbservice.Keys.Nl
use surreal_dbservice.Keys.Nt
use surreal_dbservice.Keys.Db
use surreal_dbservice.Keys.Dl
use surreal_dbservice.Keys.Dt
use surreal_dbservice.Keys.Sc
use surreal_dbservice.Keys.Tb
use surreal_dbservice.Keys.Ev
use surreal_dbservice.Keys.Fd
use surreal_dbservice.Keys.Ft
use surreal_dbservice.Keys.Ix
use surreal_dbservice.Keys.Thing

-- Between a front with a zero byte and the same front with 0xff there are only keys with that front.
pub within_front :
    (p k : Key) → IsWithin k (p ++ 0x00 ∷ []) (p ++ 0xff ∷ []) → (r : Key) × (k ≡ p ++ r)
unfolding key_ltb
within_front [] k h = (k, refl)
within_front (a ∷ p) [] h = cc
within_front (a ∷ p) (b ∷ k) h =
    let (same, rest) = within_tail a b p k h in
    let (r, e) = within_front p k rest in (r, cons-eq same e)
  where
    cons-eq : {a b : ℕ} {j k : Key} → b ≡ a → j ≡ k → Path Key (b ∷ j) (a ∷ k)
    cons-eq same e = cc

    within_tail :
        (a b : ℕ) (p k : Key)
        → IsWithin (b ∷ k) (a ∷ p ++ 0x00 ∷ []) (a ∷ p ++ 0xff ∷ [])
        → (b ≡ a) × IsWithin k (p ++ 0x00 ∷ []) (p ++ 0xff ∷ [])
    within_tail a b p k h = ground arith

module _ (K : Storekey) where
  -- The names above a definition or a record, and the marker of its kind.
  abbrev pub parents_of : Listed K → List (Field K)
  parents_of (ns_key ns) = Kv.new K ++ (byte 0x21 ∷ byte 0x6e ∷ byte 0x73 ∷ [])
  parents_of (nl_key ns us) = Namespace.new K ns ++ (byte 0x21 ∷ byte 0x6e ∷ byte 0x6c ∷ [])
  parents_of (nt_key ns tk) = Namespace.new K ns ++ (byte 0x21 ∷ byte 0x6e ∷ byte 0x74 ∷ [])
  parents_of (db_key ns db) = Namespace.new K ns ++ (byte 0x21 ∷ byte 0x64 ∷ byte 0x62 ∷ [])
  parents_of (dl_key ns db dl) = Database.new K ns db ++ (byte 0x21 ∷ byte 0x64 ∷ byte 0x6c ∷ [])
  parents_of (dt_key ns db tk) = Database.new K ns db ++ (byte 0x21 ∷ byte 0x64 ∷ byte 0x74 ∷ [])
  parents_of (sc_key ns db sc) = Database.new K ns db ++ (byte 0x21 ∷ byte 0x73 ∷ byte 0x63 ∷ [])
  parents_of (tb_key ns db tb) = Database.new K ns db ++ (byte 0x21 ∷ byte 0x74 ∷ byte 0x62 ∷ [])
  parents_of (ev_key ns db tb ev) = Table.new K ns db tb ++ (byte 0x21 ∷ byte 0x65 ∷ byte 0x76 ∷ [])
  parents_of (fd_key ns db tb fd) = Table.new K ns db tb ++ (byte 0x21 ∷ byte 0x66 ∷ byte 0x64 ∷ [])
  parents_of (ft_key ns db tb ft) = Table.new K ns db tb ++ (byte 0x21 ∷ byte 0x66 ∷ byte 0x74 ∷ [])
  parents_of (ix_key ns db tb ix) = Table.new K ns db tb ++ (byte 0x21 ∷ byte 0x69 ∷ byte 0x78 ∷ [])
  parents_of (thing_key ns db tb id) = Table.new K ns db tb ++ (byte 0x2a ∷ [])

  split_front :
      (L : StartLaws K) (fs : List (Field K)) (ms : List ℕ) (r : Key)
      → encode fs ++ (ms ++ r) ≡ joined (fs ++ map byte ms) ++ r
  unfolding joined
  split_front L fs ms r =
      ap (λ k. k ++ (ms ++ r)) (encode-eq L fs)
      ∙ sym (append_assoc (joined fs) ms r)
      ∙ ap (λ k. k ++ r)
          (ap (λ k. joined fs ++ k) (sym (bytes ms)) ∙ sym (joined-append fs (map byte ms)))
    where
      bytes : (ms : List ℕ) → joined {K = K} (map byte ms) ≡ ms
      bytes [] = refl
      bytes (m ∷ ms) = ap (λ k. m ∷ k) (bytes ms)

  first-eq : (L : StartLaws K) (d : Listed K) → first_of K d ≡ joined (parents_of d) ++ 0x00 ∷ []
  unfolding Ns.prefix Nl.prefix Nt.prefix Db.prefix Dl.prefix Dt.prefix Sc.prefix Tb.prefix
      Ev.prefix Fd.prefix Ft.prefix Ix.prefix Thing.prefix
  first-eq L (ns_key ns) = split_front L (Kv.new K) (0x21 ∷ 0x6e ∷ 0x73 ∷ []) (0x00 ∷ [])
  first-eq L (nl_key ns us) =
      split_front L (Namespace.new K ns) (0x21 ∷ 0x6e ∷ 0x6c ∷ []) (0x00 ∷ [])
  first-eq L (nt_key ns tk) =
      split_front L (Namespace.new K ns) (0x21 ∷ 0x6e ∷ 0x74 ∷ []) (0x00 ∷ [])
  first-eq L (db_key ns db) =
      split_front L (Namespace.new K ns) (0x21 ∷ 0x64 ∷ 0x62 ∷ []) (0x00 ∷ [])
  first-eq L (dl_key ns db dl) =
      split_front L (Database.new K ns db) (0x21 ∷ 0x64 ∷ 0x6c ∷ []) (0x00 ∷ [])
  first-eq L (dt_key ns db tk) =
      split_front L (Database.new K ns db) (0x21 ∷ 0x64 ∷ 0x74 ∷ []) (0x00 ∷ [])
  first-eq L (sc_key ns db sc) =
      split_front L (Database.new K ns db) (0x21 ∷ 0x73 ∷ 0x63 ∷ []) (0x00 ∷ [])
  first-eq L (tb_key ns db tb) =
      split_front L (Database.new K ns db) (0x21 ∷ 0x74 ∷ 0x62 ∷ []) (0x00 ∷ [])
  first-eq L (ev_key ns db tb ev) =
      split_front L (Table.new K ns db tb) (0x21 ∷ 0x65 ∷ 0x76 ∷ []) (0x00 ∷ [])
  first-eq L (fd_key ns db tb fd) =
      split_front L (Table.new K ns db tb) (0x21 ∷ 0x66 ∷ 0x64 ∷ []) (0x00 ∷ [])
  first-eq L (ft_key ns db tb ft) =
      split_front L (Table.new K ns db tb) (0x21 ∷ 0x66 ∷ 0x74 ∷ []) (0x00 ∷ [])
  first-eq L (ix_key ns db tb ix) =
      split_front L (Table.new K ns db tb) (0x21 ∷ 0x69 ∷ 0x78 ∷ []) (0x00 ∷ [])
  first-eq L (thing_key ns db tb id) = split_front L (Table.new K ns db tb) (0x2a ∷ []) (0x00 ∷ [])

  last-eq : (L : StartLaws K) (d : Listed K) → last_of K d ≡ joined (parents_of d) ++ 0xff ∷ []
  unfolding Ns.suffix Nl.suffix Nt.suffix Db.suffix Dl.suffix Dt.suffix Sc.suffix Tb.suffix
      Ev.suffix Fd.suffix Ft.suffix Ix.suffix Thing.suffix
  last-eq L (ns_key ns) = split_front L (Kv.new K) (0x21 ∷ 0x6e ∷ 0x73 ∷ []) (0xff ∷ [])
  last-eq L (nl_key ns us) =
      split_front L (Namespace.new K ns) (0x21 ∷ 0x6e ∷ 0x6c ∷ []) (0xff ∷ [])
  last-eq L (nt_key ns tk) =
      split_front L (Namespace.new K ns) (0x21 ∷ 0x6e ∷ 0x74 ∷ []) (0xff ∷ [])
  last-eq L (db_key ns db) =
      split_front L (Namespace.new K ns) (0x21 ∷ 0x64 ∷ 0x62 ∷ []) (0xff ∷ [])
  last-eq L (dl_key ns db dl) =
      split_front L (Database.new K ns db) (0x21 ∷ 0x64 ∷ 0x6c ∷ []) (0xff ∷ [])
  last-eq L (dt_key ns db tk) =
      split_front L (Database.new K ns db) (0x21 ∷ 0x64 ∷ 0x74 ∷ []) (0xff ∷ [])
  last-eq L (sc_key ns db sc) =
      split_front L (Database.new K ns db) (0x21 ∷ 0x73 ∷ 0x63 ∷ []) (0xff ∷ [])
  last-eq L (tb_key ns db tb) =
      split_front L (Database.new K ns db) (0x21 ∷ 0x74 ∷ 0x62 ∷ []) (0xff ∷ [])
  last-eq L (ev_key ns db tb ev) =
      split_front L (Table.new K ns db tb) (0x21 ∷ 0x65 ∷ 0x76 ∷ []) (0xff ∷ [])
  last-eq L (fd_key ns db tb fd) =
      split_front L (Table.new K ns db tb) (0x21 ∷ 0x66 ∷ 0x64 ∷ []) (0xff ∷ [])
  last-eq L (ft_key ns db tb ft) =
      split_front L (Table.new K ns db tb) (0x21 ∷ 0x66 ∷ 0x74 ∷ []) (0xff ∷ [])
  last-eq L (ix_key ns db tb ix) =
      split_front L (Table.new K ns db tb) (0x21 ∷ 0x69 ∷ 0x78 ∷ []) (0xff ∷ [])
  last-eq L (thing_key ns db tb id) = split_front L (Table.new K ns db tb) (0x2a ∷ []) (0xff ∷ [])

  aligned-Listed : (e d : Listed K) → aligned (fields_of K e) (parents_of d) ≡ true
  aligned-Listed e (ns_key ns) = ground arith
  aligned-Listed e (nl_key ns us) = ground arith
  aligned-Listed e (nt_key ns tk) = ground arith
  aligned-Listed e (db_key ns db) = ground arith
  aligned-Listed e (dl_key ns db dl) = ground arith
  aligned-Listed e (dt_key ns db tk) = ground arith
  aligned-Listed e (sc_key ns db sc) = ground arith
  aligned-Listed e (tb_key ns db tb) = ground arith
  aligned-Listed e (ev_key ns db tb ev) = ground arith
  aligned-Listed e (fd_key ns db tb fd) = ground arith
  aligned-Listed e (ft_key ns db tb ft) = ground arith
  aligned-Listed e (ix_key ns db tb ix) = ground arith
  aligned-Listed e (thing_key ns db tb id) = ground arith

  -- Among the keys of `Listed` (namespaces, databases, tables, records, the logins and tokens of a
  -- namespace or a database, scopes, events, fields, views and indexes; not graph edges, index
  -- entries, scope tokens and live queries), the range that lists one kind under its parents holds
  -- that kind only: if the key of `e` lies within the range of `d`, where no name holds a zero byte,
  -- then the fields of `e` begin with the parents and the marker of `d`.
  pub range_holds_kind :
      (L : StartLaws K) (T : TextLaws K) (d e : Listed K)
      → AllText L T (parents_of d)
      → AllText L T (fields_of K e)
      → IsWithin (encode (fields_of K e)) (first_of K d) (last_of K d)
      → (gs : List (Field K)) × (fields_of K e ≡ parents_of d ++ gs)
  range_holds_kind L T d e td te h =
      let (r, front) =
        within_front (joined (parents_of d)) (joined (fields_of K e))
          (rw (first-eq L d, last-eq L d, encode-eq L (fields_of K e)) at h) in
      joined_front L T (fields_of K e) (parents_of d) r (aligned-Listed e d) te td front
