-- ===== src/Keys/Ranges.antt =====
-- The ranges of lib/src/key against the keys that they are meant to hold.
use surreal_dbservice.Base.{
  ℕ, String, ◌≡◌, ◌<◌, refl, sym, ap, ◌∙◌, true, false, List, [], ◌∷◌, ◌++◌, map, arith,
}
use mathlib.Core.List.{append_assoc}
use surreal_dbservice.Kvs.Engine.{Key}
use surreal_dbservice.Kvs.Order.{key_ltb}
use surreal_dbservice.Keys.{Storekey, Field, byte, str, id_field, field, encode}
use surreal_dbservice.Keys.Kv
use surreal_dbservice.Keys.Namespace
use surreal_dbservice.Keys.Database
use surreal_dbservice.Keys.Table
use surreal_dbservice.Keys.Ns
use surreal_dbservice.Keys.Nl
use surreal_dbservice.Keys.Nt
use surreal_dbservice.Keys.Db
use surreal_dbservice.Keys.Dl
use surreal_dbservice.Keys.Dt
use surreal_dbservice.Keys.Sc
use surreal_dbservice.Keys.Tb
use surreal_dbservice.Keys.Ev
use surreal_dbservice.Keys.Fd
use surreal_dbservice.Keys.Ft
use surreal_dbservice.Keys.Ix
use surreal_dbservice.Keys.Thing

abbrev pub concat : List Key → Key
concat [] = []
concat (k ∷ ks) = k ++ concat ks

-- What storekey documents: the fields of a struct are written one after another, a text is written as its UTF-8 bytes and a zero byte, and an enum as its
-- number in four bytes, so that neither is empty or starts with 0xff.
pub record StartLaws (K : Storekey) : Type 0 where
  pub struct_lem : (ks : List Key) → K.encode_struct ks ≡ concat ks
  pub str_starts : (s : String) → (b : ℕ) × (r : Key) × (K.encode_str s ≡ b ∷ r) × (b < 0xff)
  pub id_starts : (i : K.RecordId) → (b : ℕ) × (r : Key) × (K.encode_id i ≡ b ∷ r) × (b < 0xff)

-- a common front does not matter
pub ltb-front : (p j k : Key) → key_ltb (p ++ j) (p ++ k) ≡ key_ltb j k
unfolding key_ltb
ltb-front [] j k = refl
ltb-front (a ∷ p) j k = ground (arith, ltb-front p j k)

-- not before the range and before its end
abbrev pub IsWithin : Key → Key → Key → Type 0
IsWithin k a b = (key_ltb k a ≡ false) × (key_ltb k b ≡ true)

module _ {K : Storekey} where
  -- the fields one after another
  unfoldable pub joined : List (Field K) → Key
  joined fs = concat (map field fs)

  pub encode-eq : (L : StartLaws K) (fs : List (Field K)) → encode fs ≡ joined fs
  unfolding encode joined
  encode-eq L fs = L.struct_lem (map field fs)

  pub joined-append : (fs gs : List (Field K)) → joined (fs ++ gs) ≡ joined fs ++ joined gs
  unfolding joined
  joined-append [] gs = refl
  joined-append (f ∷ fs) gs =
      ap (λ k. field f ++ k) (joined-append fs gs)
      ∙ sym (append_assoc (field f) (joined fs) (joined gs))

  pub joined-bytes :
      (ms : List ℕ) (gs : List (Field K)) → joined (map byte ms ++ gs) ≡ ms ++ joined gs
  unfolding joined
  joined-bytes [] gs = refl
  joined-bytes (m ∷ ms) gs = ap (λ k. m ∷ k) (joined-bytes ms gs)

  one_byte :
      (f : Field K) (r : Key) (b : ℕ)
      → field f ≡ b ∷ r
      → b < 0xff
      → IsWithin (joined (f ∷ [])) (0x00 ∷ []) (0xff ∷ [])
  unfolding joined key_ltb
  one_byte f r b e lt = rw e (ground arith)

  -- Two keys with a common front compare as what follows it.
  pub ltb-common :
      (L : StartLaws K) (fs gs hs : List (Field K)) (r : Key)
      → key_ltb (encode (fs ++ gs)) (encode (fs ++ hs) ++ r) ≡ key_ltb (joined gs) (joined hs ++ r)
  ltb-common L fs gs hs r =
      rw (encode-eq L (fs ++ gs), encode-eq L (fs ++ hs))
        (rw (joined-append fs gs, joined-append fs hs, append_assoc (joined fs) (joined hs) r)
          (ltb-front (joined fs) (joined gs) (joined hs ++ r)))

  -- A key that goes on behind a front and its marker is within the range of that marker.
  pub marked :
      (L : StartLaws K) (fs : List (Field K)) (ms : List ℕ) (f : Field K)
      → (b : ℕ) × (r : Key) × (field f ≡ b ∷ r) × (b < 0xff)
      → IsWithin
          (encode (fs ++ (map byte ms ++ f ∷ [])))
          (encode fs ++ (ms ++ 0x00 ∷ []))
          (encode fs ++ (ms ++ 0xff ∷ []))
  marked L fs ms f (b, r, e, lt) =
      rw (encode-eq L (fs ++ (map byte ms ++ f ∷ [])), encode-eq L fs)
        (rw (joined-append fs (map byte ms ++ f ∷ []), joined-bytes ms (f ∷ []))
          (rw
            (
              ltb-front (joined fs) (ms ++ joined (f ∷ [])) (ms ++ 0x00 ∷ []),
              ltb-front (joined fs) (ms ++ joined (f ∷ [])) (ms ++ 0xff ∷ []),
              ltb-front ms (joined (f ∷ [])) (0x00 ∷ []),
              ltb-front ms (joined (f ∷ [])) (0xff ∷ []),
            )
            (one_byte f r b e lt)))

-- A definition or a record, with the names above it: the lists of definitions that are read by a
-- range of keys. The tokens of scopes and the live queries are not among them.
pub data Listed (K : Storekey) : Type 0 where
  ns_key : String → Listed K
  nl_key nt_key db_key : String → String → Listed K
  dl_key dt_key sc_key tb_key : String → String → String → Listed K
  ev_key fd_key ft_key ix_key : String → String → String → String → Listed K
  thing_key : String → String → String → K.RecordId → Listed K

module _ (K : Storekey) where
  abbrev pub fields_of : Listed K → List (Field K)
  fields_of (ns_key ns) = Ns.new K ns
  fields_of (nl_key ns us) = Nl.new K ns us
  fields_of (nt_key ns tk) = Nt.new K ns tk
  fields_of (db_key ns db) = Db.new K ns db
  fields_of (dl_key ns db dl) = Dl.new K ns db dl
  fields_of (dt_key ns db tk) = Dt.new K ns db tk
  fields_of (sc_key ns db sc) = Sc.new K ns db sc
  fields_of (tb_key ns db tb) = Tb.new K ns db tb
  fields_of (ev_key ns db tb ev) = Ev.new K ns db tb ev
  fields_of (fd_key ns db tb fd) = Fd.new K ns db tb fd
  fields_of (ft_key ns db tb ft) = Ft.new K ns db tb ft
  fields_of (ix_key ns db tb ix) = Ix.new K ns db tb ix
  fields_of (thing_key ns db tb id) = Thing.new K ns db tb id

  abbrev pub first_of : Listed K → Key
  first_of (ns_key ns) = Ns.prefix K
  first_of (nl_key ns us) = Nl.prefix K ns
  first_of (nt_key ns tk) = Nt.prefix K ns
  first_of (db_key ns db) = Db.prefix K ns
  first_of (dl_key ns db dl) = Dl.prefix K ns db
  first_of (dt_key ns db tk) = Dt.prefix K ns db
  first_of (sc_key ns db sc) = Sc.prefix K ns db
  first_of (tb_key ns db tb) = Tb.prefix K ns db
  first_of (ev_key ns db tb ev) = Ev.prefix K ns db tb
  first_of (fd_key ns db tb fd) = Fd.prefix K ns db tb
  first_of (ft_key ns db tb ft) = Ft.prefix K ns db tb
  first_of (ix_key ns db tb ix) = Ix.prefix K ns db tb
  first_of (thing_key ns db tb id) = Thing.prefix K ns db tb

  abbrev pub last_of : Listed K → Key
  last_of (ns_key ns) = Ns.suffix K
  last_of (nl_key ns us) = Nl.suffix K ns
  last_of (nt_key ns tk) = Nt.suffix K ns
  last_of (db_key ns db) = Db.suffix K ns
  last_of (dl_key ns db dl) = Dl.suffix K ns db
  last_of (dt_key ns db tk) = Dt.suffix K ns db
  last_of (sc_key ns db sc) = Sc.suffix K ns db
  last_of (tb_key ns db tb) = Tb.suffix K ns db
  last_of (ev_key ns db tb ev) = Ev.suffix K ns db tb
  last_of (fd_key ns db tb fd) = Fd.suffix K ns db tb
  last_of (ft_key ns db tb ft) = Ft.suffix K ns db tb
  last_of (ix_key ns db tb ix) = Ix.suffix K ns db tb
  last_of (thing_key ns db tb id) = Thing.suffix K ns db tb

  -- Every record, and every definition but that of a token of a scope, its key encoded as storekey
  -- documents, lies within the range that is read to list its kind under its parents. The tokens of
  -- a scope are not of `Listed`: they lie behind their range.
  pub Listed-IsWithin :
      (L : StartLaws K) (d : Listed K) → IsWithin (encode (fields_of d)) (first_of d) (last_of d)
  unfolding Ns.prefix Ns.suffix Nl.prefix Nl.suffix Nt.prefix Nt.suffix Db.prefix Db.suffix
      Dl.prefix Dl.suffix Dt.prefix Dt.suffix Sc.prefix Sc.suffix Tb.prefix Tb.suffix Ev.prefix
      Ev.suffix Fd.prefix Fd.suffix Ft.prefix Ft.suffix Ix.prefix Ix.suffix Thing.prefix
      Thing.suffix
  Listed-IsWithin L (ns_key ns) =
      marked L (Kv.new K) (0x21 ∷ 0x6e ∷ 0x73 ∷ []) (str ns) (L.str_starts ns)
  Listed-IsWithin L (nl_key ns us) =
      marked L (Namespace.new K ns) (0x21 ∷ 0x6e ∷ 0x6c ∷ []) (str us) (L.str_starts us)
  Listed-IsWithin L (nt_key ns tk) =
      marked L (Namespace.new K ns) (0x21 ∷ 0x6e ∷ 0x74 ∷ []) (str tk) (L.str_starts tk)
  Listed-IsWithin L (db_key ns db) =
      marked L (Namespace.new K ns) (0x21 ∷ 0x64 ∷ 0x62 ∷ []) (str db) (L.str_starts db)
  Listed-IsWithin L (dl_key ns db dl) =
      marked L (Database.new K ns db) (0x21 ∷ 0x64 ∷ 0x6c ∷ []) (str dl) (L.str_starts dl)
  Listed-IsWithin L (dt_key ns db tk) =
      marked L (Database.new K ns db) (0x21 ∷ 0x64 ∷ 0x74 ∷ []) (str tk) (L.str_starts tk)
  Listed-IsWithin L (sc_key ns db sc) =
      marked L (Database.new K ns db) (0x21 ∷ 0x73 ∷ 0x63 ∷ []) (str sc) (L.str_starts sc)
  Listed-IsWithin L (tb_key ns db tb) =
      marked L (Database.new K ns db) (0x21 ∷ 0x74 ∷ 0x62 ∷ []) (str tb) (L.str_starts tb)
  Listed-IsWithin L (ev_key ns db tb ev) =
      marked L (Table.new K ns db tb) (0x21 ∷ 0x65 ∷ 0x76 ∷ []) (str ev) (L.str_starts ev)
  Listed-IsWithin L (fd_key ns db tb fd) =
      marked L (Table.new K ns db tb) (0x21 ∷ 0x66 ∷ 0x64 ∷ []) (str fd) (L.str_starts fd)
  Listed-IsWithin L (ft_key ns db tb ft) =
      marked L (Table.new K ns db tb) (0x21 ∷ 0x66 ∷ 0x74 ∷ []) (str ft) (L.str_starts ft)
  Listed-IsWithin L (ix_key ns db tb ix) =
      marked L (Table.new K ns db tb) (0x21 ∷ 0x69 ∷ 0x78 ∷ []) (str ix) (L.str_starts ix)
  Listed-IsWithin L (thing_key ns db tb id) =
      marked L (Table.new K ns db tb) (0x2a ∷ []) (id_field id) (L.id_starts id)
