-- ===== src/Kvs/Definitions/All.antt =====
-- lib/src/kvs/tx.rs: the functions `all_…`, which list the definitions of a kind.
use surreal_dbservice.Base.{String, Option, none, some, List}
use surreal_dbservice.Kvs.Engine.{Engine}
use surreal_dbservice.Kvs.Cache.{
  Catalog, Entry, nss_entry, nls_entry, nts_entry, dbs_entry, dls_entry, dts_entry, scs_entry,
  sts_entry, tbs_entry, evs_entry, fds_entry, ixs_entry, fts_entry, lvs_entry,
}
use surreal_dbservice.Kvs.Tx.{Transaction}
use surreal_dbservice.Keys.{Storekey}
use surreal_dbservice.Keys.Ns
use surreal_dbservice.Keys.Nl
use surreal_dbservice.Keys.Nt
use surreal_dbservice.Keys.Db
use surreal_dbservice.Keys.Dl
use surreal_dbservice.Keys.Dt
use surreal_dbservice.Keys.Sc
use surreal_dbservice.Keys.St
use surreal_dbservice.Keys.Tb
use surreal_dbservice.Keys.Ev
use surreal_dbservice.Keys.Fd
use surreal_dbservice.Keys.Ix
use surreal_dbservice.Keys.Ft
use surreal_dbservice.Keys.Lv
use surreal_dbservice.Kvs.Definitions.{Codec, Outcome, all_of}

module _ {C : Catalog} where
  abbrev pub as_nss : Entry C → Option (List C.Namespace)
  as_nss (nss_entry v) = some v
  as_nss _ = none

  abbrev pub as_nls : Entry C → Option (List C.Login)
  as_nls (nls_entry v) = some v
  as_nls _ = none

  abbrev pub as_nts : Entry C → Option (List C.Token)
  as_nts (nts_entry v) = some v
  as_nts _ = none

  abbrev pub as_dbs : Entry C → Option (List C.Database)
  as_dbs (dbs_entry v) = some v
  as_dbs _ = none

  abbrev pub as_dls : Entry C → Option (List C.Login)
  as_dls (dls_entry v) = some v
  as_dls _ = none

  abbrev pub as_dts : Entry C → Option (List C.Token)
  as_dts (dts_entry v) = some v
  as_dts _ = none

  abbrev pub as_scs : Entry C → Option (List C.Scope)
  as_scs (scs_entry v) = some v
  as_scs _ = none

  abbrev pub as_sts : Entry C → Option (List C.Token)
  as_sts (sts_entry v) = some v
  as_sts _ = none

  abbrev pub as_tbs : Entry C → Option (List C.Table)
  as_tbs (tbs_entry v) = some v
  as_tbs _ = none

  abbrev pub as_evs : Entry C → Option (List C.Event)
  as_evs (evs_entry v) = some v
  as_evs _ = none

  abbrev pub as_fds : Entry C → Option (List C.Field)
  as_fds (fds_entry v) = some v
  as_fds _ = none

  abbrev pub as_ixs : Entry C → Option (List C.Index)
  as_ixs (ixs_entry v) = some v
  as_ixs _ = none

  abbrev pub as_fts : Entry C → Option (List C.Table)
  as_fts (fts_entry v) = some v
  as_fts _ = none

  abbrev pub as_lvs : Entry C → Option (List C.Live)
  as_lvs (lvs_entry v) = some v
  as_lvs _ = none

module _ {E : Engine} {C : Catalog} (K : Storekey) (D : Codec C) where
  unfoldable pub all_ns : Transaction E C → Outcome E C (List C.Namespace)
  unfolding all_of Ns.prefix Ns.suffix
  all_ns = all_of (Ns.prefix K) (Ns.suffix K) as_nss nss_entry D.decode_namespace

  unfoldable pub all_nl : String → Transaction E C → Outcome E C (List C.Login)
  unfolding all_of Nl.prefix Nl.suffix
  all_nl ns = all_of (Nl.prefix K ns) (Nl.suffix K ns) as_nls nls_entry D.decode_login

  unfoldable pub all_nt : String → Transaction E C → Outcome E C (List C.Token)
  unfolding all_of Nt.prefix Nt.suffix
  all_nt ns = all_of (Nt.prefix K ns) (Nt.suffix K ns) as_nts nts_entry D.decode_token

  unfoldable pub all_db : String → Transaction E C → Outcome E C (List C.Database)
  unfolding all_of Db.prefix Db.suffix
  all_db ns = all_of (Db.prefix K ns) (Db.suffix K ns) as_dbs dbs_entry D.decode_database

  unfoldable pub all_dl : String → String → Transaction E C → Outcome E C (List C.Login)
  unfolding all_of Dl.prefix Dl.suffix
  all_dl ns db = all_of (Dl.prefix K ns db) (Dl.suffix K ns db) as_dls dls_entry D.decode_login

  unfoldable pub all_dt : String → String → Transaction E C → Outcome E C (List C.Token)
  unfolding all_of Dt.prefix Dt.suffix
  all_dt ns db = all_of (Dt.prefix K ns db) (Dt.suffix K ns db) as_dts dts_entry D.decode_token

  unfoldable pub all_sc : String → String → Transaction E C → Outcome E C (List C.Scope)
  unfolding all_of Sc.prefix Sc.suffix
  all_sc ns db = all_of (Sc.prefix K ns db) (Sc.suffix K ns db) as_scs scs_entry D.decode_scope

  unfoldable pub all_st : String → String → String → Transaction E C → Outcome E C (List C.Token)
  unfolding all_of St.prefix St.suffix
  all_st ns db sc =
      all_of (St.prefix K ns db sc) (St.suffix K ns db sc) as_sts sts_entry D.decode_token

  unfoldable pub all_tb : String → String → Transaction E C → Outcome E C (List C.Table)
  unfolding all_of Tb.prefix Tb.suffix
  all_tb ns db = all_of (Tb.prefix K ns db) (Tb.suffix K ns db) as_tbs tbs_entry D.decode_table

  unfoldable pub all_ev : String → String → String → Transaction E C → Outcome E C (List C.Event)
  unfolding all_of Ev.prefix Ev.suffix
  all_ev ns db tb =
      all_of (Ev.prefix K ns db tb) (Ev.suffix K ns db tb) as_evs evs_entry D.decode_event

  unfoldable pub all_fd : String → String → String → Transaction E C → Outcome E C (List C.Field)
  unfolding all_of Fd.prefix Fd.suffix
  all_fd ns db tb =
      all_of (Fd.prefix K ns db tb) (Fd.suffix K ns db tb) as_fds fds_entry D.decode_field

  unfoldable pub all_ix : String → String → String → Transaction E C → Outcome E C (List C.Index)
  unfolding all_of Ix.prefix Ix.suffix
  all_ix ns db tb =
      all_of (Ix.prefix K ns db tb) (Ix.suffix K ns db tb) as_ixs ixs_entry D.decode_index

  unfoldable pub all_ft : String → String → String → Transaction E C → Outcome E C (List C.Table)
  unfolding all_of Ft.prefix Ft.suffix
  all_ft ns db tb =
      all_of (Ft.prefix K ns db tb) (Ft.suffix K ns db tb) as_fts fts_entry D.decode_table

  unfoldable pub all_lv : String → String → String → Transaction E C → Outcome E C (List C.Live)
  unfolding all_of Lv.prefix Lv.suffix
  all_lv ns db tb =
      all_of (Lv.prefix K ns db tb) (Lv.suffix K ns db tb) as_lvs lvs_entry D.decode_live
