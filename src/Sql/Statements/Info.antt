-- ===== src/Sql/Statements/Info.antt =====
-- lib/src/sql/statements/info.rs: what an INFO statement answers, as an object of objects of texts.
use surreal_dbservice.Base.{String, List, [], ◌∷◌}
use surreal_dbservice.Base.Assoc.{Assoc, insert}
use surreal_dbservice.Kvs.Engine.{Engine}
use surreal_dbservice.Kvs.Definitions.{Codec}
use surreal_dbservice.Kvs.Definitions.All.{
  all_ns, all_nl, all_nt, all_db, all_dl, all_dt, all_sc, all_st, all_tb, all_ev, all_fd, all_ix,
  all_ft,
}
use surreal_dbservice.Keys.{Storekey}
use surreal_dbservice.Dbs.Auth.{kv_level, ns_level, db_level}
use surreal_dbservice.Dbs.Options
use surreal_dbservice.Dbs.Options.{Options, needs}
use surreal_dbservice.Sql.Definition.{
  Parts, catalog, Namespace, Database, Login, Token, Scope, Table, Event, Field, Index,
}
use surreal_dbservice.Sql.Run.{Run, ◌>>=◌, ◌>>◌, checked, the, pure}

-- `InfoStatement`
pub data Info : Type 0 where
  kv_info ns_info db_info : Info
  sc_info tb_info : String → Info

-- `to_string` of the definitions
pub record Display (Q : Parts) : Type 0 where
  pub namespace : Namespace → String
  pub database : Database → String
  pub login : Login → String
  pub token : Token → String
  pub scope : Scope Q → String
  pub table : Table Q → String
  pub event : Event Q → String
  pub field : Field Q → String
  pub index : Index Q → String

abbrev pub Answer : Type 0
Answer = Assoc (Assoc String)

-- the loop over the definitions: `tmp.insert(v.name.to_string(), v.to_string().into())`
abbrev described_from :
    {A : Type 0} → (A → String) → (A → String) → Assoc String → List A → Assoc String
described_from name text tmp [] = tmp
described_from name text tmp (v ∷ vs) = described_from name text (insert (name v) (text v) tmp) vs

unfoldable pub described : {A : Type 0} → (A → String) → (A → String) → List A → Assoc String
unfolding insert
described name text = described_from name text []

module _ {E : Engine} (K : Storekey) (Q : Parts) (D : Codec (catalog Q)) (S : Display Q) where
  unfoldable pub info_kv : Options → Run E (catalog Q) Answer
  unfolding needs Options.check all_ns described
  info_kv o = do
    checked (needs o kv_level)
    checked (Options.check o kv_level)
    nss ← all_ns K D
    pure (("ns", described (λ v. v.name) S.namespace nss) ∷ [])

  unfoldable pub info_ns : Options → Run E (catalog Q) Answer
  unfolding needs Options.check all_db all_nt all_nl described
  info_ns o = do
    checked (needs o ns_level)
    checked (Options.check o ns_level)
    ns ← the o.ns
    dbs ← all_db K D ns
    nts ← all_nt K D ns
    nls ← all_nl K D ns
    pure (
        ("db", described (λ v. v.name) S.database dbs)
        ∷ ("nt", described (λ v. v.name) S.token nts)
        ∷ ("nl", described (λ v. v.name) S.login nls)
        ∷ [])

  unfoldable pub info_db : Options → Run E (catalog Q) Answer
  unfolding needs Options.check all_tb all_sc all_dt all_dl described
  info_db o = do
    checked (needs o db_level)
    checked (Options.check o db_level)
    ns ← the o.ns
    db ← the o.db
    tbs ← all_tb K D ns db
    scs ← all_sc K D ns db
    dts ← all_dt K D ns db
    dls ← all_dl K D ns db
    pure (
        ("tb", described (λ v. v.name) S.table tbs)
        ∷ ("sc", described (λ v. v.name) S.scope scs)
        ∷ ("dt", described (λ v. v.name) S.token dts)
        ∷ ("dl", described (λ v. v.name) S.login dls)
        ∷ [])

  unfoldable pub info_sc : String → Options → Run E (catalog Q) Answer
  unfolding needs Options.check all_st described
  info_sc sc o = do
    checked (needs o db_level)
    checked (Options.check o db_level)
    ns ← the o.ns
    db ← the o.db
    sts ← all_st K D ns db sc
    pure (("st", described (λ v. v.name) S.token sts) ∷ [])

  unfoldable pub info_tb : String → Options → Run E (catalog Q) Answer
  unfolding needs Options.check all_ev all_fd all_ix all_ft described
  info_tb tb o = do
    checked (needs o db_level)
    checked (Options.check o db_level)
    ns ← the o.ns
    db ← the o.db
    evs ← all_ev K D ns db tb
    fds ← all_fd K D ns db tb
    ixs ← all_ix K D ns db tb
    fts ← all_ft K D ns db tb
    pure (
        ("ev", described (λ v. v.name) S.event evs)
        ∷ ("fd", described (λ v. Q.idiom_text v.name) S.field fds)
        ∷ ("ix", described (λ v. v.name) S.index ixs)
        ∷ ("ft", described (λ v. v.name) S.table fts)
        ∷ [])

  unfoldable pub info : Info → Options → Run E (catalog Q) Answer
  unfolding info_kv info_ns info_db info_sc info_tb
  info kv_info o = info_kv o
  info ns_info o = info_ns o
  info db_info o = info_db o
  info (sc_info sc) o = info_sc sc o
  info (tb_info tb) o = info_tb tb o
