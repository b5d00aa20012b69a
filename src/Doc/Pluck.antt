-- ===== src/Doc/Pluck.antt =====
-- lib/src/doc/pluck.rs: what a statement answers for a record.
use surreal_dbservice.Base.{
  true, false, not, Option, none, some, List, [], ◌∷◌, is_some, if◌then◌else◌,
}
use surreal_dbservice.Err.{ignore}
use surreal_dbservice.Kvs.Engine.{Engine}
use surreal_dbservice.Kvs.Definitions.{Codec}
use surreal_dbservice.Keys.{Storekey}
use surreal_dbservice.Ctx
use surreal_dbservice.Ctx.{Context, add_value}
use surreal_dbservice.Dbs.Options.{Options, with_futures}
use surreal_dbservice.Sql.Definition.{Parts, catalog, Field}
use surreal_dbservice.Sql.Permission.{Permission, no_permission, full_permission, specific}
use surreal_dbservice.Sql.Run.{Run, ◌>>=◌, pure, fail}
use surreal_dbservice.Doc.{
  Document, Statement, World, Verb, select, create, update, relate, delete, insert, Output,
  none_output, null_output, diff_output, after_output, before_output, fields_output, output,
}
use surreal_dbservice.Doc.Schema.{fd}

module _ {E : Engine} {K : Storekey} {Q : Parts} (D : Codec (catalog Q)) (W : World E K Q) where
  abbrev pub after : Context Q.Value → Options → Document K Q.Value → Run E (catalog Q) Q.Value
  after ctx o d = W.compute d.current ctx o d.current

  -- without a RETURN clause
  abbrev pub by_verb :
      Verb
      → Context Q.Value
      → Options
      → Statement Q.Idiom Q.Value W.Fields
      → Document K Q.Value
      → Run E (catalog Q) Q.Value
  by_verb select ctx o s d = W.compute_fields s.expr ctx o d.current s.grouped
  by_verb create ctx o s d = after ctx o d
  by_verb update ctx o s d = after ctx o d
  by_verb relate ctx o s d = after ctx o d
  by_verb insert ctx o s d = after ctx o d
  by_verb delete ctx o s d = fail ignore

  abbrev pub answer :
      Option (Output W.Fields)
      → Context Q.Value
      → Options
      → Statement Q.Idiom Q.Value W.Fields
      → Document K Q.Value
      → Run E (catalog Q) Q.Value
  answer (some none_output) ctx o s d = fail ignore
  answer (some null_output) ctx o s d = pure W.null_value
  answer (some diff_output) ctx o s d = pure (W.diff d.initial d.current)
  answer (some after_output) ctx o s d = after ctx o d
  answer (some before_output) ctx o s d = W.compute d.initial ctx o d.initial
  answer (some (fields_output v)) ctx o s d = W.compute_fields v ctx o d.current false
  answer none ctx o s d = by_verb s.verb ctx o s d

  abbrev pub pluck_context : Context Q.Value → Q.Value → Context Q.Value
  pluck_context ctx val = add_value "value" val (Ctx.new ctx W.flags).0

  -- a field of the answer that may not be selected is taken out
  abbrev pub redact :
      Permission Q.Value
      → Context Q.Value
      → Options
      → Q.Idiom
      → Document K Q.Value
      → Q.Value
      → Run E (catalog Q) Q.Value
  redact full_permission ctx o k d out = pure out
  redact no_permission ctx o k d out = W.del ctx o k out
  redact (specific e) ctx o k d out = do
    v ← W.compute e (pluck_context ctx (W.pick k d.current)) o d.current
    if not (W.is_truthy v) then W.del (pluck_context ctx (W.pick k d.current)) o k out else pure out

  abbrev pub redact_keys :
      Context Q.Value
      → Options
      → Permission Q.Value
      → List Q.Idiom
      → Document K Q.Value
      → Q.Value
      → Run E (catalog Q) Q.Value
  redact_keys ctx o p [] d out = pure out
  redact_keys ctx o p (k ∷ ks) d out = redact p ctx o k d out >>= redact_keys ctx o p ks d

  abbrev pub redact_fields :
      Context Q.Value
      → Options
      → List (Field Q)
      → Document K Q.Value
      → Q.Value
      → Run E (catalog Q) Q.Value
  redact_fields ctx o [] d out = pure out
  redact_fields ctx o (f ∷ fs) d out =
      redact_keys ctx o f.permissions.select (W.each f.name out) d out >>= redact_fields ctx o fs d

  unfoldable pub pluck :
      Context Q.Value
      → Options
      → Statement Q.Idiom Q.Value W.Fields
      → Document K Q.Value
      → Run E (catalog Q) Q.Value
  unfolding fd
  pluck ctx o s d = do
    let o' = with_futures true o
    out ← answer (output s) ctx o' s d
    let whole : Run E (catalog Q) Q.Value =
        (fd K Q D d o' >>= λ fds. redact_fields ctx o' fds d out)
    out' ← if is_some d.id then whole else pure out
    W.del ctx o' W.meta_idiom out'
