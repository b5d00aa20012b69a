-- ===== src/Dbs/Session/Setup.antt =====
-- What a query finds in the context that `Datastore::process` of lib/src/kvs/ds.rs makes from a
-- session.
use surreal_dbservice.Base.{
  String, ◌≡◌, refl, Bool, true, false, Option, none, some, List, [], ◌∷◌, str_eq, if◌then◌else◌,
  ap, ◌∙◌,
}
use surreal_dbservice.Ctx.{Context, Flags, background, add_value, value, or_else}
use surreal_dbservice.Ctx.Params.{value-add_value}
use surreal_dbservice.Dbs.Session.{
  Session, Values, Variables, context, attach, attach_each, set_up, described, of_text, of_value,
}

module _ {V : Type 0} where
  -- the entry of that name, the last one where there are several
  pub variable : String → List (String × V) → Option V
  variable name [] = none
  variable name ((key, val) ∷ m) =
      or_else (variable name m) (if str_eq key name then some val else none)

  abbrev pub variable_of : String → Variables V → Option V
  variable_of name none = none
  variable_of name (some m) = variable name m

  -- what a session itself puts into the context
  abbrev pub own : Values V → Session V → String → Option V
  own W s name =
      if str_eq "session" name
      then some (described W s)
      else if str_eq "auth" name
      then some (of_value W s.sd)
      else if str_eq "scope" name
      then some (of_text W s.sc)
      else none

  or_else-if :
      (o p : Option V) (b : Bool) (v : V)
      → or_else o (if b then some v else p) ≡ or_else (or_else o (if b then some v else none)) p
  or_else-if (some w) p b v = refl
  or_else-if none p true v = refl
  or_else-if none p false v = refl

  value-attach_each :
      (m : List (String × V)) (c : Context V) (name : String)
      → value (attach_each m c) name ≡ or_else (variable name m) (value c name)
  unfolding variable
  value-attach_each [] c name = refl
  value-attach_each ((key, val) ∷ m) c name =
      value-attach_each m (add_value key val c) name
      ∙ ap (or_else (variable name m)) (value-add_value key name val c)
      ∙ or_else-if (variable name m) (value c name) (str_eq key name) val

  value-attach :
      (vars : Variables V) (c : Context V) (name : String)
      → value (attach vars c) name ≡ or_else (variable_of name vars) (value c name)
  unfolding attach
  value-attach none c name = refl
  value-attach (some m) c name = value-attach_each m c name

  value-context :
      (W : Values V) (s : Session V) (fl : Flags) (name : String)
      → value (context W s (background fl).0) name ≡ own W s name
  unfolding context value
  value-context W s fl name =
      rw
        (
          value-add_value "session" name (described W s) (
              add_value "auth" (of_value W s.sd)
                (add_value "scope" (of_text W s.sc) (background fl).0)),
          value-add_value "auth" name (of_value W s.sd)
              (add_value "scope" (of_text W s.sc) (background fl).0),
          value-add_value "scope" name (of_text W s.sc) (background fl).0,
        )
        refl

  -- A query finds under a name the variable that was passed with it, else what the session holds
  -- under that name (`session`, `auth` and `scope`), and else nothing.
  pub value-set_up :
      (W : Values V) (s : Session V) (vars : Variables V) (strict : Bool) (fl : Flags)
      (name : String)
      → value (set_up W s vars strict fl).0 name ≡ or_else (variable_of name vars) (own W s name)
  unfolding set_up
  value-set_up W s vars strict fl name =
      value-attach vars (context W s (background fl).0) name
      ∙ ap (or_else (variable_of name vars)) (value-context W s fl name)
