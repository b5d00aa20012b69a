-- ===== src/Tests/Session.antt =====
-- lib/src/dbs/session.rs on a session and a variable.
use surreal_dbservice.Base.{String, ◌≡◌, true, Option, none, some, [], ◌∷◌}
use surreal_dbservice.Ctx.{value, or_else}
use surreal_dbservice.Dbs.Session.{Session, Values, Variables, set_up, for_sc}
use surreal_dbservice.Dbs.Session.Setup.{variable_of, own, value-set_up}
use surreal_dbservice.Tests.Ctx.{no_flags}

abbrev texts : Values (Option String)
texts = record { none_value = none; strand = λ s. some s; object = λ m. some "object" }

abbrev signed_up : Session (Option String)
signed_up = for_sc "test" "test" "account"

abbrev passed_on : Variables (Option String)
passed_on = some (("name", some "Tobie") ∷ [])

value-set_up_example :
    value (set_up texts signed_up passed_on true no_flags).0 "scope"
    ≡ or_else (variable_of "scope" passed_on) (own texts signed_up "scope")
value-set_up_example = value-set_up texts signed_up passed_on true no_flags "scope"
