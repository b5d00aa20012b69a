-- ===== src/Dbs/Response.antt =====
-- lib/src/dbs/response.rs: the answer to one statement.
use surreal_dbservice.Base.{ℕ, String, Option}
use surreal_dbservice.Err.{Result}

pub record Response (V : Type 0) : Type 0 where
  pub sql : Option String
  pub time : ℕ
  pub result : Result V

-- `Response::output`
abbrev pub output : {V : Type 0} → Response V → Result V
output r = r.result
