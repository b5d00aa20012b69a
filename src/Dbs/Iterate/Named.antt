-- ===== src/Dbs/Iterate/Named.antt =====
-- The edges to a table that is named, in lib/src/dbs/iterate.rs: the range is made from the displayed
-- name of the table, the keys of edges (lib/src/doc/edges.rs) from the name itself.
use Prim.Native.String.{◌++◌ as ◌++ₛ◌, ◌∷◌ as ◌∷ₛ◌, [] as empty}
use surreal_dbservice.Base.{String, List, [], ◌∷◌}
use surreal_dbservice.Kvs.Engine.{Engine}
use surreal_dbservice.Keys.{byte, dir_field}
use surreal_dbservice.Keys
