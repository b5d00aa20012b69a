-- ===== src/Lib.antt =====
-- The query engine of SurrealDB: the executor of queries, the options, the levels of authentication
-- and the context that go down with a statement, the statements on definitions, the processing of
-- records, the transactions on the embedded stores, the keys under which everything is stored, and
-- the operations on values and arrays.
--
-- How the parts interact. A query is a list of statements. The executor (lib/src/dbs/executor.rs)
-- runs them in order, opens a transaction for a statement or for a block BEGIN … COMMIT, evaluates
-- each statement with the context, the options and the transaction, and buffers the responses of a
-- block until its end. A transaction (lib/src/kvs/tx.rs) passes its calls on to the transaction of
-- the store that was opened (lib/src/kvs/mem, lib/src/kvs/file), which guards the third-party store.
-- Ranges of keys (lib/src/key) are read and deleted in batches. A record that a statement is about
-- becomes a document (lib/src/doc), which is checked, edited, saved and answered in the order of the
-- statement's verb, with the definitions that the transaction reads and caches.
--
-- Which file models which code:
--   Err                  lib/src/err/mod.rs: `Error`, and Rust's `Result`.
--   Ctx                  lib/src/ctx: `Context` with its parents, deadlines, cancellation flags and
--                        parameters, `Reason`, `Canceller::cancel`. The shared atomic flags are
--                        numbers into a store of flags; clocks and durations are numbers.
--   Kvs.Engine           the third-party store echodb, as a parameter with its errors.
--   Kvs.Mem              lib/src/kvs/mem/mod.rs and lib/src/kvs/file/mod.rs, which are the same code:
--                        `Datastore::transaction` and the methods of `Transaction`.
--   Kvs.Cache            lib/src/kvs/cache.rs. The types of the definitions are parameters.
--   Kvs.Tx               lib/src/kvs/tx.rs, the methods that are passed on to the store, and
--                        `Datastore::transaction` of lib/src/kvs/ds.rs.
--   Kvs.Batch            lib/src/kvs/tx.rs: `getr`, `delr`, `getp`, `delp`.
--   Kvs.Definitions      lib/src/kvs/tx.rs: `all_*`, `get_*`, `get_and_cache_*`, `add_*`,
--                        `add_and_cache_*`, `check_ns_db_tb`.
--   Kvs.Order, Kvs.Laws  the order of keys, and what echodb documents, as hypotheses.
--   Keys                 lib/src/key: a module for each file, `new` for the fields of the key and
--                        `prefix`, `suffix` for its range.
--   Dbs.Auth             lib/src/dbs/auth.rs: `Level`, `Auth`, `check`, `perms`.
--   Dbs.Options          lib/src/dbs/options.rs: `Options` and its methods.
--   Dbs.Session          lib/src/dbs/session.rs, lib/src/dbs/variables.rs, and lib/src/kvs/ds.rs:
--                        `set_up` is `process` up to the call of the executor.
--   Dbs.Response         lib/src/dbs/response.rs.
--   Dbs.Executor         lib/src/dbs/executor.rs. `State` holds the fields of `Executor` and the
--                        variables of `execute`; `step` is one round of the loop, `process` its
--                        `match`, and `Flow` says how a round ends: the next round, a `break`, an
--                        error or a panic.
--   Dbs.Iterator         lib/src/dbs/iterator.rs: `result`, `process`, the sequential `iterate` over
--                        the records of all entries, `output` with SPLIT, START and LIMIT. The
--                        documents, and GROUP, ORDER and FETCH, are parameters (`World`).
--   Dbs.Walk             the loop over a range of keys in lib/src/dbs/iterate.rs and channel.rs.
--   Dbs.Iterate          lib/src/dbs/iterate.rs and lib/src/dbs/channel.rs, which differ in what is
--                        called with a record (`Caller`): `iterate`, for every kind of entry.
--   Sql.Permission       lib/src/sql/permission.rs: `Permissions`.
--   Sql.Definition       lib/src/sql/statements/define.rs: the structs of the definitions, with
--                        lib/src/sql/base.rs, algorithm.rs, kind.rs and view.rs.
--   Sql.Escape           lib/src/sql/escape.rs: `escape_ident`, as which a table is displayed.
--   Sql.Run              the shape of `compute`: a run on a transaction.
--   Sql.Statements       lib/src/sql/statements: `compute` of define.rs (`define_…`), remove.rs
--                        (`remove_…`), info.rs, live.rs and kill.rs.
--   Doc                  lib/src/doc, without table.rs: `Document` and `World`, what is called of values
--                        and expressions. Doc.Schema: document.rs. Doc.Checks: exist.rs, empty.rs,
--                        check.rs, allow.rs. Doc.Edit: alter.rs, merge.rs, erase.rs.
--                        Doc.Fields: field.rs, clean.rs. Doc.Save: store.rs, edges.rs, purge.rs.
--                        Doc.Index: index.rs. Doc.Event: event.rs. Doc.Pluck: pluck.rs.
--                        Doc.Process: the order of the calls, and compute.rs.
--   Sql.Value            lib/src/sql/value: pick.rs, walk.rs, each.rs and every.rs, with part.rs. The
--                        values that hold no other values, and the conditions, records and graphs
--                        in a path, are parameters (`Atoms`). Sql.Value.Set: set.rs, merge.rs and
--                        replace.rs, and Sql.Value.Del: del.rs, with the evaluation of a condition
--                        as a parameter.
--   Sql.Array            lib/src/sql/array.rs: `+`, `-`, `combine`, `concat`, `difference`,
--                        `intersect`, `union`, `uniq`. The equality of values is a parameter.
--                        Sql.Array.Abolish: `abolish`, with a pure test for its closure.
--   Base                 the helpers that the parts share.
--   Tests                a store, a statement language and a key encoder for the tests, and the
--                        theorems at concrete inputs.
--
-- Bounds and fuel. Bytes and lengths are natural numbers. The loops of `getr` and `delr` run on
-- `limit + 1` rounds: a round that reads something lowers `num`, which starts at `limit`, and one
-- more round finds the end; the theorems on them say that they return. `num` is a u32 that falls by
-- one for each pair; a store that returns more pairs than it is asked for takes it below 0, and the
-- loop then has no result. The theorems rest on stores that do not (`ScanLaws`, `ScanBound`). The scans of Dbs.Walk run on a bound above the number of
-- pairs: a batch that reads something moves on, and the theorems say that they end. The recursion
-- bound of `Options::dive` is 16, a u8 that does not overflow.
--
-- What is assumed. echodb: `Kvs.Laws` states that a live transaction reads like a sorted list and
-- that a cancellation or a failed commit leaves the store as it was, that a scan returns no more
-- pairs than it is asked for (`ScanBound`), and what `get`, `set`, `put`,
-- `putc` and `delc` do to one key (`PointLaws`). storekey: it writes a struct as its fields one
-- after another, a text as its bytes and a zero byte, an enum with four bytes of its number in
-- front (`Keys.Ranges.StartLaws`, `Keys.Parsing.TextLaws`). What a statement computes, and how
-- long it takes, is a parameter of the executor (`Host`).
--
-- What is not modelled: the parsers, the built-in functions, the evaluation of values and
-- expressions, the maintenance of views in lib/src/doc/table.rs, the export of lib/src/kvs/tx.rs,
-- the stores tikv and indxdb, sign-in, the server and the command line. Locks and asynchrony are
-- left out: one query runs on its own transaction at a time.
pub mod Base
pub mod Err
pub mod Ctx
pub mod Kvs
pub mod Keys
pub mod Dbs
pub mod Sql
pub mod Doc
pub mod Tests
