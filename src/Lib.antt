-- ===== src/Lib.antt =====
-- A library for the verification of myjson, an embedded document database in Go that keeps JSON
-- documents with secondary indexes in a key value store.
--
-- The program's parts, and the modules that model them:
--   Errors         errors/errors.go: error values with codes and messages. Errors.Outcome and
--                  Errors.Exec are what a Go call comes to (a result, an error or a panic), without and
--                  with a state.
--   Model          model.go, schema.go: the values, the query types, and what a collection is made of.
--   Vendor         the third-party libraries, each a record of the operations that the program uses;
--                  Vendor.Samples and Vendor.Documents implement them for the tests.
--   Optimizer      optimizer.go: `optimize` is defaultOptimizer.Optimize, its inner loops are
--                  `consider_all`, `match_fields` and `get_matched_field_values`.
--   Authorization  authorization.go: `evaluate_rules` is the part that authorizeCommand, authorizeQuery,
--                  authorizeConfigure and authorizeChangeStream share.
--   Document       document.go: `where_clauses` is Document.Where, with one `Verdict` per clause;
--                  Document.Ops has Diff, ApplyOps and RevertOps.
--   Kv             kv/: NextPrefix of kv/kvutil/util.go, the interface of kv/kv.go with the laws that
--                  its clients rely on (Kv.Interface), a store as the database sees it (Kv.Db), the
--                  transactions of kv/badger (Kv.BadgerTx) and of kv/tikv with their shared cache
--                  (Kv.TikvTx), their change streams (Kv.Streams), and the locks of kv/badger
--                  (Kv.Locker), whose lockers are a step relation in Kv.Locker.Exclusion.
--   Indexing       indexing.go and EncodeIndexValue of util/util.go: the keys of index entries.
--   Results        util.go, docsHaving of tx.go, Query.Validate of model.go: what a query does with the
--                  documents that its scan has found.
--   Transaction    tx.go and tx_util.go: the documents of a transaction (Transaction.Documents),
--                  updateSecondaryIndex (SecondaryIndex), evaluate (Evaluate), queryScan and Get
--                  (Scan), Query, aggregate and ForEach (Queries), cascadeDelete and Delete (Cascade),
--                  persistCommand (Persist), and the other operations, Cmd and time travel (Commands).
--                  Frame has what operations leave as it was.
--   Loading        schema.go: newCollectionSchema is `new_collection_schema`, loadProperties is
--                  `load_properties` of Loading.Walk, with `load_each` for its loop, and what it fills
--                  in is in Loading.Parts; the raw schema is a gjson result.
--   Configuration  calcConfigPlan of db.go and getIndexDiff of util.go; Configuration.References is the
--                  graph of foreign keys of dag.go, whose SetSchemas is `set_schemas`.
--   DefaultDb      db.go and db_util.go: calls that run in a transaction of their own, the locks of
--                  collections and their persisted schemas; DefaultDb.Configure fills and removes
--                  indexes, and drops and configures collections; DefaultDb.Plan is ConfigurePlan,
--                  and DefaultDb.Streams is ChangeStream.
--
-- A transaction changes a document under its primary key, and then each secondary index: the
-- optimizer chooses one of these for a query, whose keys Indexing builds, and the found documents go
-- through the where clauses and through Results. A write first passes Authorization and the
-- triggers, and leaves a change record, which is itself written as a document. DefaultDb gives a
-- transaction the schemas that it has loaded, and keeps their texts in the same store; ConfigurePlan
-- takes collections in the order of the graph of their foreign keys.
--
-- How the source is read: a string or a byte slice is a list of bytes; a Go map is an association
-- list, in the order in which a `range` visits it; a float64 is given by its bits, with its order
-- and sum as parameters (Vendor.Cast); a method that changes its receiver returns the new state. The
-- text of an error message is without its arguments. Each loop follows a list, and that of
-- `having_loop` counts the rounds that are left. Queries and commands call themselves: `run_query`
-- and `run_persist` have a bound on the depth. Three levels of queries are enough, as the results
-- below say; a command that does not delete makes one more, for its change record, and a deletion
-- needs a level for each step of its cascade. `load_properties` has a bound on the nesting of the
-- objects of a schema; a result below says when it is enough. JavaScript, JSON, the validator and
-- the key value stores are parameters. `reindex` runs its iteration as a read-only transaction of
-- its own beside the one that writes, as the code does. A scan is read to its end before its
-- documents are looked at. Contexts carry the namespace, two flags and the time; metadata and
-- mutexes are left out, since calls are made one after another, also those of the goroutines of
-- cascadeDelete. Scripts change the document that is handed to them, but no document through the
-- expressions of computed fields, and may write to the store through the `tx` that the machine
-- holds: `holding` gives a machine the store of the transaction, and `written` is what the scripts
-- that were run have made of it. The results that rely on scripts which only read say so. What
-- scripts do through `db` is done in other transactions.
--
-- Not modelled: Open, Close and the making of plans from files of db.go; the locks of TiKV, which are
-- like those of Badger on another store; the iterators of Badger; the JavaScript bindings; the query
-- builder and metadata; and the interfaces, options and test helpers.
pub mod Prelude
pub mod Errors
pub mod Model
pub mod Vendor
pub mod Optimizer
pub mod Authorization
pub mod Document
pub mod Kv
pub mod Indexing
pub mod Results
pub mod Loading
pub mod Transaction
pub mod Configuration
pub mod DefaultDb
