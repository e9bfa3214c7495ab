-- ===== src/Lib.antt =====
-- CORM, an object-relational mapper in C: a model of the library and what makes it correct.
--
-- A client describes a struct by a model (src/model.c, include/corm/model.h), builds a query with
-- chained calls (src/query.c), and runs it on a session (src/corm.c): the query becomes SQL
-- (src/builder.c, in the dialect of src/dialect.c), the driver of the session's database executes it with
-- the bound parameters, and rows come back as a result set (src/result.c).
--
--   Base       numbers, lists, texts, decimal numerals; the error codes of include/corm/types.h
--   StrBuf     src/internal/strbuf.h, the growing buffer that all SQL is written to
--   Hash       src/internal/hash.h, the table behind the registry of models
--   Dialect    src/dialect.c, placeholders, quotes and column types
--   Value      corm_value_t of include/corm/types.h
--   Model      src/model.c: validation; Model/Memory: reads and writes of a
--              struct; Model/Registry: the models of a session
--   Result     src/result.c
--   Query      the building half of src/query.c; Query/Memory: binding where the array of parameters can
--              grow; Query/Params: the memory of the parameters; Query/Chain: chains of its calls
--   Builder    src/builder.c; a pure function from a query to its SQL
--   Session    src/corm.c; Session/Dsn, Session/Savepoint: data source names, savepoints;
--              Session/Backends: src/backend/backend.c; Session/Crud: the
--              executing half of src/query.c; Session/Batch: its batches;
--              Session/Opening: corm_open_with_config and corm_close; Session/Init: corm_init
--   Migration  src/migration.c: tables, columns and indexes made from models
--   Sqlite     src/backend/sqlite3.c: the driver for SQLite on the calls of its library;
--              Sqlite/Reading: its queries; Sqlite/Describe: the description of a table
--   Server     the connection strings of src/backend/mysql.c and postgres.c
--   Mysql      src/backend/mysql.c on the calls of its library: what it executes; Mysql/Reading: its queries;
--              Mysql/Describe: the description of a table; Mysql/Opening: open and close
--   Postgres   src/backend/postgres.c on the calls of libpq; Postgres/Reading: its queries; Postgres/Opening:
--              open and close
--   Pool       src/internal/pool.c: connections shared by threads, as a step relation (Pool/Steps)
--   StmtCache  src/internal/stmt_cache.c: the driver's prepared statements in linked nodes, and the list
--              in order of use (StmtCache/Lru) that they stand for; StmtCache/Client runs sequences of calls
--   Samples    concrete values for the Tests modules
--
-- A function of the source keeps its name without the prefix `corm_` and the name of its type. Stateful
-- functions take the state and return it behind their outputs. A pointer that may be NULL is an Option;
-- the NULL checks on sessions, queries and models are left out, since these are values here. A text
-- is the list of its character codes without the NUL. `size_t` arithmetic wraps at 2 ^ 64 where the
-- source computes with it, and an `int` is a signed number.
--
-- A driver and the hooks of a model are parameters: functions that may change the whole session.
-- Memory allocation is an argument that says which requests are served, where a theorem depends on
-- it; a query holds which capacities its array of parameters can grow to, and the texts of its
-- clauses are served. Loops on fuel: `append_with_placeholders` has one round more than the text has characters, the
-- batch loop one per record, a query of SQLite and its description of a table one for each row and one more, a walk along the statement
-- cache one for each node and one more, a call on the pool one for each idle connection and one more; the
-- doubling of the buffer's capacity has 65 rounds, which cover every capacity of a 64-bit size.
--
-- Not modelled: the clocks behind the logger, the expiry of connections and the timed wait, the condition
-- variable of the pool with its signals and the threads that sleep on it, and the locks, whose critical sections
-- are single steps here; in the SQLite driver, a text for
-- which the library returns SQLITE_OK without a statement.
mod Base
pub mod Samples
pub mod StrBuf
pub mod Hash
pub mod Dialect
pub mod Model
pub mod Value
pub mod Result
pub mod Query
pub mod Builder
pub mod Session
pub mod Pool
pub mod StmtCache
pub mod Migration
pub mod Sqlite
pub mod Server
pub mod Mysql
pub mod Postgres
