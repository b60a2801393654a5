-- ===== src/Lib.antt =====
-- bqemulator: an emulator of BigQuery over DuckDB. This library models the parts of the program that
-- carry its own logic and proves what makes them correct.
--
-- The parts, and the code that each models (paths from the repository's root):
--   Streaming        src/bqemulator/streaming/write_stream.py and streaming/strategies/: the record of a
--                    write stream (Stream), the four strategies with their methods append, flush and
--                    commit (Strategies) and the stream names (Names). A method takes the stream and
--                    returns the changed stream beside its outcome.
--   WriteApi         src/bqemulator/grpc_api/write_servicer.py with the stream manager: the state is the
--                    record Server (streams by name, the gauge, the tables of the catalog, the store).
--                    Manager holds create, get_or_create_default, delete and clear; Handlers the calls
--                    CreateWriteStream, GetWriteStream and FinalizeWriteStream; Target the insertion
--                    `_flush_to_target`, FlushRows and BatchCommitWriteStreams; Append the connection of
--                    AppendRows. A call returns a Reply (an answer, a gRPC status, or an exception that
--                    leaves it) beside the new state. Runs has the call sequences as a relation.
--   Identifiers      src/bqemulator/storage/sql_identifiers.py, domain/ids.py and udf/naming.py: the
--                    whitelists, as `re.match` applies them, and the names built from ids.
--   RowAccess        src/bqemulator/row_access/identity.py and matcher.py: the caller's identity (Identity)
--                    and the test of a policy's grantees against it (Matcher), over Python's string
--                    methods (Strings). Grants says what a grantee means, Trimmed which header values count,
--                    Resolved and Policies what follows. `str.lower` is a parameter.
--   Scripting        src/bqemulator/scripting/: the statements (Syntax), the frames of variables
--                    (Frames, with laws in Scopes), the calls of the SQL pipeline as an interface
--                    (Database), transactions as copies of tables (Transactions), statements without
--                    a body (Simple) and the interpreter (Interpreter), whose statement takes the
--                    state and returns how it ends beside the new state. Loops count down
--                    max_loop_iters, the setting at which the code raises. CALL, EXECUTE IMMEDIATE
--                    and CREATE of routines are left out.
--   Cache            src/bqemulator/sql/cache.py: the query cache as a dict of entries. The clock's
--                    reading is an argument of each call, in whole ticks.
--   Jobs             src/bqemulator/jobs/state_machine.py: the states of a job and its transitions.
--   Catalog          src/bqemulator/catalog/memory_repository.py: the catalog as dicts, the calls that
--                    change it, and the cascade of delete_dataset. Tables, routines and models share
--                    their calls by a Kind. Jobs and listings are left out. Of a row access policy
--                    its key is an argument, and the rest of each resource is a type parameter.
--   Uploads          src/bqemulator/jobs/upload_session_manager.py: the Content-Range header (ContentRange),
--                    the manager with its staging files (Sessions), and what holds of both (Sound,
--                    Calls, Chunks). The clock's readings and new ids are arguments.
--   Numerals         Python's str and int on the numbers that are not negative.
--   Snapshots        src/bqemulator/versioning/snapshots.py: capture, lookup and purge over an interface to
--                    DuckDB (SnapshotEngine); Lookup says what is found, Changes and History what a
--                    query reads after a sequence of changes, Purge what a purge takes away.
--   ReadSession      src/bqemulator/streaming/read_session.py: sessions of the Storage Read API, their
--                    streams and the split of one, over an interface to tables (ArrowTable); Cover,
--                    Halves and Bounds say what the streams hold. A fraction is given by its products.
--   Scripting/Lexer  src/bqemulator/scripting/lexer.py: the tokens of a script, read from the text that
--                    is left (Readers); Lengths, Blanks, Spelling and Tiling follow a reader to the
--                    whole source. The fuel of a loop is one more than the characters left.
--   Intervals        src/bqemulator/types/interval.py: the parser of INTERVAL literals (Literals) and
--                    format_bq_interval (Printed); Digits, Seconds, Words, Texts and RoundTrip read back what
--                    is printed. Numbers is what Python's int and Decimal make of unusual texts.
--   StaleViews       src/bqemulator/domain/events.py and versioning/materialized_views.py: the event bus
--                    and the subscriptions that mark materialized views stale; Marked says which.
--   Dict             Python's dict as an association list in insertion order.
--   Prelude          names, tests and lemmas that the other modules share.
--   Examples         test data, tests, and an instance of each theorem that has hypotheses.
--
-- How they meet: the servicer finds a stream in the manager, asks the strategy of its kind, and inserts
-- the rows that the strategy hands over. DuckDB and the snapshot manager are the interface TargetStore,
-- with the law that an insertion appends to one table and an exception changes no rows; the decoders of
-- protobuf and Arrow rows are the record Codec. A change of a table is recorded by the snapshot manager,
-- whose event the bus hands to the materialized views. A loop of the modelled code runs over a list, or
-- counts down a limit at which the code itself stops; the loops of the lexer and of str(n) count down a
-- fuel above the length that is left or above n, and the theorems on them hold for that fuel. Numbers
-- are unbounded as in Python: counts are naturals, and an offset that a client sends is an integer.
--
-- Not modelled: locks and threads (a call is one step), creation times, log lines and metrics other than
-- the gauge, the wire encoding of messages, and the parts that are calls of DuckDB, sqlglot, pyarrow or
-- FastAPI (the REST routes, the SQL translator, the storage engine, the job executor). The text of an
-- error message is the data that it interpolates.
pub mod Prelude
pub mod Dict
pub mod Numerals
pub mod Uploads
pub mod Snapshots
pub mod StaleViews
pub mod Intervals
pub mod ReadSession
pub mod Streaming
pub mod Identifiers
pub mod RowAccess
pub mod Cache
pub mod Catalog
pub mod Jobs
pub mod Scripting
pub mod WriteApi
mod Examples
