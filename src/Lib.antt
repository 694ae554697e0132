-- ===== src/Lib.antt =====
-- The collection server of HyperVec: a vector index module behind a small database of collections, each
-- with its metadata, its rows in SQLite, its index file and a bundle format to move it elsewhere.
--
-- The program's parts. `HypervecServerEngine` (src/python/hypervec_server_engine.py) has a method for
-- each request. It holds a `MetaStore` (src/python/hypervec_meta_store.py), which keeps the entries of
-- all collections in one JSON file, a `ScalarStore` (src/python/hypervec_scalar_store.py), which keeps
-- the rows of each collection in a table of SQLite, a directory of files for each collection, and in
-- memory the loaded indexes and a cache of scalars. A method that changes a collection takes its `RWLock`
-- (src/python/rwlock.py) to write, and a search takes it to read. Bundles are written and read by
-- src/python/hypervec_bundle.py. Two servers pass requests on to one engine, an HTTP server
-- (src/python/hypervec_http_server.py) and a gRPC server (src/python/hypervec_grpc_server.py). The client
-- library (pyhypervec/pyhypervec/client.py) speaks HTTP itself and gRPC through
-- pyhypervec/pyhypervec/_grpc_transport.py.
--
-- Which file models which part.
--   Common        helpers: tests on numbers, lists, dictionaries, results, and the monad of methods
--   Json          JSON values, Python's `str` of them, and documents with their keys in order
--   Library       what is taken from outside, as records: `Codec` (json, hashlib, zlib's sizes, numpy's
--                 float32 conversion) and `Hypervec` (the compiled index module)
--   Rwlock        src/python/rwlock.py: the lock's fields, and threads that step from one critical
--                 section to the next; Rwlock/Safety and Rwlock/Progress have its theorems
--   Names         `validate_collection_name`; Names/Tables has `_table` and `_staging_table`, and the
--                 identifiers that SQLite takes them for
--   Meta          src/python/hypervec_meta_store.py: Meta/Defs the entry, Meta/Codec `to_dict` and
--                 `from_dict`, Meta/Store the store, with the text of its file
--   Scalar        src/python/hypervec_scalar_store.py: Scalar/Defs the live table, Scalar/Import import
--                 and staging, Scalar/Laws the theorems
--   Bundle        src/python/hypervec_bundle.py: Bundle/ZipTime, Bundle/Lines (the JSON lines),
--                 Bundle/Labels (`validate_index_label_mapping`), Bundle/Archive (`create_bundle`,
--                 `read_bundle`)
--   Engine        src/python/hypervec_server_engine.py, a file for each group of methods: Engine/Schema,
--                 Engine/IndexConfig (`_make_index`), Engine/State, Engine/Lifecycle, Engine/Insert,
--                 Engine/Flush, Engine/Filter, Engine/Search, Engine/Upload, Engine/Export,
--                 Engine/Import, Engine/Recover, Engine/Purge. The theorems stand in modules below these.
--                 Engine/Server has the whole server and `list_collections`, `describe_collections`;
--                 Engine/Answer what the methods answer to a request
--   Http          src/python/hypervec_http_server.py: Http/Routes the functions of the routes, Http/Router
--                 how a request finds its route, Http/Isolation one collection beside the others
--   Grpc          src/python/hypervec_grpc_server.py: Grpc/Servicer the rpcs
--   Client        pyhypervec/pyhypervec: Client/Calls the calls, Client/Rest the HTTP requests and
--                 Client/Stub the rpcs that they make, Client/Downloads what is saved, Client/Http2 the
--                 loops of HTTP/2, Client/Uri `parse_uri`, Client/Target where a request goes,
--                 Client/Schema the schemas. Client/Url is what is used of `urllib.parse`, with `urljoin`
--                 in Client/Url/Join. Client/Sent, Client/Routing, Client/Reach and
--                 Client/Schema/Laws set the client against the servers, and Client/Agreement one
--                 server against the other
--   Tests         samples, and the theorems at them
--
-- How state is modelled. `Collection` of Engine/State is what the server has of one collection: its entry,
-- its two tables, its files and what is in memory. A method takes it and returns a result or a Python
-- exception beside the new collection, since what was written before a raise stays written. The write lock
-- makes a method one step; a crash is modelled for the import and for the removal, whose durable writes
-- are given one by one. `Server` of Engine/Server is everything that the server has: one database for all
-- collections, whose tables are found without regard to case, and the dictionaries by names. A call views the collection of its name, runs the method and
-- puts the collection back. A handler of a route or an rpc takes a server to its answer and the new server.
-- The clock is an argument, and a time is a number of ticks. A text that the program looks into is a list
-- of code points, any other is a `String`; a vector is the list of its float32 words.
--
-- Bounds and fuel. Python's integers are unbounded, and none of the counters below can be negative. The
-- fuel of the decimal digits of n is n + 1, which is enough, since a number has at most as many digits as
-- its value, and one. The fuel of the loop that sends a request body is the length of the body and the
-- number of receptions, and one. All other loops are structural.
--
-- Not modelled: the Python bindings of the index module and its examples, and what the servers and the
-- client take from FastAPI, grpc, urllib.request, httpx and h2, as far as the decorators, request models and
-- messages do not fix it; the start of the servers; SQLite's journal, VACUUM and secure deletion; log
-- messages and the texts of exceptions;
-- failures of the file system; the limits that grpc and protobuf put on messages and their integers; JSON bodies and messages of another
-- shape than the program's own client sends; URLs with letters outside ASCII. The Python wrappers of
-- src/python/class_wrappers.py and src/python/extra_wrappers.py work on raw memory of the compiled module,
-- and hypervec_pb2.py and hypervec_pb2_grpc.py are generated.
pub mod Bundle
pub mod Client
pub mod Common
pub mod Engine
pub mod Grpc
pub mod Http
pub mod Json
pub mod Library
pub mod Meta
pub mod Names
pub mod Rwlock
pub mod Scalar
pub mod Tests
