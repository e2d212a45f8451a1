-- ===== src/Lib.antt =====
-- Faasta: a server that publishes and runs functions, each a WebAssembly component.
--
-- The program. A client publishes an artifact under a name, over RPC or by an HTTP upload. The service
-- asks GitHub who the token belongs to, checks the name, the size, the ownership and the limit of ten
-- projects, writes the artifact by way of a temporary file, and records the owner in SQLite. A request
-- to a function is routed by its host or its path to a name, whose component is compiled, cached and
-- run with stores of its own for keys, blobs and SQL. Calls are counted in memory and flushed to a
-- second database from time to time.
--
-- Files and the code they model, paths from the repository's root:
--   Prelude        texts as lists of code points, maps as association lists, results, actions on a
--                  state, decimal and hexadecimal numerals, UTF-8, signed 64-bit integers
--   Db             server/src/db.rs: `Database`, one function for each method
--   Codec          the binary encoding, as an interface
--   GithubAuth     server/src/github_auth.rs: `GitHubAuth`; Tokens, Limit, Persistence prove
--   Server         the state: `FaastaServer`, the functions directory, the component cache; and
--                  `Outside`, what a request meets of GitHub, the clock and failing devices
--   Rpc            server/src/rpc_service.rs: `publish_impl`, `unpublish_impl`, `list_functions_impl`,
--                  `get_metrics_impl`;
--                  Service runs requests one after another, Publish and Unpublish state who may do what,
--                  Quota the limit, Commit what a publication leaves, Others what it leaves alone; Keeps is shared by
--                  them
--   Metrics        server/src/metrics.rs; Recording follows calls, flushes and restarts, Flush one flush
--   Tenant         `TenantId`, `stable_tenant_hash` of server/src/wasm_function.rs; Hash, Isolation
--   Sql            the SQL stores of server/src/wasm_function.rs: here `validate_single_statement`, `rewrite_qmark_params`, `quote_pg_ident`;
--                  Values has the parameters and rows, Postgres the providers and the two calls of a
--                  connection; Scan reads a statement in one pass, Statements, Placeholders, Identifiers,
--                  Transactions and Stored prove
--   Routing        `resolve_function_name`, `sanitize_function_name` of server/src/wasi_server/mod.rs;
--                  Names, Urls
--   Wire           requests and responses between the server and a function, in
--                  server/src/wasi_server/mod.rs and server/src/wasm_function.rs; Delivery
--   Keyvalue       `TenantKeyValue`, `TenantBucket`, `ValkeyBucket` of server/src/wasm_function.rs;
--                  Tenants keeps functions apart, Refinement and BucketMap compare a bucket with a map
--   Blobstore      `TenantBlobstore`, `TenantContainer`, `S3Container` of server/src/wasm_function.rs;
--                  S3 has the container, Tenants, Listing and Objects prove
--   Http           server/src/main.rs, `FaastaServer::invoke` and `WasmFunctionRuntime`; Front has the handlers of
--                  RPC, metrics and health and the choice among all; Guards and Answers prove; Lasting follows a
--                  function through other requests
--   Cli            cli/src/main.rs, run.rs, init.rs and github_oauth.rs: the state of the user's machine and the RPC
--                  client; Config, Urls, Endpoint, Oauth, Deploy, Init and Create (a new project), Auth (auth.rs),
--                  Requests and Project (the package of the current directory) model, Login, Reached,
--                  LoginFlow, Deployment (with the server behind the client), SkipAuth, Auth.Projects,
--                  Project.Package and Create.Untouched prove
--   Cert           server/src/cert_manager.rs; Renewal
--   Backends       the stores that the environment chooses, in server/src/wasm_function.rs
--   Start          `main` of server/src/main.rs up to its listeners; Restart proves
--   Guest          the library that functions are written with: faasta/src/kv.rs and the values of
--                  faasta/src/sql.rs; Statements has the calls of faasta/src/sql.rs, Blobs faasta/src/blob.rs,
--                  Responses faasta/src/http.rs and lib.rs; Buckets, Statements.Undone, Objects (with the server's stores behind the bindings) and Names prove
--   Macros         `handler` of macros/src/lib.rs; Injection proves
--   Tests          values on which the theorems are tried
--
-- Conventions. Code that is not in the repository is an argument: GitHub's reply, bincode, JSON, Valkey,
-- S3, Postgres, SQLite's connections, Porkbun, wasmtime, the http and url libraries, the RPC transport, the
-- clock, cargo, Unicode's tables above ASCII, and for each statement of the metadata database and each call
-- of the file system whether it fails. A failing statement changes nothing; a failing write leaves a part
-- of the file. Log lines and printed lines are left out. 64-bit sums wrap round, as in a release build.
-- Loops are recursion on the list or the text they read; taking the scheme off a token runs on as many
-- rounds as the token has characters, and `bearer_token_lem` shows that these are enough; a listing of
-- objects runs on rounds, and `list_objects_lem` shows that one more than the bucket has keys are enough;
-- the loop over a stream of names has one more than the stream has reads.
--
-- Not modelled: the text of the project template, the RPC and QUIC transport and
-- the examples. Requests run one after another. On the one thread of the runtime nothing interrupts a
-- publication behind GitHub's answer, nor a call of a function up to its load; calls that overlap while
-- their components run are not modelled. What calls of functions do outside of
-- the server's maps, to sandbox directories, stores and metrics, is the list of events `past`: whatever
-- depends on it, a component's answer first of all, is an argument that takes the events so far.
pub mod Prelude
pub mod Sql
pub mod Tenant
pub mod Routing
pub mod Db
pub mod Codec
pub mod GithubAuth
pub mod Server
pub mod Rpc
pub mod Metrics
pub mod Wire
pub mod Keyvalue
pub mod Blobstore
pub mod Http
pub mod Cli
pub mod Cert
pub mod Backends
pub mod Start
pub mod Guest
pub mod Macros
pub mod Tests
