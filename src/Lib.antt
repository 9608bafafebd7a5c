-- ===== src/Lib.antt =====
-- A model of mero-kms, the key management service of mero-tee, and of mero-inference-gate, the
-- attested front of a private inference machine, and what is proved of them.
--
-- A replica of the service holds its cluster's root, a 32-byte secret, in memory only. From it
-- every other key is derived. Nodes ask /challenge for a token, send a TDX quote over its nonce to
-- /get-key and are answered with their storage key; replicas hand the root to each other over
-- /cluster/join; and a majority of replicas remembers, for each node, how far its store has come
-- (the rollback counters), so that an old copy of a store is noticed.
--
-- The inference gate ends TLS inside its machine. /attest answers a client's nonce with a quote that
-- commits to the gate's TLS key, the loaded configuration and the GPU's evidence; /v1/ is passed to
-- the model server for callers with an access token.
--
-- Which file models which part (paths under mero-kms/src, but for the gate's):
--   Errors          handlers/errors.rs: ServiceError and its HTTP form; Result
--   Measurement     util.rs, measurement.rs: normalize_hex, HexMeasurement, is_debug_td
--   Backend         backend.rs: the root, set_root, with_root, the derived keys, the start checks
--   Policy          policy.rs and the enforcement in handlers/get_key.rs; theorems in Policy/Roles,
--                   with lemmas in Policy/Registers and Policy/Entries
--   Challenge       stateless_challenge.rs: issue, open_id (`open`), spend; theorems in
--                   Challenge/Tokens, Challenge/Spent and Challenge/Abstract
--   Counters        counters.rs: the data and merge; Counters/Replica the messages, answers and
--                   rounds; Counters/Ops read, write, raise_entry (`raise`), reset, sync_once;
--                   theorems in Counters/Merge, Growth, Steps, Quorum, Answers, Genuine, Ready,
--                   Rounds, Acknowledged and Taken
--   Sealed          sealed.rs: the transport key, the bindings, the sealing of a released key
--   Attest          handlers/attest.rs; theorems in Attest/Separate
--   Env             config/env.rs: flags, lists and measurements in the environment
--   Config          config/mod.rs: Config and the settings; Config/Profile the profiles, Config/Load
--                   from_env; theorems in Config/Checks, Entries, Replicas and Apart
--   State           handlers/mod.rs: AppState
--   PeerId          handlers/challenge.rs: the shape of a peer id, the challenge handler
--   GetKey          handlers/get_key.rs: release_key and what it calls; theorems in
--                   GetKey/Passed, GetKey/Release and GetKey/Paths, with lemmas in
--                   GetKey/Authorized, GetKey/Signed and GetKey/Spending
--   Rollback        handlers/rollback.rs: request MACs, raise and reset, the acknowledgement;
--                   theorems in Rollback/Calls
--   Cluster         cluster.rs: join nonces, bindings, sealing of the root, check_peer; Cluster/Join
--                   the handlers and the joiner; theorems in Cluster/Nonces, Sealing,
--                   Given, Trusted and Exchange
--   Router          handlers/mod.rs: the calls between replicas, the health report; Router/Startup
--                   main.rs, join_until_ready and sync_until_ready; theorems in Router/Joined,
--                   Synced, Started, Later and Runs (a replica's requests as steps)
--   Gate            mero-inference-gate/src: Gate/Tokens tokens.rs, Gate/Binding attest.rs,
--                   Gate/Evidence gpu.rs, Gate/Server server.rs, Gate/Server/Start main.rs;
--                   theorems in Gate/Tokens/Allowed, Gate/Binding/Collision, Gate/Server/Attested,
--                   Gate/Server/Guarded and Gate/Closed
--   Text, Map, Exec, Crypto, Prelude
--                   Rust's strings and maps, state passing with errors, other crates, helpers
--   Examples        stand-ins for other crates and the theorems at concrete inputs
--
-- How the parts meet: AppState holds the configuration, the backend, the join nonces, the spent
-- challenges and the counters. release_key opens the challenge (Challenge), verifies signature and
-- quote, asks Policy for the role, reads the counters (Counters/Ops), spends the challenge and
-- derives and seals the key (Backend, Sealed). A handler is a function from the state to the state
-- and a result; what it wrote before an error stays written.
--
-- Arguments of the model: the crates hex, base64, ring, sha2 and curve25519-dalek (the record
-- Crypto, with their documented laws where a theorem names them), the attestation crate, libp2p's
-- keys, serde_json, the clock's answers, the random bytes, what each peer answers, the process
-- environment and files, the parser of socket addresses, the run of the GPU evidence helper, the
-- quote, and the gate's HTTP client: how it parses the text of a target, the redirects it follows and
-- the answer it ends with. While a call between replicas waits, other requests may change the
-- counters: Net.meanwhile says how.
--
-- Bounds: numbers of type u64 are natural numbers; where the source saturates the model does, and
-- big-endian bytes keep eight bytes. No definition runs on fuel except the printing of a number,
-- whose value is enough: each step divides it by ten.
--
-- The background loops that join a cluster and sync its counters are functions of the list of the
-- rounds they have met, which may be any list.
--
-- Not modelled: mock attestation (a feature that is off by default), log lines, lock poisoning, the
-- pauses of the background loops, the HTTP routers, sockets and signals, the
-- generation of the gate's TLS certificate, and the semaphore that bounds concurrent attestations.
pub mod Prelude
pub mod Map
pub mod Text
pub mod Env
pub mod Errors
pub mod Crypto
pub mod Exec
pub mod Measurement
pub mod Backend
pub mod Config
pub mod Counters
pub mod Challenge
pub mod Policy
pub mod Sealed
pub mod Cluster
pub mod Attest
pub mod State
pub mod PeerId
pub mod GetKey
pub mod Rollback
pub mod Router
pub mod Gate
pub mod Examples
