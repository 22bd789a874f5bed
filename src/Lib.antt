-- ===== src/Lib.antt =====
-- ForgeGrid: a relay of messages between agents, signed bootstrap bundles with a store against their
-- replay, and a coordinator that pairs workers and hands out jobs.
--
-- The parts and how they interact:
--   * internal/agentbridge/store.go keeps agents and messages in memory and in two JSON files.
--     Bridge/Models and Bridge/Store model it: a method under the mutex is one function that takes
--     the store and returns the new one with its results.
--   * internal/agentbridge/server.go answers the HTTP requests on that store. Bridge/Auth has the
--     failure counters, `authenticate` and `cleanupLoop`, Bridge/Server the routes and handlers;
--     `serve` is the whole of one request.
--   * internal/agentbridge/bootstrap.go makes and checks bundles. Bootstrap/Bytes and
--     Bootstrap/Payload have the signed bytes, Bootstrap/Bundle generation and decryption, and
--     Bootstrap/Validate the checks, over any replay store (`ReplayStore`).
--   * .agents/scripts/bootstrap-crypto/main.go has such a replay store in one file under a lock.
--     Replay models it, and Replay/Blob the write of acl_other.go beside it.
--   * internal/models, internal/store, internal/manifest, internal/director and internal/coordinator
--     are the coordinator: Coordinator/Models, Store, Requests, Pairing, Workers, Jobs, Manifest and
--     Server, with a function per handler; `serve` of Coordinator/Server is one request.
--     Coordinator/Start is the part of `Start` that makes an identity and a certificate.
--   * internal/network/tls.go makes certificates and pins them: Network.
--   * internal/execution has the profiles, the workspace path and the run of a program: Execution.
--   * internal/worker/worker.go is the worker: Worker has its state and credentials, Worker/Hardware
--     what it says of its machine, Worker/Pair the pairing and the heartbeat, Worker/Poll the polling
--     and cancellation, Worker/Execute a job, Worker/Start the worker mode of main.go.
--     Worker/Deployment puts it in front of the coordinator's `serve`: the network of the worker is
--     a function, and there it is the coordinator behind a listener (`Listener`) that has its base URLs, may have a
--     certificate, and reads the targets of the requests.
--   * internal/agentbridge/client.go is the relay's client: Bridge/Client, and Bridge/Client/Relay puts
--     it in front of the relay's `serve`. Bridge/Client/Commands, with Registered and Keys below it, is
--     internal/agentbridge/cli.go, Bridge/Client/Secure the protected write of acl_other.go, and
--     Windows with Windows/Config the access lists and the write of acl_windows.go.
--   * The commands of .agents/scripts/bootstrap-crypto/main.go are Bootstrap/Encrypt, which makes keys
--     and bundles, and Bootstrap/Apply, which decrypts a bundle and configures a client with it.
--   * Disk is package os as the stores call it, with its laws, Disk/Atomic the write through a
--     temporary file that both stores use, and Disk/Memory a file system that meets the laws.
--   * Prelude has what the modules share, Dict Go's maps, and Examples the results at concrete inputs.
--
-- What stands for Go: strings are native strings, sequences of code points whose UTF-8 bytes are
-- counted where Go takes their length; times are nanoseconds on the native numbers since Go's zero
-- time; unsigned integers are native numbers and signed ones ℤ. The modelled code brings none to
-- overflow but the timeout of a job in nanoseconds, which wraps at 64 bits as it does in Go. A map is
-- the list of its entries in the order in which `range` visits them, and what is proved holds for
-- every such list; the dispatch of manifests, which ranges over one map again and again, takes each
-- order as an argument. Random bytes, the clock and what a system call answers are arguments. The
-- loops are recursion on the lists they range over, so there is no fuel. Each request is one step:
-- the mutexes make the handlers of the coordinator and the methods of the stores atomic, and requests
-- to the relay are taken one after another.
--
-- Packages outside the repository are records of calls: the file system (Disk, and Files, KeyFiles,
-- Desk and Host where the code makes other calls of package os), encoding/json (StoreJson, RequestJson,
-- ReplayJson, WorkerJson, ReplyJson, ClientJson and ConfigJson; the records called Agree say that what
-- one side encodes the other decodes; a result that is raw JSON is read back as it is re-indented, and
-- the maps are read back up to the order of their entries), net/url on a target (the field parse of
-- `Listener`, with laws for plain ids and paths only), the crypto, base64, hex and time packages (Crypto with its Laws,
-- and Pki), package windows (Security), the paths and processes of a worker's machine (Site, Machine
-- and Paths) and the environment (Surroundings). sha256 in hexadecimal is a function on texts or bytes
-- of which nothing is assumed.
--
-- A worker's job is one step: its two updates are sent one after the other, and the coordinator serves
-- no other request in between. The lines of a program's two outputs come in some order, which is an
-- argument. What executeJob waits for is an argument: the exit of the program, its deadline and the
-- cancellation of its context.
--
-- Not modelled: the HTTP and TLS transport, timers and sleeps, the parsing of flags and the wiring of
-- the commands, the polling for the lock file, the control of processes and the protection of data on
-- Windows, which are I/O; the dashboard and the start of a browser; the second copy of the access lists
-- in bootstrap-crypto, with the write of a protected file on Windows beside it.
pub mod Prelude
pub mod Dict
pub mod Disk
pub mod Bridge
pub mod Bootstrap
pub mod Replay
pub mod Coordinator
pub mod Network
pub mod Execution
pub mod Worker
pub mod Windows
pub mod Examples
