-- ===== src/Lib.antt =====
-- Orange FRP: the server (server-package/crates/frp-game-server) and the types that it shares with
-- its clients (server-package/crates/frp-game-common).
--
-- A client is a user of the server's configuration. It seals its requests with the user's secret; the
-- server authenticates them, limits their rate, rejects their repetition, and answers with the user's
-- tunnels. For every tunnel a controller task listens on the public port and copies the traffic to a
-- backend port, where FRPS serves the user's client; FRPS asks the server whether a client and its
-- proxies are known. Every byte passes the gate of the user, which holds the quota and the speed limit,
-- and is reported to the accounting task, which adds it to the configuration.
--
-- Files:
--   Prelude, Prelude/*   equality, Boolean tests on numbers, lists, sets and maps as lists, results,
--                        texts (a text is the list of its scalar values)
--   Utf8                 the UTF-8 of texts
--   Json                 serde_json values, as far as the server reads them
--   Floats               f64 as an interface with the laws that are used; whole numbers satisfy them
--   Tunnel, Tunnel/*     frp-game-common/src/model.rs: normalize_tunnels, proxy_name_for,
--                        parse_frp_version_text, normalize_server, ServerProfile::title
--   Crypto, Crypto/*     frp-game-common/src/crypto.rs: encrypt_payload, decrypt_payload and the pair
--                        for stored texts
--   Config, Config/*     frp-game-server/src/storage.rs: the types, normalize_loaded_config,
--                        allocate_backend_port, the helpers for passwords
--   Replay, Replay/*     frp-game-server/src/app.rs: ReplayGuard
--   RateLimit, RateLimit/*  frp-game-server/src/app.rs: ApiRateLimiter
--   Gate, Gate/*         frp-game-server/src/controller.rs: UserGate
--   Accounting, Accounting/*  frp-game-server/src/controller.rs: add_event, drain_events,
--                        flush_pending, spawn_accounting_task
--   Controller, Controller/*  frp-game-server/src/controller.rs: TrafficController, copy_limited
--                        (Copy), run_udp_session (Datagrams), and run_tcp_listener and
--                        run_udp_listener as steps (Listeners)
--   Api, Api/*           frp-game-server/src/app.rs: decrypt_and_auth, traffic_summary,
--                        normalize_user_tunnels, the answers to FRPS, the handlers of the requests
--   Storage, Storage/*   frp-game-server/src/storage.rs: the tables of create_schema with their
--                        constraints (Tables), write_snapshot (Snapshot), read (Read), the recovery of
--                        passwords (Recover), the migration of config.json (Legacy), and Storage with
--                        initialize, read, save and create (Operations); the other files prove
--   Admin, Admin/*       frp-game-server/src/app.rs: the prompts and checks of the administrator's
--                        commands (Admin), the commands that change users (Commands), new_config, init
--                        and setup (Setup); the other files prove
--   Update, Update/*     frp-game-server/src/app.rs: command_check_update with what it calls
--   Samples, */Tests     concrete inputs
--
-- State is passed explicitly, and failures are values of FrpGameError, CryptoError and Error, whose
-- messages are constructors. Machine integers are natural numbers: u64 counters saturate as in the
-- source, the i64 of the clock check is written out as two's complement, and usize has 64 bits. The
-- INTEGER columns of SQLite are not negative here, and sql_i64 keeps its bound.
-- A HashMap is an association list and a HashSet a list; the order of an iteration is that of the list.
-- An Instant is a number of nanoseconds that the caller passes.
--
-- A listener and the tasks that it spawns run concurrently: a step relation has one step for each thing
-- that they do, and another listener may take or give back a permit between any two.
--
-- Loops are structural recursion over the list that they traverse. Four run on fuel or on what the
-- environment brings: allocate_from counts the 40000 ports of the range, decimal_from the five digits of
-- a u16, open_installer the eight names of the source, and the waiting loop of a gate the wake-ups that
-- come.
--
-- Parameters stand for code of other crates: Base64, HKDF, AES-GCM, SHA-256, Argon2, the comparison of
-- subtle, the printer and parser of serde_json, the parser of url and the random identifiers of uuid.
-- Their documented behaviour is a hypothesis where a theorem needs it, and the tests satisfy it.
-- Whether a socket can be bound and whether a write succeeds are parameters as well. The handlers and
-- the accounting task take Storage::save as a parameter; Storage has the save that they call, and shows
-- that it is what the handlers count on. An update takes the HTTP client, semver, the reader of the
-- manifest, files and processes as parameters. The derived readers of the old config.json are a parameter, and so
-- are the draws of rand. The lines that an administrator types are a list; a prompt asks again while an
-- answer is refused, by recursion on that list, and fails at its end.
--
-- SQLite itself is not code of the repository. A table is a map from its primary key, a statement is
-- what it does to the tables or a violated constraint, and a transaction that fails changes nothing.
--
-- Not modelled: failures of the disk, permissions of files and columns that an older schema lacks; the
-- cancellation of listeners; the menu, the printing and the check for root around the commands that
-- change users; and the management of services and processes, which is input and output.
mod Prelude
pub mod Tunnel
pub mod Utf8
pub mod Json
pub mod Crypto
pub mod Config
pub mod Replay
pub mod Floats
pub mod RateLimit
pub mod Gate
pub mod Accounting
pub mod Controller
pub mod Api
pub mod Storage
pub mod Admin
pub mod Update
pub mod Samples
