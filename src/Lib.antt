-- ===== src/Lib.antt =====
-- Harmonic keeps a directory of a client and one of a server in step. This library models the parts
-- of the program that decide what is transferred and carry it out, and proves them correct.
--
-- A run goes as follows. The client walks over its directory and compares the result with the state
-- that it saved last (sync/state.rs); it sends the differences to the server (bin/server.rs), which
-- walks over its own directory, makes a plan with one action for each file (sync/state.rs) and
-- opens a session. For each action a stream of messages is opened, on which both sides answer with
-- the same handler (sync/handler.rs). The side that is to receive a file signs the blocks of its
-- old version (sync/state.rs, utils/hash.rs); the other side runs over its version, sends the
-- indices of blocks that the receiver has and literal bytes for the rest (sync/transfer.rs); the
-- receiver's writer applies these deltas to a temporary file and renames it (utils/writer.rs). A
-- client without the server's certificate gets it from the bootstrap service (server/bootstrap.rs)
-- for a one-time password.
--
-- The modules, and the code under src/ that each is about:
--
-- - Hash, with TableLow, TableHigh, Rotate, Rolling: utils/hash.rs. The methods `new`, `compute`,
--   `hash`, `rotate`, `roll` are functions of the same names on the record BuzHash; a panic is
--   `none`. Bits has the laws of xor.
-- - Path (Component, FilePath, is_absolute, starts_with, strip_prefix, join), Path.Keys (Ord),
--   Path.Spelling (PathBuf::from, to_str): the parts of std::path in use, on Unix. A path is its
--   list of components, so that the text of a path is the one its components give it; repeated
--   separators in a peer's text are not kept. Text: UTF-8.
-- - Error: utils/error.rs, and Outcome, the ways in which code ends. Io: results of the disk.
--   Proto: proto/harmonic.proto. Config: the record of sync/config.rs. Sink: the sending end of a
--   channel as state, which may close.
-- - Absolute: `get_absolute_path` of sync/transfer.rs. Transfer with BlockMap, Literals, Runs,
--   Tracks, Rounds, Rebuild, Sizes, Endless: `send_literal_chunks` and
--   `send_delta_from_block_signatures` of sync/transfer.rs. The loop's variables are the record
--   Progress; its branches are `take_block` and `take_byte`.
-- - Signatures: `generate_blocks_signatures` of sync/state.rs. Writer, Writer.Temporary,
--   Writer.Target (with Frame for the files that it leaves alone): `delta_writer` of
--   utils/writer.rs. Resync: these and Transfer together.
-- - Order, BTree: `Ord`, `BTreeMap` and `BTreeSet` as lists in the order of their keys. State: the
--   types of sync/state.rs; State.Compare: `compare_states`; State.Plan: `generate_sync_plan`;
--   State.Generate: `generate_state`; State.Saved: `save_state`, `load_state`, `timestamp_proto`.
-- - Handler: sync/handler.rs and `handle_sync_request_stream` of bin/server.rs, with Receive and
--   Signed for single messages, Writers and Confined for where it writes, and Tasks for the tasks
--   of several writers on one disk. Server: HarmonicService of bin/server.rs. Bootstrap:
--   server/bootstrap.rs. Client: the triggers of bin/client.rs; Client.Queue: the queue that its
--   tasks share, with the lock, as the steps of the tasks; Client.Security: client/security.rs;
--   Client.Cert: `get_cert` of bin/client.rs, with `CERT` and `FORCE_BOOTSTRAP` as the record
--   Process; Client.Start: `main` of bin/client.rs up to its loop, with the whole of `run_sync` as
--   `connected_sync`; Client.Pool: `send_data_to_server` of bin/client.rs as the steps of its loop
--   and its tasks; Client.Sync: `sync_file`, `send_state_to_server` and `run_sync` of
--   bin/client.rs. Config.Load: the functions of sync/config.rs, but for `socket_addr`, which
--   Config.Address has, with server/config.rs. Server.Identity: `get_identity` of
--   server/security.rs; Server.Start: `main` of bin/server.rs up to the services that it runs.
--   Storage: files that are read and written whole. Net: `SocketAddr` with its parser and its
--   printer.
-- - Examples: the results at concrete inputs. Prelude: shared names, lists and tests on numbers.
--
-- Bounds. `usize`, `u64` and `i64` have 64 bits and wrap as in a release build; bytes are numbers
-- below 256. Fuel: the sender's loop gets one more than the length of the file, as each round takes
-- a byte or a block, which has bytes unless the block size is 0 (Transfer.Endless);
-- `send_literal_chunks` gets one more than the length of its buffer; `chunks` gets the length of
-- the file. The dialogues of Client.Security get a round for each line that they read. The theorems
-- on them show that this is enough. Allocation is taken to succeed, also that of a window above
-- `isize::MAX` bytes in `BuzHash::new`, where `VecDeque::with_capacity` panics.
--
-- Foreign code is a parameter: blake3, path_clean, the walk over the disk, reads and times of
-- files, the codecs of serde_json, toml, dates and UUIDs, the texts of IPv6 hosts, rcgen,
-- local_ip_address, the lines of the terminal, and the clock. Where a theorem needs something of
-- it, that is a hypothesis: for blake3 that no block of the file has the strong checksum of a
-- different block of the other side (NoCollision), and for path_clean that it keeps a relative path
-- relative and leaves `..` only at the front (IsClean).
--
-- Tasks that run beside each other share channels and locks alone. A locked section is one step,
-- except that the loop of the client's `main` keeps its lock over several (Client.Queue). A channel
-- is the list of what went through it, and its end may come at any point (`closes` of a Sink,
-- `accepts` of a Writer); a writer's task is a function of the deltas that came through. HashMap is
-- an association list where it is only looked up, and a map in the order of the keys otherwise.
--
-- Not modelled: the connection and its encryption, the channel around the crate notify
-- (client/watcher.rs), logging and traces (utils/tracing.rs), timers, the parser of the command
-- line, the tests and the benchmark, since they are calls of foreign code without a decision of
-- their own.
pub mod Prelude
pub mod Bits
pub mod Hash
pub mod Text
pub mod Path
pub mod Error
pub mod Io
pub mod Proto
pub mod Config
pub mod Net
pub mod Storage
pub mod Sink
pub mod Absolute
pub mod Writer
pub mod Transfer
pub mod Signatures
pub mod Resync
pub mod Order
pub mod BTree
pub mod State
pub mod Handler
pub mod Bootstrap
pub mod Client
pub mod Server
pub mod Examples
