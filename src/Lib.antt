-- ===== src/Lib.antt =====
-- The reql driver, a client of RethinkDB written in Rust.
--
-- A query is built from commands on a client, encoded as JSON, written to a session of a connection
-- pool as one framed message, and answered by framed responses, which the driver turns into
-- documents or an error for the caller. The arguments of a command come from the macro `args!`; the
-- methods of the client are written by a build script. The files follow these parts.
--
-- Proto: the protocol messages Term and Datum of the crate ql2, and the term types of the
-- commands (src/commands/mod.rs).
-- Errors: src/errors.rs.
-- Types: src/types.rs. Types/FromJson is `Term::from_json`, Types/Encode is `encode` of a datum and
-- of a term; Types/Json and Types/Wire say which JSON a term stands for, and Types/Correct,
-- Types/Values and Types/Coercion compare the two functions with it; Types/Read is a reader of JSON,
-- the reference for what can be told from a text.
-- Commands: Commands/Arg is src/commands/args.rs, Commands/Client is src/commands/util.rs with the
-- macro `with_args!`, Commands/Closure the macros `var!` and `func!` of src/macros.rs.
-- Commands/Methods has the methods of src/commands/mod.rs, by groups, and the table of them.
-- Derive: the macro `args!`, derive/src/args.rs. Derive/Tokens is the token trees and the groups
-- that they are read to, Derive/Groups `group_by_comma`, `hash_from_tokens` and `Type::new`,
-- Derive/Emit `tokenise`, `body` and `process`; Derive/Emit/Run says what the written statements
-- do, where the meaning of the caller's code as it is written is a parameter, and Derive/Emit/Numbers
-- how closures are numbered.
-- Build: the build script, build/*.rs. Build/Config is the menu of config.rs, Build/Docs `gen_docs`,
-- Build/Command `Command::build`, Build/Output `Commands::generate` and `main`.
-- Io: src/commands/io/. Io/Frame is `write_query`, `read_query` and `wrap_query` of mod.rs on the
-- stream of Io/Stream. Io/Handshake is handshake.rs: `handshake` and `is_valid` of a session, with
-- Transcript, Final, Effects and Checks about them. Io/Response is `Request::handle`, Io/Submit is
-- `Request::process` and `Request::submit` of request.rs. Io/Cluster is the maps CONFIG and POOL
-- and the servers of a connection (mod.rs), Io/Cluster/Settings `Connection::set_config`, and
-- Io/Cluster/Dial `Session::new` of pool.rs; Io/Cluster/Status is the rows of the server table
-- (types/src/lib.rs) and the loop of `maintain` on them. Io/Calls is `connect`, `run` and the stream
-- of a response (mod.rs). Io/Threads has the writes of the threads to the two maps as steps, in any
-- order. Io/Maintain is the thread of `Connection::maintain`, and Io/Maintain/Lives puts it among the
-- others. Io/Options is about the options that `run` gets, Io/Submit/Written about a query's
-- text, Io/Submit/Endless about a reproducible query.
-- Programs: the programs examples/blocking.rs, minimal.rs and server-status.rs
-- (Programs/ServerTable) and map.rs (Programs/Sums); Programs/Futures is what they take from the
-- crate futures, and Programs/Arguments the tokens of their `args!`.
-- DateTime: `DateTime` of types/src/lib.rs; DateTime/Rows has the types there that are fields alone.
-- Examples: runs, and the theorems at concrete inputs.
--
-- Strings are lists of bytes; the letters and the white space that the build script looks at are
-- those of ASCII. A double is its 64-bit pattern, an `i32` of a response its 32-bit
-- pattern; a length is cut to 32 bits and a token to 64 bits as the code does. What comes from other
-- crates is a parameter: the numbers of the term types and the text of doubles (Formats), the
-- decoding of responses (Decoder), scram and the messages of the handshake (Crates), the response to
-- a probe (Probe), the addresses of a host and the opening of a pool (Outside), the rest of what a
-- request needs (Env), the streams of futures (Streams), `as_f64`, the token trees that syn reads
-- and their text, and the times of chrono. A stream is what the server sends, what has been
-- written, and the outcomes of the writing calls; the network is a function of time; a request's
-- pool is the list of the sessions that it hands out. The members of an object of `args!` stand in
-- the order in which the map gives them.
-- Loops that the structure of the data does not bound take fuel: `process` the length of the input
-- and one, since every response takes twelve bytes, and `loop` one more than the number of retries,
-- though the loop of a reproducible query has no bound; the counter of the attempts wraps around at
-- 64 bits, where a build with overflow checks panics.
-- `new` takes one unit for each call of itself; no fuel is enough for it in general.
-- `group_by_comma` takes one unit for each level of brackets and braces, and one more; whether
-- overflows are checked is a parameter of it.
--
-- Not modelled: logging, the capacity of a request's channel, the reading of the menu's YAML and of
-- token trees, and the parser of build/parsers.rs, which nothing calls.
pub mod Base
pub mod Proto
pub mod Errors
pub mod Types
pub mod Commands
pub mod Io
pub mod Programs
pub mod Derive
pub mod Build
pub mod DateTime
mod Examples
