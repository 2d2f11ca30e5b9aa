-- ===== src/Lib.antt =====
-- A verification library for morsh, a mobile shell: the state synchronisation protocol that carries a
-- terminal over an unreliable network.
--
-- The program's parts. A client and a server each hold a `Transport` (crates/morsh-network). Its
-- sender keeps the history of the states that it has sent and makes the instruction to send next; an
-- instruction carries a diff from a state that the peer holds to the current one, an acknowledgment,
-- and the oldest number still needed. A `Connection` compresses the instruction, cuts it into
-- fragments, numbers and encrypts each (crates/morsh-crypto) and hands it to a socket. On the other
-- side the connection authenticates a datagram, refuses its own direction, takes timing and the
-- peer's address from fresh packets only, and gives the fragment to the assembler; a complete
-- instruction goes to the transport, which applies the diff to the state that the instruction names
-- and files the result by its number.
--
-- Which file models what:
-- - Common: lists, bytes, Boolean tests and results, shared by all. `Result` is Rust's, with a
--   constructor for a panic.
-- - Proto: proto/transportinstruction.proto as the record that prost generates, and the crates prost
--   and flate2 as the parameter `Wire`.
-- - Crypto.Nonce, Crypto.Session: crates/morsh-crypto/src/nonce.rs and session.rs. `Crypto.Cipher` is
--   AES-128-OCB3, the parameter `Cipher`. A session is its key and the count of encrypted blocks;
--   `Crypto.Session.Limit` follows it over many packets.
-- - Network.Constants, Network.Rtt: crates/morsh-network/src/constants.rs and rtt.rs.
-- - Network.Fragment, Network.Fragmenter, Network.Assembly: `Fragment`, `Fragmenter` and
--   `FragmentAssembly` of crates/morsh-network/src/fragment.rs. `Assembly.place` and `finish` are the
--   two halves of `add_fragment`. `Assembly.Collector` is what the assembler promises.
-- - Network.Connection: crates/morsh-network/src/connection.rs. `Outgoing` has `encrypt_fragment` and
--   `send`, `Incoming` has `process_incoming`: `gate` is its checks, `refreshed` what a fresh packet
--   changes, `assembled` the call of the assembler. Sockets and addresses are numbers.
-- - Network.State, Network.Sender: crates/morsh-network/src/state.rs and the `TransportSender` of
--   transport.rs, with `Timers` (`calculate_timers`) and `Tick` (`tick` and the instructions it
--   makes). The trait `State` is a record of operations.
-- - Network.Transport: the `Transport` of transport.rs. `process_instruction` is cut into
--   `acknowledged`, `referenced`, `applied` and `filed`, in the order of the code.
-- - Network.Transport.Driving: `Transport::tick` and `wait_time_ms`, and `make_chaff` of fragment.rs.
-- - Network.Transport.Calls: the calls that read the transport or pass on to its parts.
-- - Crypto.Base64Key: crates/morsh-crypto/src/base64_key.rs, over the parameter `Base64`.
-- - Statesync.UserStream: crates/morsh-statesync/src/user_stream.rs, over the parameter `UserWire`, the
--   crate prost for the messages of proto/userinput.proto.
-- - Prediction.Notification: crates/morsh-prediction/src/notification.rs without the escape codes that
--   `render` puts around the text.
-- - Prediction.Overlay, Prediction.Engine: crates/morsh-prediction/src/overlay.rs and prediction.rs. The
--   engine's file has its state and settings, `Cells` the rewriting of a row, `Keys` the function
--   `new_user_byte` and `Validate` the function `validate_predictions`. `Line` says what editing a
--   line is. The map of rows is the list of its rows by number. A panic is `none`.
-- - Statesync.Complete: crates/morsh-statesync/src/complete.rs, over the parameters `HostWire`, the crate
--   prost, and `Vt`, the emulator. Its children: the echo ack, the emulator against the screen, and diffs. A
--   reading of an emulator may fail; each comes right after a write or a resize, so that the emulator
--   decides about it.
-- - Terminal.Emulator: crates/morsh-terminal/src/terminal.rs, over the parameter `Vt`, the crate
--   libghostty-vt. Terminal.Equality: the derived `==` of snapshots.
-- - Terminal.Snapshot: crates/morsh-terminal/src/snapshot.rs. Terminal.Display: display.rs beside it, the
--   changes of modes and the scroll; its child `Drawing` has the styles, `full_redraw` and `diff`.
-- - Client.Utf16: `Utf16ToUtf8` of crates/morsh-client/src/input.rs.
-- - Client.Escape: crates/morsh-client/src/input.rs up to `publish`; the channel to the main loop is the
--   list of what was sent and the number of sends that its receiver stays for.
-- - Client.Input: `handle_term_event` of the same file, over the transport, the predictor and the status
--   bar. Client.Frame: `apply_overlay` of crates/morsh-client/src/frame.rs.
-- - Network.Sync: a sender, a receiver and a network between them, as runs of events. `Made` says how a
--   received state has come about. No law of the states is assumed but that they have no prefixes, which
--   is so for the terminal (`Statesync.Complete.complete_state`).
-- - Tests: the theorems at concrete inputs, with stand-ins for the parameters.
--
-- Conventions. Machine integers are natural numbers with their wrap-around written out. An `Instant`
-- is a number of nanoseconds, and a function that reads a clock takes the reading as an argument, or
-- the readings where it reads it many times.
-- `chunks` recurses on the length of its list, which is at least the number of chunks. A String error
-- is a constructor, in Terminal and Statesync `none`. Where an index out of range would panic in the
-- histories of states, a stand-in is read. In Prediction and Client a panic is `none`. Decimal numbers
-- are printed with at most 20 digits, which is enough below 2 ^ 64. A row out of range of a screen is
-- read as empty.
--
-- Not modelled: sockets and the event loops, which are input and output; random bytes, which are
-- arguments; the key map of crates/morsh-terminal, which calls a key encoder; how the client writes
-- a frame and reads its input in threads (crates/morsh-client: output.rs, lib.rs); the server, the
-- start over ssh and the wrapper, which are processes, sockets and command lines.
pub mod Common
pub mod Proto
pub mod Crypto
pub mod Network
pub mod Statesync
pub mod Prediction
pub mod Terminal
pub mod Client
pub mod Tests
