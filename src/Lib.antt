-- ===== src/Lib.antt =====
-- Quosh: remote shells that survive their connections. A server owns a terminal per session; a
-- client sends numbered input over a control stream and receives screens; both speak the protocol of
-- one library.
--
-- The parts that are modelled, and their files:
--   Proto         crates/quosh-proto/src/lib.rs: errors, results and constants
--     Msg         the message types (MSG_*)
--     OutBuf      OutBuf, the unread bytes of a framed stream
--     FrameFeed   FrameFeed, one frame in flight with the control frames, the one screen and the last
--                 frame that wait behind it
--     Frame       encode_frame, peek_len, split_frame; Frame/Receive is the loop of recv_control in
--                 crates/quosh-client/src/lib.rs
--     Message     Hello, HelloOk, input, resize, acknowledgements, exit, error, validate_dims
--     Reader      the cursor that reads the messages of variable length
--     Auth        AuthHello, Challenge, Enroll, Assert, AuthOk, AuthFail
--     Screen      Screen and SharedScreen, their encodings and apply_newer
--     Utf8        the decoding of text that the messages carry (String::from_utf8_lossy)
--   Session       crates/quosh-server/src/session.rs
--     Pending     PendingWrites and advance_echo_ack
--     Handle      Session: what connections call; Handle/Laws what they may rely on
--     Owner       Owner::run, publish and drain_pty: step is one round of the select loop
--   Devices       crates/quosh-server/src/devices.rs: DeviceStore, its registrations and its tokens;
--                 Devices/Search the searches it makes, Tokens and Revoke what it promises
--   Transport     crates/quosh-server/src/transport.rs: the frames of a connection (drain_leftover and
--                 on_control), the inputs that wait (drain_busy); Transport/Admit the checks of a
--                 Hello, Transport/Rounds a round of run_transport, Transport/Cmds the channel
--   Webauthn      crates/quosh-server/src/webauthn.rs: the reasons for a refusal. Cbor is read_cbor and
--                 the keys of COSE, Ceremony the two ceremonies, with the conditions of each
--                 (Assertion, Registration) and what an authenticator writes (Authenticator)
--   Enroll        crates/quosh-server/src/enroll.rs: NonceStore, the nonces of enrolment links
--   Daemon        crates/quosh-server/src/helper.rs: the registry of sessions and the requests of the
--                 local socket; Daemon/Line is read_request_line
--   Auth          crates/quosh-server/src/auth.rs: the handshake of a browser, run
--   Trust         crates/quosh-trust/src/lib.rs: CertChain, its epochs, windows and hashes
--   Client        crates/quosh-client/src/lib.rs: the record Client and what it sends. Events has the
--                 events of an adapter, Recv the frames taken from the stream, Unacked the inputs
--                 that are kept, Keeps, Sends and Runs what each operation does to them, Wire the bytes
--                 that a client writes and the inputs that an owner is handed from them, Delivery
--                 and InOrder a client beside the owner of its session, Rounds and Progress what
--                 a new connection sends
--   Predict       crates/quosh-predict/src/lib.rs: the overlays of Predictor and apply; Predict/Cull
--                 kill_epoch and cull; Predict/Keys what a keystroke does to cells and cursors, with
--                 Press new_user_byte, Returns and Fits the parts that index a row, Lines backspace
--                 and new lines, Typed characters, Culls what cull leaves, Total every keystroke
--   Base, Bytes   shared: lists measured by native numbers, Boolean tests, machine integers as bytes
--
-- How they meet: a connection cuts its stream into frames (Frame), decodes a message (Message),
-- keeps an input until the channel has room (Transport), and hands it to the session
-- (Handle.try_input), which sends it to the owner (Owner, the event command). The owner queues the
-- bytes (Pending), writes them to the terminal, and publishes the screen with the checkpoint; a
-- connection sends it through a FrameFeed. The client (Client) numbers what is typed, keeps it until
-- it is acknowledged and sends it again on a new connection; Predict shows it before the screen does.
-- A browser is authenticated first (Auth): by a token of Devices, or with a challenge that a passkey
-- answers (Webauthn) or that enrols one (Enroll); it gets the hashes of Trust, and a session of the
-- registry (Daemon).
--
-- A method that changes its object takes and returns it. A byte is a number, an unsigned integer
-- keeps its wrap-around (% 2 ^ w), usize is 64 bits wide, and times are milliseconds. In a release
-- build a sum that overflows wraps, and so it does here. A vector that is read from an offset
-- (OutBuf, WriteChunk) keeps its offset.
--
-- What lies outside: the emulator is the record Emulator of Owner, with any state type; the
-- terminal, the child, the command channel and the clock are seen through the events and arguments
-- that carry what they answered; a watch channel is the value it holds. MAX_CELL_COUNT of the crate
-- blit_remote is an argument of validate_dims. Of the device store, serde_json and hex are the record
-- Codec, the random bytes are arguments, and so is whether the file could be written. The command
-- channel of a session is the record Channel, with what it took as its log. The frame state of
-- blit_remote is the record Frames for the screen codec and the record Grids for the predictor, LZ4
-- is the record Lz4. The client takes the predictor as the interface Predictions and floating point
-- as the interface F64.
-- Of the passkeys, serde_json, base64, SHA-256 and the check of a signature are the record Crypto; the
-- making of a certificate is the record Signer; what a handshake is answered by the streams, the clock
-- and the random numbers is the record Answers, and what a request of the local socket is, the record
-- Outside. The texts of errors are constructors there. The parser of the crate vte, the widths of
-- characters and the links of a frame are the record Host of Predict/Keys. A read of a cell that
-- leaves the bytes of its frame is none (Predict.try_cell_bytes); the callers take cell_bytes, which is
-- empty there. Client/Delivery leaves out of what was written the greetings and the frames of a resize,
-- a ping and a hang-up, which carry no input.
--
-- Not modelled: TLS and WebTransport, the start of a shell and the terminal (system calls), the
-- emulator (a wrapper of crates), the rendering of a frame as ANSI, the command line and the bindings
-- for WebAssembly (input and output around the client), and wt_fault.rs (faults that tests inject).
--
-- Fuel: Frame/Receive.drain, Transport.drain_leftover and Client.Events.recv_loop take five bytes at
-- least in a round that goes on, so a buffer's length and one more is enough.
-- Webauthn.Cbor.read_within is a recursion whose depth is its fuel; each level takes a byte, so that the
-- same fuel is enough.
pub mod Auth
pub mod Base
pub mod Bytes
pub mod Client
pub mod Daemon
pub mod Devices
pub mod Enroll
pub mod Predict
pub mod Proto
pub mod Session
pub mod Transport
pub mod Trust
pub mod Webauthn
