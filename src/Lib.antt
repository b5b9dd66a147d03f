-- ===== src/Lib.antt =====
-- devpipe keeps development environments on a machine and their terminals open, and reaches them
-- from a laptop. This is a model of the parts of devpipe/src that hold its logic, with the
-- theorems that make them correct.
--
-- The parts. A host (devpipe/src/host.rs) holds a table of environments, each on a backend
-- (devpipe/src/backend), and keeps its table in a private file. An environment
-- (devpipe/src/environment.rs) starts and finds the sessions in it: each terminal is a session
-- (devpipe/src/session.rs), held by a keeper process (devpipe/src/keeper.rs), which shows an
-- attaching client the screen by a replay (devpipe/src/replay.rs), speaks frames
-- (devpipe/src/proto.rs) over a unix stream and scans what is printed for markers
-- (devpipe/src/marker.rs). A client has one connection to the host (devpipe/src/serve.rs), over
-- which it asks for environments and sessions and on which all its panes are multiplexed. A laptop
-- keeps a list of machines (devpipe/src/machines.rs), reaches one over an ssh tunnel
-- (devpipe/src/tunnel.rs) and names a place by a path. A relay (devpipe/src/relay.rs) introduces
-- clients to machines that have dialled out to it, and checks who may enrol and who may reach by
-- keys (devpipe/src/keys.rs). An environment is given secrets from a file
-- (devpipe/src/secrets.rs). The commands (devpipe/src/main.rs) put these together.
--
-- The files. Prelude and its children hold the shared notation, lists over the native numbers,
-- results, and texts as lists of code points, with trimming, UTF-8 and decimal numbers. Store is
-- write_private of host.rs. Proto is the frame codec, with the messages in Proto/Messages, the
-- control frames in Proto/Control and the theorems in Proto/Codec. Marker is the scanner:
-- Marker/Reference compares it with one that keeps every payload whole, Marker/Chunks is about
-- chunks, Marker/SafeUrl about what it lets through, Marker/Bounded about its memory, and
-- Marker/Recovery about markers after any text. Keeper/Framing is write_frame and read_frame,
-- Keeper/Messages what is said with them, Keeper/Sockets the names of the sockets in the runtime
-- directory and whose they are. Keeper/Run is the loop of the keeper process, with
-- Keeper/Run/Grace on when it leaves; Keeper/Serving what it says on one connection (serve_one),
-- with Keeper/Serving/Attached on the frames of an attached client, and Keeper/Serving/Joined on its
-- place in the channel while the session goes on, of which Joined/Output is the theorem; Keeper/Link the daemon's end. Environment is
-- what an environment does with its sessions, over a Room that holds the sockets, the keepers
-- started and told to end, the sessions watched and the announcements: Environment/Listing is
-- about its description, Environment/Attaching about starting and resuming. Serve is the state of
-- a client's connection, with the tasks that carry output and news; Serve/Control is one request
-- of the client and what it calls on the host, the environment and the secrets, Serve/Talk the
-- greeting and the loop. Serve/Replies is about what is answered, Serve/Panes about the channels
-- in use, Serve/Feeding about frames for a pane, Serve/Relaying about a session's output,
-- Serve/Greeting about who is turned away, and Serve/Making about an environment whose clone
-- fails. Keys is the key registry, with Keys/Lookup on what a token opens and Keys/Saved on its
-- file. Secrets is the file of secrets, with Secrets/Lines on lines and Secrets/Rewrite on its
-- operations. Tunnel has Target::parse, parse_port and resolve, with Tunnel/Targets and
-- Tunnel/Ports; Tunnel/Carry is what ssh is run with and the wait for its forward. Machines has
-- the registry, the paths (Spot) and the choice of a route, with Machines/Registry and
-- Machines/Paths. Backend has the specification of an environment and the local backend,
-- Backend/Docker the argv of each call of the container runtime and what is decided on its
-- answers, with Backend/Docker/Lifecycle on what the calls leave of a container and
-- Backend/Docker/Ports on the ports it is given. Host is the table of environments and the calls
-- on it, with Host/Table on the table as a map, Host/Invariant on histories and Host/Race on one
-- call of create and on two at once; Host/Token is resolve_token, and Host/Opening is open with
-- the state file, with Host/Opening/Restart on a host that is opened again. Relay is the relay's
-- end, each task cut at its awaits: Relay/Invariant is about any interleaving of the tasks' calls,
-- Relay/Access about tokens, Relay/Tickets and Tickets/Once about tickets, Relay/Leak about an enrolment whose reply fails;
-- Relay/Dialling is the loops of the ends that dial. Client is the greeting from the client's side
-- (devpipe/src/client.rs), with Client/Welcome on a client and a host that greet each other.
-- Attach is a terminal attached to one pane (devpipe/src/attach.rs), with Attach/Keyboard on what
-- is typed. Session is the pty's thread, its input queue and its waker, cut into acts of a step
-- relation: Session/Bytes is about what is typed, Session/Wakes about the waker, Session/Mirror
-- about the mirror and what is sent, Session/Ending about the end. Replay is what is printed for a
-- screen; Replay/Vt is the terminal that it is judged by, and Replay/Rebuilt the theorem, for
-- which Replay/Sgr and Replay/Pens are about renditions, Replay/Writing, Replay/Cells, Replay/Rows
-- and Replay/Screens about the loops, Replay/Trimming and Replay/Edges about what is seen of a
-- row, Replay/Reading and Replay/Printable about the text; Replay/Stale is about a terminal that
-- is not fresh. Command is the commands: Command/Printing what is printed of a machine,
-- Command/Following the live tree, with Following/Environments and Following/View on its picture,
-- Command/Adding add, with Adding/Reachable, Command/Verbs the one-shot verbs, and
-- Command/Forwarding forward, with Forwarding/Carried. SessionCheck is the address, the request
-- and the cookie of the relay's question to the app (devpipe/src/session_check.rs), with
-- SessionCheck/Safety; SessionCheck/Answer is the reading of the app's answer and the account in
-- it, with SessionCheck/Answer/Bounds on how much is read.
--
-- How the code is read. A method that changes its object returns the new object; a fallible one
-- returns a Result whose errors are the source's messages with what they name. A HashMap is an
-- association list. A text is a list of code points and a file a list of bytes. What the operating
-- system, the network, the container runtime, the digest, the JSON and TOML libraries and the
-- random source do are arguments: the outcome of a write, a runtime's answer, a token, an id.
-- Loops are structural recursion; the reader of a stream has fuel, one round for each frame and
-- one for the end, and is shown to need no more.
--
-- What is not modelled: the asynchronous runtime, sockets and processes, the terminal emulator's
-- own parser, the copying of bytes at the relay, and of the command line the parsing of its
-- arguments, the painter of the live tree, and the commands that start the daemon and the relay.
-- The pty answers a session's thread with what an argument says, and a thread's act is what it
-- does between two points at which another may come between. What the world gives while one
-- request is handled (a keeper's answers, the outcome of a start or a write, whether the client's
-- queue takes a message) is an argument of the handler, the record Given of Serve.
pub mod Prelude
pub mod Store
pub mod Proto
pub mod Marker
pub mod Keeper
pub mod Keys
pub mod Secrets
pub mod Tunnel
pub mod Machines
pub mod Backend
pub mod Environment
pub mod Host
pub mod Serve
pub mod Session
pub mod Replay
pub mod Client
pub mod Attach
pub mod Relay
pub mod Command
pub mod SessionCheck
