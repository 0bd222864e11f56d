-- ===== src/Lib.antt =====
-- A verification library for meshcore, the C library of a radio mesh: `src/core`, `src/runtime`,
-- `src/support` and `src/platform`, with its public headers in `include/meshcore`.
--
-- The parts of the program. A packet lives in a static pool. The dispatcher takes a packet from the
-- pool for what the radio received, parses it and hands it to the mesh, which answers what is to be
-- done with it: give it back, keep it, or queue it for sending with a priority and a delay. Flooded
-- packets may wait in a receive queue first. The dispatcher's loop takes the best packet that is due
-- from the send queue, encodes it and starts the radio, within a budget of time on air. The mesh asks
-- a filter of recent hashes whether it saw a packet before, decrypts what is for this node, tells the
-- runtime, and adds its own hash to the path of what it sends on. The runtime keeps the requests whose
-- answers it waits for, makes packets of what the host asks for, and answers what other nodes ask.
--
-- The files.
-- * Packet and Packet/*: `src/core/meshcore_packet.{h,c}`. `Packet` is `struct meshcore_packet`,
--   `write_to` and `read_from` are `meshcore_packet_write_to` and `meshcore_packet_read_from`, and so
--   on without the prefix `meshcore_packet_`. Codec holds the two; Fields and Length are about the
--   header, the path length and the length on air; RoundTrip and Digest about the codec and the hash.
-- * Tables and Tables/*: `src/support/meshcore_tables.{h,c}`, the filter of recent packets.
-- * Queue and Queue/*, Pool and Pool/*: `src/support/meshcore_packet_manager.{h,c}`. `Queue` is `struct
--   meshcore_packet_queue`, `Manager` is `struct meshcore_packet_queue_manager`. Items, Compact, Edit,
--   Select and Deadline are about one queue; Count, Owned, Steps, Hands, Start and Reach about where
--   each packet of the pool is, over any sequence of calls.
-- * Dispatcher and Dispatcher/*: `src/core/meshcore_dispatcher.{h,c}`. Parse, Receive, Send and Deadline
--   are its operations; Agrees compares its parser with the packet decoder, Soonest is about its
--   deadlines, Holdings and Loop about the packets that it takes from the pool.
-- * Identity and Identity/*: `src/core/meshcore_identity.{h,c}`. Hash is about the prefixes of keys that
--   stand for nodes, Stored about writing and reading a local identity.
-- * Mesh, Node and Mesh/*: `src/core/meshcore_mesh.{h,c}`. `Node` is what `struct meshcore_mesh` holds
--   besides its dispatcher, which reaches it by `owner_mesh`. Create, Send and Acks are the operations
--   that make and send packets; Receive, Peers and Flood are the branches of
--   `meshcore_mesh_on_recv_packet`, and Handle gives it to the dispatcher. Trade, Made and Answers are
--   about who holds the packets; Route and Direct about the paths of flooded and direct packets;
--   Duplicates is about packets that were heard before, Echo about those that the node sent itself;
--   Flooded about an acknowledgement on its way to the send queue; Search about the loop over the
--   peers; Datagram about a text between two nodes.
-- * Context, Runtime and Runtime/*: `src/runtime`. `RuntimeState` is `struct meshcore_runtime` besides
--   the mesh, and what the host was told. Runtime, Local, Timer and Entry are `src/runtime/meshcore.c`:
--   Entry holds `meshcore_init`, `meshcore_deinit` and the three calls of the platform. Pending is
--   `src/runtime/meshcore_runtime_pending.c`, the acknowledgements and answers that are waited for;
--   Policy `src/runtime/meshcore_runtime_policy.c`, what a node sends on; Publish
--   `src/runtime/meshcore_runtime_event_publish.c`; Replies and Receive
--   `src/runtime/meshcore_runtime_receive.c` and `src/runtime/meshcore_runtime_control.c`; Validate,
--   Outbox, Asking, Execute and Calls `src/runtime/meshcore_runtime_request.c`, whose requests `execute`
--   takes as values and whose functions of the public interface stand in Calls. Expected and Waiting
--   are about what is waited for, Armed about the timer of the whole runtime, Paths about the path
--   length byte, Loops about the loop detection of flooded packets, Once about a packet that comes
--   back. Acknowledged, Answered and Channels follow a text to its receiver, with Split about its
--   terminators. Refused is about errors, Lifecycle about starting and stopping;
--   Sent, Asked and Whole about who holds the packets, and Conserved draws this together over any
--   calls of the library.
-- * Advert and Advert/*: `src/support/meshcore_advert_data.{h,c}`, the data of an advert. Fits is about
--   its length and its flags, Name and RoundTrip about reading it back.
-- * Clock is about `src/core/meshcore_clock.c`.
-- * Crypto, Hex and Cipher are about `src/core/meshcore_utils.c`: the digest, hexadecimal texts, and encryption
--   with a tag.
-- * Text and Text/Copies: `src/support/meshcore_txt_data.c`, but for the printing of floats.
-- * Prelude and Prelude/*: shared lists, arrays of bytes, machine words and bit fields.
-- * Tests and Tests/*: runs on small inputs.
--
-- How the model stands for the code.
-- * A function that changes `*x` takes and returns the record of `x`. A pointer that the code tests
--   against NULL is an `Option` where callers may pass NULL; other NULL guards have no counterpart.
-- * A packet pointer is the index of the packet in the pool; the aliasing of packets is therefore
--   explicit, and that a packet is never in two places is part of what is proved.
-- * Numbers are natural numbers; each wrap of a `uint8_t`, `uint16_t`, `uint32_t` or `unsigned long` is
--   a remainder. Differences of times are compared by their sign bit, as in the code. The width of
--   `unsigned long` is a parameter.
-- * The two bytes of a `uint16_t` that `memcpy` moves are in little-endian order.
-- * The pool holds at most 10 packets and the filter 160 hashes of 8 bytes, the defaults of the code.
-- * Loops recurse on the number of rounds left. The loop of `meshcore_utils_encrypt` recurses on fuel;
--   it is given the length of the text, and each round takes 16 bytes, so that it never runs out.
-- * Digest, block cipher and tag are the platform's, and parameters (`Sha256`, `Cipher.Host`), `none`
--   standing for a failed call. What theorems need of them are named hypotheses: the output is filled,
--   calls succeed, decryption inverts encryption.
-- * The dispatcher's clock, radio and platform settings are the parameter `Dispatcher.Host`: the clock
--   is a sequence of readings, each reading in the code takes the next, and the radio's answers may
--   change with each. The casts of the float products with the duty cycle are functions of this
--   parameter. The handler of the mesh is a function of it as well; what a theorem needs of the handler
--   is `HandsBack`, which the mesh satisfies.
-- * Calls that only write to a log are left out; the calls that change the radio are kept in a list.
--
-- * What the mesh asks of the platform and tells the runtime is the parameter `MeshHost`: the answers
--   are functions of the state that they are asked in, and `react` is the handler of every event, which
--   may change the state. What a theorem needs of the handlers is `Reacts`: they lose and keep no
--   packet, and start no transmission; `with_runtime` is the mesh with the handlers of the runtime in
--   this place, which are shown to be such. The curve of the identities is the parameter `Curve`.
-- * A packet of the pool is read where an operation of the mesh begins; the packets that it takes from
--   the pool afterwards are others. A read past the payload array goes to the field that follows it.
-- * What the runtime asks of the platform is the parameter `RuntimeHost`: functions of the state, with
--   `none` for a failed call. What it tells the platform is appended to a list. While a call of the
--   platform runs, the clock of milliseconds stands at its argument.
-- * The loop over the peers recurses on the number of slots of the host, which is enough for a host
--   that searches onwards through its slots.
--
-- Not modelled: telemetry (`src/support/telemetry`), whose values the runtime gets from the host; the
-- choice between the callbacks of the runtime and those of the host in `src/core/meshcore_mesh.c`,
-- which are one parameter here; the platform bridge, which forwards calls to the host;
-- `src/support/crypto`, which is the third-party Monocypher; functions for tests; and functions on
-- floats, such as `meshcore_packet_get_snr`; and `meshcore_utils_parse_text_parts`, which nothing calls.
pub mod Advert
pub mod Cipher
pub mod Clock
pub mod Context
pub mod Crypto
pub mod Dispatcher
pub mod Hex
pub mod Identity
pub mod Mesh
pub mod Node
pub mod Packet
pub mod Pool
pub mod Prelude
pub mod Queue
pub mod Runtime
pub mod Tables
pub mod Tests
pub mod Text
