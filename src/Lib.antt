-- ===== src/Lib.antt =====
-- The core of n2n-go: a supernode that registers edges into communities and relays their packets,
-- the edges, which carry the frames of their hosts to each other, and the packet formats between them.
--
-- Parts
--   Base       lists, bytes, association lists for Go's maps, results, methods that may fail
--   Errors     one constructor for each place that makes an error; `panic` is a run-time panic
--   Net        the addresses of package net, and addrToIP, addrToPort of pkg/supernode/community.go
--   Protocol   pkg/protocol: Spec (spec/spec.go), Mac (ident.go), Hash (protocol.go), Header
--              (protoV.go), Datagram and Message (message.go, handler.go), Fuze (vfuze.go)
--   Machine    pkg/machine/mac.go: the address of an edge from its machine id and its community
--   Tuntap     pkg/tuntap: Frame (frame.go, Ethernet frames), Arp (arp.go)
--   P2p        pkg/p2p: Peer (the messages), Status (one peer's states), Registry (p2p.go),
--              Viz (p2viz.go, the data of a picture)
--   Supernode  pkg/supernode: State (supernode.go, edge.go, community.go, stats.go), Network
--              (network.go), Wire (wire.go, sending), Forward (wire.go, ForwardUnicast and
--              ForwardWithFallBack), Community and Views (community.go), Registration
--              (registration.go), Handlers (handlers.go), Process (ProcessPacket of
--              supernode.go), Cleanup (cleanup.go)
--   Transform  pkg/tranform: compression and encryption of payloads, and the pipeline of both
--   Edge       pkg/edge: State (client.go), Wire (wire.go), Requests (requests.go, and the requests
--              of setup.go), Receive, Handlers and Peers (handlers.go, handlers_missing.go), Listen,
--              Tap and Pings (routines.go), Setup (setup.go, and the connecting again of
--              routines.go), Api (api.go)
--   Syshosts   pkg/syshosts: Words (lines and words, reading and writing), Lookup, Change
--              (hostsfiles.go), Tidy, Combine and Sort (extents.go)
--   Tests      runs of all of these at concrete inputs
--
-- How they interact. `process_packet` reads the first byte: a VFuze packet goes to `handle_v_fuze`,
-- any other is unpacked (Protocol.Datagram) and goes, by its type, to one of the handlers. These
-- look the community up by the hash in the header and the edge by the source address
-- (Supernode.Registration), change them (Supernode.Community), and send (Supernode.Wire). An edge's
-- registry takes the peer lists that the supernode sends (P2p.Registry). What an edge reads from its
-- TAP device (Edge.Tap) goes through its transforms and out (Edge.Wire), to the supernode or straight
-- to the peer; what it reads from its socket (Edge.Listen) goes to a handler, and data through the
-- transforms back to the TAP device (Edge.Receive).
--
-- Representation
--   * A method with a receiver is a function from the receiver's state to a result and the state
--     after it; a state that was changed before an error stays changed.
--   * `*Edge` and `*Peer` are references into a heap, since several maps share what they point to; a
--     `*Community` is its key in the supernode's map.
--   * Go's maps are association lists, iterated in the list's order, which Go leaves open.
--   * Strings, byte slices, IP and hardware addresses are lists of bytes; nil is the empty list.
--   * The counters of the statistics wrap at 2^64; a time is a number of nanoseconds, and the
--     time since an earlier one is 0 where the clock went back.
--   * The loops that wait for an answer (Edge.Api) run on fuel, over what they see at each look; every
--     other loop is over a list or a number of bytes. A loop that reads packets is one turn of it, a
--     function from the buffer and the state to both of these and how it goes on.
--   * The buffer of such a loop is kept from turn to turn, as the code keeps it, and a read overwrites
--     its front.
--   * A handler runs from start to end as one step. Where the source gives a lock up in between, in
--     RegisterCommunity, the second part is a function of its own, over the state that it finds.
--
-- What comes from outside: the clock, printing and parsing of net's addresses, SHA-256, decryption
-- with the supernode's key, the address pools of the ippool module, whether a write succeeds, and
-- protobuf are fields of `Env` (Supernode.State), of `EdgeEnv` (Edge.State) and of `Resolver`
-- (P2p.Registry), which each call takes anew and about which nothing is assumed.
--
-- Not modelled: sockets and listeners, the WSS transport, TUN/TAP devices, configuration, logging,
-- the drawing of pictures and HTML, the management server, NAT traversal, benchmarks and commands
-- (input and output); generated protobuf code; the tickers and the shutdown of an edge.
pub mod Base
pub mod Errors
pub mod Net
pub mod Protocol
pub mod Machine
pub mod Tuntap
pub mod P2p
pub mod Supernode
pub mod Transform
pub mod Edge
pub mod Syshosts
pub mod Tests
