-- ===== src/Lib.antt =====
-- A model of the core of a Tailscale client for the PS Vita, and what is proved of it.
--
-- The client keeps a map of its network that the control server sends (crates/ts-control), a
-- WireGuard engine with a tunnel for each peer of that map (crates/wg-engine), and connections to
-- relay servers that carry WireGuard datagrams when no direct path is known (crates/ts-derp). The
-- runtime hands the deltas of the network map to the engine and to the socket that looks for direct
-- paths (crates/ts-magicsock, with the messages of crates/ts-disco), and the engine's transport to
-- the relays and sockets.
--
-- Derp models crates/ts-derp/src/frame.rs, magic.rs and error.rs. `Derp.Frame.Types` has the frame
-- types with `write_frame` and `read_frame`, `Derp.Frame.Helpers` the frames that the client
-- writes and reads, `Derp.Frame.Reader` the `FrameReader`, whose stream is a list of outcomes of
-- `read`. A writer is a function that may fail, and `Vec<u8>` never does.
--
-- Wg models crates/wg-engine/src. `Wg.Peer` is peer.rs, `Wg.Policy` policy.rs, `Wg.Indices`
-- indices.rs and dispatch.rs, `Wg.Engine` the `Engine` of lib.rs, `Wg.Pump` pump.rs. The fields of
-- a peer behind a lock are in a `Cell`, and an engine holds a cell for each index that it has
-- given out, since the indices share their peers. boringtun is a parameter, the record `Boringtun`
-- of its three calls; `Contract` says that a tunnel asked without input comes to an end, within
-- `fuel` calls, and that packets are made of bytes. With that fuel the loop that drains a tunnel
-- always ends, which the theorems on `handle_inbound` show; `Encapsulates` says that `encapsulate`
-- gives a datagram or nothing, where the program would panic. Instants are milliseconds.
--
-- Control models crates/ts-control/src/netmap.rs with the records of types.rs. `Control.Wire` is
-- a response after serde, `Control.Parse` the parsers of keys, networks and ports, with what
-- Rust's `parse` and `from_str_radix` accept, and `Control.NetMap` is `NetMap` with `apply`, one
-- function for each part of its body. `str::parse::<SocketAddr>` is a parameter. A hash map is an
-- association list, and the order of `removed` in a delta is that of the list.
--
-- Control.Noise models crates/ts-control/src/record.rs with write_record and decrypt_record of
-- noise.rs: `Control.Noise.Stream` is `NoiseStream` over what the reads and writes of its inner
-- stream return. snow's TransportState is the parameter `Transport`; `Seals` says of two ends that
-- are in step for some number of messages that what one seals the other opens. `fill_until` is
-- recursion on the reads to come, `chunks` on fuel that is the length of the buffer.
-- Control.Url models crates/ts-control/src/url.rs, with the `str` methods it uses written out.
--
-- Chan models crates/vita-chan/src/lib.rs, the channels between the client's threads. `Chan.State`
-- has the state under the lock, and each operation as a turn on it; `Chan.Order` lets turns of any
-- threads come in any order, and there a turn that waits is followed by another whenever that
-- comes. `Chan.Waiting` adds the condition variable `not_empty`, with steps between which other
-- threads run: `recv` is `checks` and `starts_waiting`, since only `wait` gives up the lock, and a
-- notification comes after the lock is released. `not_full` and the clock are not modelled.
--
-- Disco models crates/ts-disco/src: `Disco.Endpoint`, `Disco.Message` and `Disco.Packet` have the
-- layouts as casts of byte lists, and the envelope of a message. The NaCl box of crypto_box is the
-- parameter `SalsaBox`; `Opens` says that what is boxed for a key opens under it.
--
-- Magic models crates/ts-magicsock/src/lib.rs, error.rs and stun.rs. `Magic.State` is the state behind the
-- lock and the calls of `MagicSocketCtl` that only touch it, `Magic.Handle` what the worker does
-- with a datagram, `Magic.Pump` the rounds of pings and CallMeMaybe messages and the probes that a
-- caller waits for, `Magic.Stun` the STUN client, whose walk over attributes has the length of the
-- body as fuel. `Env` holds what the operating system answers: random bytes by the number of the
-- draw, and whether a socket takes a datagram. A handler runs without another thread in between;
-- `Magic.Sections` splits it into what it does under the lock, and lets those parts of any threads
-- come in any order. `ping_now` takes the order in which a hash map gives its entries as an argument.
-- Binding sockets, threads, the outbound queue and netcheck.rs are left out.
--
-- Runtime models parts of crates/tailscale-vita/src: `Runtime.Delta` the functions of runtime.rs
-- that push a map update, `Runtime.Lifecycle` the tracker of lifecycle.rs with every event;
-- `Runtime.History` reads from a run of events itself what the tracker is to have counted.
--
-- Texts are lists of bytes, 64-bit counters wrap, and tracing and the selection log are left out.
-- Not modelled: sockets, TLS, threads, the Noise handshake, HTTP/2, registration, the peer API,
-- file transfer, the user interface, and the bindings to the console, which are I/O around the
-- parts above.
pub mod Prelude
pub mod Derp
pub mod Wg
pub mod Control
pub mod Disco
pub mod Magic
pub mod Runtime
pub mod Chan
