-- ===== src/Lib.antt =====
-- Verification of camex, a VPN tunnel over UDP or TCP: its handshake, its sessions, its TCP
-- framing, the tables of its server (clients, leases, address pool, lookup indexes, handshake
-- budgets), and its key texts.
--
-- The program. A client and a server run the Noise_NKpsk0 handshake (src/noise.c): INIT and RESP
-- packets carry message 1 and message 2. `noise_split` gives the transport keys to a session
-- (src/session.c), which seals and opens DATA packets and guards them with a replay window. Over
-- TCP the packets travel as frames (src/net.c). The server spends at most a budget of handshakes
-- and key trials a second, shared out by source (src/server.c). Keys are kept as base64 or
-- hexadecimal text (src/keys.c, src/util.c). The server finds clients through hash indexes
-- (src/slotidx.c); both sides exchange tunnel packets with a packet backend (src/packet.c).
--
-- The files.
--   Base and its children: shared names, lists, Boolean tests, shifts and masks, byte strings.
--   Crypto: BLAKE2b, X25519 and ChaCha20-Poly1305 of src/monocypher.c, another project's library,
--     as the parameter `Crypto`, and as `CryptoLaws` what its documentation says: the lengths, that
--     both sides of an X25519 exchange compute one secret, and that what was sealed is opened.
--   Noise.Cipher: `noise_hmac` to `noise_keypair`; Noise.Handshake: `noise_init_initiator` to
--     `noise_split`. The two static readers are `read_copy1` and `read_copy2`, which change the copy
--     they are given also when they fail; `commit` takes it over.
--   Session.Wire: integers, packet types and timestamps; Session.Replay: the window;
--     Session.Transport: `session_init`, `session_seal` and `session_open`.
--   Net.Stream: a stream socket as a parameter, with the laws of `read`; Net.Recv:
--     `net_tcp_recv_frame`, its loop as `fill`.
--   Server.Budget: `server_budget_window` to `server_key_trial_budget`; entries of the share table
--     are named by their place, and `random n` is the outcome of `get_random_bytes`.
--   Server.Pool, Server.Leases: the address pool and the addresses kept for clients that are gone;
--     `server_lease_add` is Server.Leases.Add, its steps `make_way`, `choose`, `make_room`,
--     `write_lease` and `index_lease`.
--   Server.Clients: the table of clients, its indexes (`server_index_add`, `server_index_rebuild`),
--     its lookups in Find and its setters in Set.
--   Server.Entries: `server_end_client`, `server_alloc_client`, `server_expire_clients` and the walk of
--     the pool in Take. Server.Reload: the checks after a reload and `server_register_allowed`.
--     What src/server.c reads of the keystore and the profiles of src/config.c, through its functions
--     `keystore_owner` to `keystore_is_global`, are the answers in the record `Config`.
--   Server.Data: `server_handle_data` and `server_forward_packet`; what they return is `Code`, which
--     only names the call whose result is passed on.
--   Server.Steps: the steps on these tables as a relation, and the states they reach; Paths and
--     Packets give the operations as sequences of steps.
--   Net.Sink: sockets that are sent to, as a parameter; Net.Send: the pending slots, their flush and
--     `net_tcp_send_frame_ex`.
--   Slotidx: the hash index of src/slotidx.c; its walks over the buckets are `place` and `scan`.
--   Util: big-endian integers, fields of the control texts and IPv4 headers of src/util.c.
--   Packet: the switch between packet backends of src/packet.c; a backend is a record of functions
--     on the state of the world.
--   Keys.Text: `key_base64_encode`, `key_base64_decode`, `key_parse_b64`, `parse_hex_key` and
--     `hex_encode`.
--   Tests: a toy cipher suite and a toy socket that satisfy the assumptions, and examples.
--
-- Conventions. A buffer is the list of its bytes, and its length is the list's; text is the list of
-- its character codes without the NUL at its end. Functions that return 0 or -1 and fill a buffer
-- return an `Option`; a function that changes state returns the state after it. Unsigned integers
-- are natural numbers with the wrap-around written out where the code can reach it.
--
-- Bounds. The replay window is the ring of 32 words of the code. The loop over `read` runs on
-- `target - have` rounds, and the loop over `send` on the bytes that are left: every round moves at
-- least one byte or returns. A walk over the buckets of an index has as many rounds as there
-- are buckets, since after them it would be where it began. The size of a table doubles at most 30
-- times from 16, where the loop of the code stops. Loops over the tables of clients and leases run on
-- the slots that are left. Which of the allocations of a call find memory is an argument, and the
-- theorems hold for every answer.
--
-- Not modelled: system calls, logging, the main loop, the TUN device, the kernel module, the
-- control socket and the configuration; of the server the handling of INIT packets; the client's
-- state machine and the text protocol inside the handshake.
pub mod Base
pub mod Crypto
pub mod Noise
pub mod Session
pub mod Keys
pub mod Net
pub mod Packet
pub mod Server
pub mod Slotidx
pub mod Util
pub mod Tests
