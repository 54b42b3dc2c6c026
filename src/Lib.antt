-- ===== src/Lib.antt =====
-- The Go side of this repository serves chat over its own encrypted transport. What is modelled is the
-- path of a message from a socket to its plaintext, and the rules on who may change a chat.
--
-- Parts, and the files that model them:
--   Prelude       tests, lists, results, bytes and their fixed-width integers, association lists, and
--                 exclusive or; nothing of it is particular to one part.
--   Codec         pkg/mtproto/codec/codec.go. One module for each framing (Abridged, Intermediate, Padded,
--                 Full), Detect for the choice among them, Stream for a connection that uses one. A
--                 function takes the bytes that are still unread, and returns what it read and the rest.
--                 Obfuscated has obfuscated.go: a keystream is a parameter, and a draw of the first
--                 packet is bounded by 33 as in the source.
--   Udp           pkg/mtproto/transport/udp.go. Datagram has `marshal` and `parseUDP`, Reassembly the
--                 tables of partial messages and the fragmentation, Conn the methods of `udpConn`,
--                 Listener those of `UDPListener`, Client those of `UDPClient`. Methods return the new
--                 state and the datagrams that they write.
--   Mtproto       pkg/mtproto. Ige has ige.go, Keys keys.go, Envelope the encrypted and plain envelopes of
--                 message.go, MsgId its identifiers and sequence numbers, Pq the proof of work of pq.go,
--                 Tl the constructor ids of tl.go. Handshake has handshake_types.go, and its children
--                 the two halves of the key exchange: Server (handshake.go), Client
--                 (handshake_client.go), Inner and Group what both use, Agreement a whole exchange.
--   Gateway       services/realtime-gateway/internal. Send, Plain, Frames have session.go, Dispatch
--                 dispatch.go, Store sessionstore.go. A function takes the surroundings of one frame
--                 (`Env`) and the state, and returns the new state.
--   Auth          services/auth-service/internal/service.go with the statements of pkg/pgstore/users.go.
--                 SignIn has sign-in with a code, Devices refresh, resolution of tokens and
--                 revocation.
--   Chat          services/chat-service/internal. Authz has authz.go, and Members the handlers of chats.go
--                 with the statements of pkg/pgstore/chats.go that they run.
--   Ids           pkg/ids/ids.go, the snowflake generator over the readings of a clock.
--
-- A session asks Auth to resolve the token that binds it to a user. The listener hands a datagram to a
-- connection, the connection reassembles frames, a frame is an envelope, and the envelope is opened with
-- a key. Codec does the same for streams, over Obfuscated or not. A session of the gateway gets the
-- frames: plain ones make the key in a handshake, encrypted ones go on to the handlers.
--
-- Conventions. Numbers are natural numbers; where the source counts in 16, 32 or 64 bits, the remainder is
-- written out. A signed integer is the unsigned one of the same bits. Times are nanoseconds on one clock.
-- A Go map is an association list; where the order of iteration matters, it is an argument. A pair of a
-- value and an error is a `Result`. In Udp a run-time panic is an error of the type `Panic`: a send on a
-- closed channel, or an index out of range. Random bytes, the checksum, the digests and the block cipher
-- are arguments, and `IsCrypto` states what is used of the last two.
--
-- Bounds and fuel. Euclid's algorithm runs on one more step than its second number, and that number
-- falls with each step. The search for a cycle in `brent` has the source's own bound as an argument,
-- 2^22 in the source. `generate_pq` runs on the drawn numbers, and the waiting loops of Ids on the
-- readings to come. All other loops are structural.
--
-- The bytes of an integer of math/big are made on a fuel of 256, the size of the group.
--
-- Not modelled: sockets, goroutines other than by the order of calls, logs, database failures, RSA, JSON,
-- the other services, and the clients.
pub mod Prelude
pub mod Codec
pub mod Udp
pub mod Mtproto
pub mod Chat
pub mod Ids
pub mod Gateway
pub mod Auth
