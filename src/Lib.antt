-- ===== src/Lib.antt =====
-- A verification library for the servers of this repository, which answer the problems of a network
-- protocol course: each is a TCP or UDP service started by main.go. Modelled are the speed daemon
-- (traffic/), the generator of its packets (genpackets/), the job centre (jobcentre/), the chat
-- (chat/), the proxy (mob/), the means (means/), the database (db/), the test for primes
-- (primetime/), the echo (smoke_test/), the readers (reader/), the servers of server/ and main.go.
--
-- Prelude: Go's slices and maps as lists and functions, its comparisons, and `Outcome`, a computation
-- that may panic. Lists are measured by native numbers.
--
-- Reader: reader/reader.go. A connection is the list of the segments in which its bytes arrive
-- (Reader/Conn), since `ReadN`, `ReadByte` and `SkipN` call `Read` once and get no more than one
-- segment holds, while `ReadB` waits for all its bytes. `read_n`, `read_byte`, `read_u16` and
-- `read_u32` stand for ReadN, ReadByte and ReadB on a uint16 and a uint32. Reader/Laws has what the
-- readers promise on any segments and Reader/Segments what they promise inside one. Reader/Strings is
-- about ReadString, whose loop runs on fuel, one round for each byte of the connection and one more;
-- Reader/Reverse about the loop of ReverseBytes. Reader/Counting: reader/counting_reader.go, the same
-- reads over a connection and the 64 bits of `BytesRead`, with the wrap written out.
--
-- Traffic/Packets and Traffic/Codec: traffic/packets.go and the generated traffic/packets_gen.go, one
-- function for each `Marshal` and `Unmarshal`. Strings are lists of bytes, and the length byte wraps
-- at 256 as `byte(len(s))` does.
--
-- Genpackets: genpackets/genpackets.go. Source has the first half of its `main`, from the syntax tree,
-- whose parser is a parameter, to the structs that `-types` selects. Template has the branches of the
-- template, as lists of the statements that they write; Run says what these statements do on the
-- fields of a struct. Checks says what the Go compiler checks of them that depends on the structs: the
-- variable `n`, the names and types of the fields, and the imports; a `Marshal` that it refuses does
-- not run. Search, Select and Compiles have
-- the theorems on these parts, RoundTrip those on any struct, and Packets runs the program on
-- traffic/packets.go and compares the outcome with Traffic/Codec.
--
-- Traffic/Balancer: traffic/balancer.go, the round-robin set of the dispatchers of a road. An index
-- out of range is a panic.
--
-- Traffic/Server: the goroutine `handlingServer` of traffic/traffic.go. Types has its maps as a record,
-- Sightings the search for a pair of readings, Peers the cases of cameras, dispatchers, heartbeats,
-- connects and disconnects, and Handle the case of a plate and the loop over the messages. What the
-- goroutine writes, starts and logs is a list of effects in their order. The channel of messages is
-- the list that `run` takes: a message is handled as a whole before the next one, whatever the
-- connections do meanwhile. `float32` is a parameter, the record `Float32` of its operations, of which
-- nothing is assumed. Errors of `Write` are ignored by the source and here. Times are 32-bit numbers
-- with the wrap of the subtraction written out; days are exact quotients, as `float64` divides 32-bit
-- numbers without a loss that moves a quotient over a whole number.
--
-- Traffic/Client: `HandleClient` of traffic/traffic.go, from the segments of a connection to the
-- messages for the server and the answers to the client. Its loop runs on fuel, one round for each
-- byte of the connection and one more, which is enough since each round takes a byte. Whether a write
-- to the client succeeds is a parameter, a function of what is left of the connection.
--
-- Traffic/Heartbeat: `handleHeartbeath` of traffic/traffic.go, as a function of its ticks and the
-- results of `Write`. Traffic/Durations: the duration that it makes of an interval. `float64` is a
-- parameter there, and `IsFloat64` names what IEEE 754 says of its operations. Traffic/Starts: the
-- heartbeats that the server starts.
--
-- Jobcentre: the goroutine `internal` of jobcentre/jobcentre.go. Types has its variables as a record:
-- the owner field of the shared `*Job`s is a map from Ids, so that the job lists and the queues see
-- one owner. This map is right as long as the counter of Ids, which wraps at 2 ^ 64, has not gone
-- round; what needs distinct Ids has a bound on the counter. Requests has the cases of the requests. Disconnect has the case of a client that goes,
-- with the slice of waiters as the array under it and the length that the shadowed variable has.
-- Internal composes them. The payload of a job is a parameter. Handler is the function `handler` of a
-- connection, with the decoders of `encoding/json` and the results of its writes as parameters; it
-- returns at the first write that fails.
--
-- Chat: chat/chat.go, the goroutine `runChatServer` as a function of its sessions, its counters of
-- usernames and one message from one of its three channels, with the lines it writes as a list of
-- events. The map of sessions is the list of its values, and the order in which a `range` visits it
-- is a parameter. A session that is not there is a nil pointer, and a panic. `handle_client` turns the
-- bytes of a connection into messages; the connection may also be closed earlier, which cuts the
-- list of its lines short.
--
-- Mob: mob/mob.go, `HandleClient` between a client and the upstream server. A text is the list of its
-- characters. The two goroutines that read are lists of messages, and a list of choices of the
-- scheduler says in which order these come to the loop and when the context is done.
--
-- Means: means/server.go, `Handler` on the segments of a connection. The fields of type `int32` and
-- the sum of type `int64` are their bits, so that the wraps and the signed comparisons, the division
-- and the conversions are written out. Its loop runs on fuel, one round for each byte of the
-- connection and one more.
--
-- Server/Udp: the loop of server/udp_server.go over the table of clients, with what it does with the
-- clients' channels as a list of effects and the order of its visits as a parameter. Server/Tcp: the
-- loop of server/tcp_server.go, which numbers the connections, and the goroutine of a connection.
-- Server/Interleaving: the connections side by side; a list of choices of the scheduler says whose
-- message comes next to the channel that they share. Traffic/Service, Jobcentre/Service and
-- Chat/Service put the loop that accepts, the handlers and the goroutine behind the channel together.
--
-- Main: main.go, with the table of the servers and the order in which its map is visited as a
-- parameter.
--
-- SmokeTest: smoke_test/server.go, on fuel as in Means.
--
-- Db: db/db.go, the goroutine `startServer` with the data and the answers of `handleClient`, on the
-- datagrams of all clients in the order in which their events come to the channel.
--
-- Primetime: primetime/server.go. Handler has the lines of a client, with `encoding/json` and the
-- comparison of a `float64` with its integer as parameters. The loop of `isPrime` runs on fuel, as
-- many rounds as the number says, which is enough below 2 ^ 62; there no square overflows, and the
-- wrap is written out.
--
-- All other loops are over lists or a count of days and need no fuel.
--
-- Not modelled: sockets, goroutines other than as above, timers, logging, JSON itself, the syntax tree's
-- parser, the servers' constructors, `Stop` and the ends of contexts other than the heartbeat's. Writes
-- to a connection are taken to succeed, except in `Write` of server/udp_server.go, in the heartbeat,
-- in `HandleClient` of traffic/traffic.go and in `handler` of jobcentre/jobcentre.go.
pub mod Prelude
pub mod Reader
pub mod Traffic
pub mod Jobcentre
pub mod Db
pub mod Primetime
pub mod Chat
pub mod Mob
pub mod Means
pub mod Server
pub mod SmokeTest
pub mod Genpackets
pub mod Main
