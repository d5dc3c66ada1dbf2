-- ===== src/Lib.antt =====
-- Verification of the ZooKeeper client of zk/.
--
-- A client makes a request, which gets an xid and a channel for its response (zk/conn.go). The send
-- loop encodes it with the reflective codec of zk/structs.go, makes it pending under its xid and writes
-- one frame. The receive loop decodes the header of each packet of the server: a watcher event goes
-- to the event channel and to the watchers of its path; a response goes to the pending request of its
-- xid, whose recvFunc may add a watcher first. When a session ends, what is pending is
-- answered with an error, and loop connects to the next server; what waits to be sent is answered
-- with an error when Next says that a round of all servers has failed. The servers come from
-- zk/dnshostprovider.go. The calls of the client check their path (zk/util.go), make requests and wait
-- for the responses; the lock of zk/lock.go is built on these calls.
--
-- Files and code:
--   Base, Base/*          Booleans, lists, integers and texts over the native numbers
--   Constants             zk/constants.go; Error collects the error values of all of zk/
--   Outcome               a call that may fail or panic, for zk/dnshostprovider.go and zk/util.go
--   Wire                  slices with their capacity, panics of the run time, big-endian integers
--   Wire/Value            Kind is a Go type as `reflect` shows it, Value a value of such a type
--   Wire/Structs          the structs of zk/structs.go as kinds; requestStructForOp
--   Wire/Encode           encodePacket, encodePacketValue, multiRequest.Encode
--   Wire/Decode           decodePacket, decodePacketValue, multiRequest.Decode
--   Wire/Response, Response/Ends   multiResponse.Decode, and that it ends
--   Wire/Spec             the bytes of the wire format, defined without buffers
--   Wire/Memory, Encoding, Decoding, RoundTrip, Fuel, Packets   the lemmas and theorems on the codec
--   Watch                 addWatcher, invalidateWatches and the delivery of events of zk/conn.go
--   Watch/Tables, Once, Delivery   the map of watchers, and the theorems on watchers
--   Conn                  the state of Conn, nextXid, queueRequest, setState, sendEvent
--   Conn/Send             sendData, sendRequest, the cases of sendLoop
--   Conn/Receive          recvLoop for one packet
--   Conn/Flush            flushRequests and flushUnsentRequests
--   Conn/Connect          setTimeouts and authenticate
--   Conn/Restore          sendSetWatches
--   Conn/Session, Batches, Sizes   the theorems on these two
--   Conn/Frames, Replies, Events   what one send and one packet of the server do
--   Conn/Accounts, Moves, Sends, Answers   where the channel of each request stands
--   Channels              channels that are handed out in order, for Watch/Once and Conn/Answers
--   Conn/Stays            what the sends and authenticate do with the state
--   Loop                  connect, resendZkAuth, loop and its goroutines, the goroutine of sendSetWatches,
--                         Close
--   Loop/Reading          recvLoop as it reads the length and the bytes of a packet
--   Loop/Run              when each goroutine may take a step
--   Loop/Connect          Connect and its options
--   Loop/Bounds, Limits, Small   the buffer of recvLoop, and a packet from the network to its effect
--   Loop/States, Turns, Moves, Starts, Order   the invariant, and the order of the states
--   Loop/Stopped          after the return of loop
--   Loop/Kept, Answers    where the channel of each request stands, over all sessions
--   Flw                   the structs and the network of zk/flw.go
--   Flw/Numbers           strconv.ParseUint and ParseInt with the base 0, parseInt64
--   Flw/Words             FLWSrvr, FLWRuok, FLWCons
--   Flw/Lines             the lines of a response, as bufio.Scanner reads them
--   Flw/Hex, Servers, Clients   the theorems on the four-letter words
--   Hosts, Hosts/*        DNSHostProvider; FormatServers and stringShuffle of zk/util.go
--   Paths                 validatePath of zk/util.go
--   Paths/Ascii, Scan, Parts, Whole   the same on ASCII paths: a recursion over the bytes, the parts
--                         between slashes, whole paths
--   Client                programs over what a call waits for, and their runs in a World
--   Client/Calls          AddAuth, Children, Get, Set, Create, Delete, Exists, the watching forms, ACLs,
--                         Sync, Reconfig of zk/conn.go; AuthACL, WorldACL, DigestACL of zk/util.go
--   Client/Multi, Operations   the request of Multi and its results
--   Client/Protected      CreateProtectedEphemeralSequential
--   Client/Running, Served   how a program runs; a World made of sendData, a server and recvLoop
--   Client/Requests, Watching, Protected/Children, Owned, Panics   the theorems on the calls
--   Lock                  Lock and Unlock of zk/lock.go
--   Lock/Choose, Exclusive, Acquire, Created, Lowest, Fewer, Waiting   the theorems on the lock
--   Tests/*               the results at concrete inputs
--
-- How the model stands to the code. Goroutines are steps on the state Conn: what one does between two
-- waits, or under one lock. Channels are numbers, and what was sent on them stands in lists, oldest
-- first. Maps are lists of entries with one entry to a key. Strings and []byte are lists of numbers
-- below 256 where they come from the program; the codec does not depend on it. A slice is its length
-- and the memory up to its capacity, since Go bounds s[lo:hi] by the capacity; `int` has 64 bits, so
-- that a length of 32 bits does not wrap. What the network, the resolver and the random numbers
-- return are parameters, and so are the decoders of UTF-8, strconv.Atoi, SHA-1 and base64.
--
-- A call of the client is a program (Call) that is cut where it waits: for the response of a request, an
-- event of a watcher, random bytes. A World says what comes back, and what the other goroutines did to
-- the connection meanwhile; most theorems hold in every World. Client/Served has the World in which
-- sendData writes the request, a server answers, and recvLoop handles the answer. A result that the
-- decoder has filled in only in part is the struct as it was made.
--
-- Fuel. Each round of multiRequest.Decode and of multiResponse.Decode reads a header of nine bytes, so that the capacity of the slice
-- plus one is enough, which is proved for every input. The loop of validatePath runs on the length of
-- the path: each round takes at least a byte. The loop in which a lock waits has no bound in the
-- code; where each node that it waits on goes and none is added in front of it, a round more
-- than there are children in front is enough, which is proved.
--
-- The life of a connection is a relation (Loop/Run) between sessions: what one goroutine does between
-- two waits, or between two reads of what the others write, is one step, and any goroutine that may run
-- can take the next. What net.Conn, the dialer and the timers do is chosen freely by the step; the
-- close of a net.Conn shows only in what later calls return. A run-time panic ends the program, so
-- that no step follows it. In zk/flw.go the regular expressions and time.Parse are parameters too.
--
-- A send on the channel of a request never blocks in the model. In the code the channel has room for one
-- response, and a second send, as after a write that failed, blocks flushRequests under
-- requestsLock: what is proved says what is sent, and not that flushRequests returns.
--
-- Not modelled: the time that a step takes, and logs; the close of the event channel after the end of
-- the goroutine of loop; the allocation that a decoded length asks for; the
-- wait of Multi for its response; the memory that the encoder leaves behind when it returns an error; the
-- debug fields of Conn and reconnectLatch, which only tests set; the example program.
pub mod Base
pub mod Channels
pub mod Constants
pub mod Outcome
pub mod Wire
pub mod Hosts
pub mod Watch
pub mod Paths
pub mod Client
pub mod Lock
pub mod Conn
pub mod Loop
pub mod Flw
pub mod Tests
