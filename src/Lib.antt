-- ===== src/Lib.antt =====
-- stratumserver: a model of the stratum mining server, for the files below from the repository's
-- root.
--
-- Utils models stratum/server/utils/coinbase.go: Utils/Reverse the byte orders, Utils/Pack the
-- serialisation of numbers and strings, Utils/Merkle MerkleTreeBranch, and Utils/Coinbase the
-- script and the split of a coinbase transaction, hashes, and the conversion of transactions; the
-- builder of scripts is btcd's and a parameter. A byte is a number below 256, and a panic of Go is
-- `none`. A loop runs on fuel: SerializeNumber on ten rounds, since its buffer has nine bytes, and
-- MerkleTreeBranch on as many as the array has hashes, since its counter falls in each round.
--
-- Vardiff models stratum/server/vardiff: Vardiff/Ring the RingBuffer, Vardiff/Calc the VarDiff and
-- CalcNextDiff. int64 wraps around at 2 ^ 64. float64 is the record Float64, a parameter, with the
-- laws of IEEE 754 that a theorem uses in the record IsIeee; a worker holds a float64 as the number
-- of its bits.
--
-- Server models stratum/server/server.go: Server.antt the state and the operations that take
-- `s.mu`, Server/Conns closeIdleConns, Server/Shutdown Shutdown and onceCloseListener,
-- Server/Accept Serve and ListenAndServe, Server/Tls ServeTLS and ListenAndServeTLS, Server/Names
-- the names that are printed, and Server/Logging the logging connection, which a constant turns
-- off. Other goroutines act between the steps: in a loop they are functions on the server that each
-- round names, and in Server/Reach they are the steps of a transition system. Server/System is a
-- finer one, of one Serve, the goroutines of its connections and one Shutdown, each of which does
-- its operations in its own order, with what is under `s.mu` and what is atomic as steps of their
-- own; System/Refines takes its steps to those of Server/Reach, and Worker/Loop/Steps the loop of
-- conn.serve to it. The hooks of the server, which the program leaves nil, are left out.
--
-- Io models what server.go and stratum/server/conn.go do with one network connection. Io/Reader is
-- connReader, whose Read and backgroundRead run in two goroutines: an operation is what is done in
-- one hold of its lock, and Io/Reader/Stream is the transition system of all their orders over the
-- bytes that the client sends. Io/Buffers is the pools of bufio readers and writers with the
-- buffers of all connections; which buffer a sync.Pool gives is an argument. Io/Conn is
-- readMessage, Close and closeWriteAndWait, and Io/Conn/Session runs them under the loop of
-- conn.serve, and Io/Conn/Session/Serve is serve from its begin, with the TLS handshake as its
-- error.
--
-- Worker models stratum/server/client.go, job.go, jsonrpc.go and stratum/types/types.go, with
-- Worker/Message HandleMessage, and Worker/Loop the loop of conn.serve in stratum/server/conn.go,
-- which reads requests, has the worker handle them, writes the answers through SendJsonRPC, and
-- changes the server by setState. The packages server2/utils and miner that conn.go imports are not
-- in the repository, and are parameters with the JSON marshaller and uuid.Parse; Worker/Marshal has
-- what jsonrpc.go does with the marshaller's errors, and Worker/Twins compares the loop of
-- conn.serve with HandleMessage, which nothing calls. Counter models subscriptionCounter.go and
-- shares.go, and Errors e/errors.go. Routine models routines/stratum-server/stratum-server.go,
-- which starts, restarts and stops a server, over Server/Shutdown, Server/Accept and Server/Tls;
-- the rounds of a Shutdown are an argument, since the context of 10 seconds bounds them. Program
-- models main2.go, which reads the arguments and the configuration and runs Routine; what
-- nxs-go-appctx does between is a list of events.
--
-- Settings models settings/: Settings.antt the configuration, Settings/Network the addresses, and
-- Settings/Observer the observer, whose files, yaml parser and RPC client are the record World. The
-- digits of a number run on fuel, one more than the number, which falls in each round. Ctx models
-- ctx/, Logger logger/log.go, and Utils/Stoppable stratum/server/utils/stoppable.go, whose loop
-- runs for a number of rounds.
--
-- Main3 models what main3.go makes of a coinbase transaction and of the answer of a miner, through
-- splitting, hex texts, and the parser of btcd, which is a parameter, and the job that it prints,
-- for the merkle store that btcd builds.
--
-- Prelude has what these share: numbers, lists, bytes, int64 and encoding/hex.
--
-- Not modelled: the texts of log lines and of the help; and what main3.go only prints of blocks and
-- hashes, which is btcd's.
pub mod Prelude
pub mod Utils
pub mod Vardiff
pub mod Server
pub mod Counter
pub mod Errors
pub mod Io
pub mod Worker
pub mod Routine
pub mod Program
pub mod Settings
pub mod Ctx
pub mod Main3
pub mod Logger
