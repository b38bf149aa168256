-- ===== src/Lib.antt =====
-- LumeoFS, a distributed file system in Go. Masters keep the metadata (files, chunks, the replicas of
-- each chunk, the data nodes) in a state machine that a Raft log replicates; data nodes store the
-- chunks, log their writes ahead, and use versions, leases and erasure coding.
--
-- The parts, the files that model them, and the code:
--   Base        native numbers, Boolean tests, lists, maps with text keys, signed integers, the
--               exclusive or of bytes, and big-endian numbers and blocks (Bytes); shared by all parts
--   Common      pkg/common/types.go: replicas, chunks, nodes, files
--   Raft        internal/raft/raft.go. Types: the node and the messages. Log: NewRaftNode, Propose and
--               the reads of the log. Election: startElection, handleRequestVote, becomeLeader,
--               stepDown. Append: handleAppendEntries and sendHeartbeats. Commit: updateCommitIndex
--               and applyLoop. Cluster/Defs: the goroutines as a step relation. The other files prove:
--               Keeps and Terms (what each operation leaves or does to terms), Append/* and Commit/*,
--               Cluster/Votes, Steps and Safety (the election invariant)
--   Metadata    internal/raft/state_machine.go. State: the commands, snapshot and restore; Queries: the
--               reads; Ownership and Effects prove
--   Erasure     internal/erasure/erasure.go. Shards: Encode, Decode, reconstruct; Xor, Places,
--               RoundTrip, Loss and Recover prove
--   Version     internal/version/version.go. Clock: VectorClock; Lease: Lease and LeaseManager; Stamp:
--               TimestampVersion; Data: DataVersion and ConsistencyChecker; Order, Window and Checker
--               prove
--   Replicas    internal/master/replica_manager.go. Manager: HandleNodeOffline, electNewPrimary and
--               VerifyReplicaConsistency; Primary proves
--   Protocol    pkg/protocol/protocol.go. MsgType and Messages: the codes and the messages; Wire:
--               WriteMessage, ReadMessage and the loop of a connection; Stream proves
--   Wal         internal/wal/wal.go. Log: Append, ReadAll, Truncate; Reading and Appending prove
--   Replication internal/replication/replica_manager.go. Manager: roles and replicas; Proxy: Write, Read
--               and SyncFromPrimary; Consistency proves
--   DataNode    internal/datanode/datanode.go. Storage: LocalStorage; Handlers: the data node and the
--               requests to write, read and synchronise; Interface: the other requests, what the node
--               sends, Write and Read; Recovery: recoverFromWAL. Contents (the bytes of a file), Replay
--               (writes that are done again), Recovery, Durable, Restart, Sync and
--               Forward prove
--   Master      internal/master/master.go. State: the master, its nodes and files; Alloc: the allocation
--               of chunks and the notifications. Sizes, Nodes, Placement, Recovered, Steps (all
--               operations in any order), Health, Files and Roles (with DataNode) prove
--   ClusterMaster  internal/master/cluster_master.go. Handlers and Alloc: the requests and the commands;
--               Picked, Applied and Refines prove, against Master
--
-- How they interact: a command that Propose appends to the leader's log is offered to applyC when it
-- is committed, on each node, and applyLoop hands it to Apply of the metadata. The lease manager is
-- part of the consistency checker. The replica manager works on the
-- chunks of the master. The master tells the data nodes their roles, a data node synchronises its
-- writes with the secondary replicas, and the commands of the cluster master go through Propose and
-- Apply. The files named Tests and Samples hold examples that run.
--
-- Conventions: an operation of the code is a function from the state before to the state after; a
-- panic and an error that the code can return are values (none, err, panic). Each step of the cluster
-- is one critical section under a node's lock, so every interleaving of the goroutines is a sequence
-- of steps, with timers that fire at any time and messages that are lost or late. A 64-bit counter
-- wraps at 2 ^ 64 where the code adds to it; the index sums of handleAppendEntries and
-- updateCommitIndex, which stay below the length of a slice in memory or follow one, are written
-- without. Election safety is bounded by 2 ^ 64 steps, since a term that wraps would be used again.
-- Loops recurse on their list or their counter; the reading of a log file has as many rounds as the
-- file has bytes, and each entry takes at least eight of them. A time is a number of nanoseconds that
-- an operation takes as an argument, one for all its reads of the clock.
--
-- A handler of a master or a data node is one step. The code holds no lock across the entry in the log
-- and the write to the file in handleWriteChunk, and takes the lock anew for each call of Propose in
-- handleAllocChunk of the cluster master; what can come between there is not modelled. For
-- HandleNodeOffline, which takes the lock for each chunk, the steps of the master have both the whole
-- and the single chunk.
--
-- A Go map is visited in an order that is an argument, or that decides no value. A response from another
-- node is a parameter, which gives the text of an error or the response.
--
-- Not modelled: the network, the lengths of the timers, the locks themselves, the dialling and
-- listening goroutines, log output. encoding/json and SHA-256 are parameters of the definitions that
-- use them, and so are the texts that fmt.Sprintf makes of numbers. The file system is the list of the
-- log's files and the files of the chunks; an operation on the log's files does not fail, and one on a
-- chunk's file fails where an argument says so. The configuration (pkg/config) and the commands (cmd)
-- are not modelled: they read flags and files and print.
pub mod Base
pub mod Common
pub mod Raft
pub mod Metadata
pub mod Erasure
pub mod Version
pub mod Protocol
pub mod Wal
pub mod Replication
pub mod DataNode
pub mod Replicas
pub mod Master
pub mod ClusterMaster
