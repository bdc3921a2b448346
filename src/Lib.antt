-- ===== src/Lib.antt =====
-- A verification library for replog, a replicated commit log in Rust.
--
-- The program. Brokers keep the partitions of topics in logs of segments (src/storage), serve
-- producers, consumers and each other over a binary protocol (src/proto), and replicate each
-- partition from its leader to followers (src/broker). A controller (src/controller) tracks which
-- brokers are alive, owns the replicas, the leader, the epoch and the in-sync replicas (ISR) of
-- each partition, and elects leaders.
--
-- The files.
--   Prelude      the names and lemmas that all modules share: Boolean tests, lists measured by native
--                numbers, signed words (Int), maps as lists of entries (Maps), sorting (Sort), and the
--                decimal text of numbers that `format!` writes and `parse` reads (Decimal)
--   Proto        src/proto. Wire is wire.rs: a `put_` function is the list of bytes that it appends, a
--                Reader a function on the unread bytes. Codes, Records, Meta, Request, Response and
--                Frame are the messages of mod.rs; Stream is read_frame over a byte source, whose
--                read_exact is a parameter
--   Storage      src/storage. Record is record.rs, with crc32fast's checksum as a parameter; Config is
--                mod.rs, with Config.Parse for FsyncPolicy::parse; Index is index.rs; Segment is
--                segment.rs, with the log file and the index file as bytes, and Segment.Read its reading; Log is the appending part of log.rs, Log.Open its
--                start, Log.Suffix its reading and the cut of its end; Epoch is epoch.rs
--   Controller   src/controller/mod.rs. State holds its maps, Elect is elect_where_needed, Handle is
--                handle, mutate, sweep_liveness and cluster_meta, Snapshot is persist_snapshot and
--                load_snapshot. Handle.Step is the relation of its steps, under the lock of the source
--   Broker       src/broker. Partition is partition.rs: Partition.Run is one round of the loop `run`, on
--                the log and the epochs of Storage. Replica is the leader's side of cluster.rs, and
--                Fetcher is what run_fetcher there decides on the answers of its leader. Topics is the
--                topics of a broker without a cluster, in mod.rs. Roles
--                is apply_metadata of mod.rs, Isr is isr_maintenance, whose proposals go to
--                Controller.Handle.alter_isr, and Serve is what dispatch does to a replica; all three
--                advance the mark of Replica. Serve.Marks is the relation of these steps. Offsets is
--                offsets.rs, Groups is groups.rs, with assign in Groups.Range
--   Checker      src/checker/mod.rs: the histories and the verdict of verify; Gaps is
--                verify_from_start
--   Harness      src/harness. Rng is rng.rs, the random source of the fault schedules
--
-- Numbers. Integers are native numbers; a cast or an addition that the source lets wrap has its
-- modulus written out in the codec and in the controller's epochs and versions. The offsets and
-- sizes of a segment or a log, the generations of a group and the numbers of its members are
-- taken to stay below 2^64 and are not reduced. The sum `max + 1` of verify_from_start that
-- reaches 2^64 is a panic. A subtraction of `recover` or of a read that can pass below zero is
-- a result of its own, a panic.
--
-- Fuel. The scan of `recover` takes the length of the file and one more as fuel: every round but
-- the last consumes a record of at least 32 bytes. The loops of `read_from` and `position_of`
-- take the length of what they read and one more, for the same reason. The digits of a member
-- number take 20 as fuel, which every 64-bit number fits. The other loops are structural.
--
-- A HashMap is the list of its entries in order of the keys, so that the sorts of the source
-- leave it as it is. Calls of the operating system succeed where a file is modelled as its
-- contents.
--
-- Time is a number of milliseconds, read once for a command of a partition's thread and once for
-- a step of a broker. A step of a broker on a replica is what the source does while it holds the
-- lock of the replica's state, and the advance of the mark that follows it.
--
-- Not modelled: sockets, tasks, threads and channels; the start and the registration loop of a
-- broker; the text files and the printed report of the checker; the client, the rest of the
-- harness, the torture runs and the programs under src/bin.
pub mod Prelude
pub mod Broker
pub mod Checker
pub mod Controller
pub mod Harness
pub mod Proto
pub mod Storage
