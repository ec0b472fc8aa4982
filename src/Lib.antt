-- ===== src/Lib.antt =====
-- A verification library for OpenLake, an erasure-coded object store: the decisions that keep the
-- copies of an object, the locks on it and the identity of a cluster consistent.
--
-- An object is cut into stripes, each stripe into data shards and parity shards, and the shards are
-- written to the drives of one erasure set, which the cluster layout picks by a hash of bucket and
-- key. Each drive also keeps a metadata record. A read votes on the records, so that a minority of
-- drives that miss a write or are damaged does not change the answer. Writers of one key exclude
-- each other by a lock that a majority of the nodes grants. A cluster has one deployment id, on
-- which the drives vote when a node boots. Beside the objects, a node lends slots of shared memory
-- to clients that cache values by the hash of a key.
--
-- The files, with paths from the root of the repository:
--   Prelude, Prelude/Tests, Prelude/Lists, Prelude/Maps, Prelude/Int: shared names, Boolean tests,
--     lists, `HashMap` as an association list, signed machine integers.
--   Errors: `IoError` of crates/openlake_io/src/error.rs, `StorageError` of
--     crates/openlake_storage/src/error.rs, and `Result`.
--   Records: the records of crates/openlake_io/src/types.rs. Records/Envelope: `BucketMeta` there, with
--     its encoding.
--   Locks/Server: `LockServer` of crates/openlake_server/src/lock_server.rs; Locks/Server/Keeps says
--     what an entry survives. Locks/Client and Locks/Refresh: `DsyncClient::acquire`, the refresh task
--     and `LockGuard` of crates/openlake_storage/src/dsync.rs. Locks/Backoff: `jitter`.
--     Locks/Exclusion relates the nodes.
--   Erasure/Sizes, Erasure/Shards, Erasure/Stripe: crates/openlake_storage/src/ec.rs.
--     Erasure/Codec is the crate that it calls; Erasure/Stripe/Loss is about lost shards.
--   Consensus/Votes and Consensus/Results: `common_parity`, `common_etag`, `dominant_error` and
--     `require_quorum` of crates/openlake_storage/src/engine.rs. Consensus/Tally is about counting
--     votes in a `HashMap`. Consensus/Contract: `decode_contract_hash`; Consensus/Read:
--     `read_with_consensus`, over the list of what the backends answer;
--     Consensus/Written: the records that a write makes, `build_file_info` and `with_per_disk_index`;
--     Consensus/Session: `read_session_fi`, of a multipart upload.
--   Cluster/Topology: `ClusterConfig` of crates/openlake_storage/src/cluster.rs; Cluster/Routing is
--     about its sets. Cluster/Bootstrap: crates/openlake_storage/src/format.rs.
--   Kv/Slots: `SlotPool` of crates/openlake_io/src/kv.rs. Kv/Order and Kv/Lru are about its linked
--     list as a list of slots, Kv/Lru/Moves about moving a slot in it. Kv/Pool, Kv/Release,
--     Kv/Reserve and Kv/Commit say where its slots are.
--   Buffers/Pool: `MemoryPool` of crates/openlake_io/src/alloc/memory_pool.rs, a buffer being its
--     capacity; Buffers/Fit is about the sizes that it serves.
--   Objects/Range: `ByteRange` of crates/openlake_storage/src/engine.rs.
--     Objects/Listing: `vote_fileinfo` and `to_object_info` of that file, `ObjectInfo` of
--     crates/openlake_storage/src/object.rs.
--   XlMeta: crates/openlake_io/src/xl_meta.rs. XlMeta/Layout is the records, XlMeta/Uuid the ids,
--     XlMeta/Checks the two validators, XlMeta/Encode `encode_versions`, XlMeta/Decode `decode_all` and
--     what uses it. XlMeta/RoundTrip and XlMeta/Newest are about what is read back.
--   Disks: crates/openlake_io/src/local_fs.rs, for one object on one disk. Disks/State is its directory and
--     that of a write, Disks/Versions `read_version` and `write_metadata`, Disks/Rename `rename_data`,
--     Disks/Delete `delete_version`. Disks/Steps is about chains of steps of I/O, any of which may fail;
--     Disks/Atomic and Disks/Undo about what `rename_data` and its undo leave.
--     Disks/Promote: `promote_versions` of crates/openlake_storage/src/engine.rs, over the drives of a
--     set.
--   Streams: crates/openlake_io/src/stream.rs. A stream is the type of its states and its `read`, which
--     is a parameter of `read_full` and `pump_n`; Streams/Skip is `SkipTakeStream`. Streams/Facts,
--     Streams/Pump and Streams/Window say what is read of the bytes that a stream holds.
--   Auth: the verification of requests. Auth/Failures, Auth/Header, Auth/Query and Auth/Verify:
--     crates/openlake_server/src/auth.rs, over the texts of Auth/Text (a text is its bytes) and
--     Auth/Utf8. Auth/Check: `run_check` of crates/openlake_server/src/s3/middleware/sigv4.rs.
--     Auth/HeaderRoundTrip, Auth/QueryFacts, Auth/Compare and Auth/Sound are about them.
--     Auth/Body/Frames and Auth/Body/Chunked: `AxumBodyStream` and `ChunkedBodyStream` of
--     crates/openlake_server/src/s3/body_source.rs; Auth/Body/Hashed: `Sha256VerifyStream` of auth.rs.
--     Auth/Body/Sound and Auth/Body/Hash say what a body has shown that is read to its end;
--     Auth/Body/Framing, Auth/Body/Whole and Auth/Body/Reading that a well-made body is read back.
--   S3/Failures: crates/openlake_server/src/s3/error.rs. S3/Range, S3/Serve and S3/Upload: the headers,
--     responses and bodies of crates/openlake_server/src/s3/handlers/objects.rs. S3/Ranged joins them
--     with Streams and Objects/Range, S3/UploadFacts with Auth.
--   The files named Examples hold runs at concrete inputs.
--
-- Conventions. Numbers are natural numbers; where a width matters the wrap-around is written out.
-- Arithmetic that overflows wraps, as in a release build.
-- Time is an argument, a number of milliseconds. A `HashMap` that is iterated is given the order of
-- the iteration as an argument, of which only that it lists the entries is assumed. What the network
-- does to a message is a schedule: the request or its reply may be lost. Loops that poll recurse on
-- the list of what each round meets, and return `pending` or `none` if that list ends first; the
-- theorems on termination say which lists are long enough. The loops that read a stream recurse on
-- fuel: `fill` and `pump` on the number of bytes that are wanted, `skip_loop` on one more than what is
-- to be skipped, those of Auth/Body/Chunked on two more than the frames that are left. Each round takes
-- a byte or a frame at least, so that this is enough. No other recursion has a bound. In Auth a time
-- is a number of nanoseconds; white space is ASCII.
-- Which calls to the operating system fail is a parameter. A Rust panic is `none`.
--
-- Not modelled: the reed-solomon-simd crate, SipHash, and the crates aws_sigv4, sha2, http, time,
-- rmp_serde, xxhash_rust, blake3, crc32c and aligned_vec, which are parameters; the rest of the
-- file system, RPC and RDMA layers, which only move bytes; the listings, the copies and the deletes
-- of the S3 handlers, and its XML; start-up and configuration; the entry points of the engine (put,
-- get, list, delete and multipart uploads), of which the decisions are modelled. What other clients
-- do to the nodes between two messages of one `acquire` is not in Locks/Client; Locks/Exclusion has
-- the requests of all clients in any order. `PooledBuffer`, which returns a buffer on drop, and
-- `HostSlab`, which maps the slots, only call what is modelled.
pub mod Prelude
pub mod Errors
pub mod Records
pub mod Locks
pub mod Erasure
pub mod Consensus
pub mod Cluster
pub mod Kv
pub mod Buffers
pub mod Objects
pub mod XlMeta
pub mod Disks
pub mod Streams
pub mod Auth
pub mod S3
