-- ===== src/Lib.antt =====
-- bentorrent, a BitTorrent client in Rust: what it reads, what it requests, what is complete and
-- what goes over the wire.
--
-- The program reads a metainfo file (src/main.rs): bencode (src/file/bencode.rs, Bencode) is parsed
-- to a value, and the value is converted to a torrent (src/model/torrent.rs, Metainfo). It asks the
-- tracker for peers (src/peer/tracker.rs, TrackerClient), whose answer is bencode too
-- (src/model/tracker.rs, TrackerResponse), and connects to them (src/peer/net.rs, Connection/Peering).
--
-- A torrent is a number of pieces of equal size, the last of which may be shorter
-- (src/peer/mod.rs, Torrent). The processor (src/peer/state/mod.rs) keeps for every peer
-- which pieces it has (Peers) and whether it chokes us or is interested in us (State). A tracker
-- of blocks (src/peer/state/piece.rs, Piece) says which pieces are not started, in progress
-- or completed, asks peers for the missing blocks up to a limit, and drops requests that expire.
-- Blocks that arrive are written to a store, in memory (src/peer/io/mod.rs, Memory) or in a file
-- (src/peer/io/file.rs, FileStore), which records the written ranges of each piece (Slices) and so
-- knows when a piece is complete; the file store then compares its hash. Peers exchange messages in
-- frames with a length prefix (src/peer/protocol.rs, Protocol), which a connection puts together
-- from what the stream delivers and passes to the processor (src/peer/net.rs, Connection). The
-- processor's tasks change the shared state one message at a time (Processor).
--
-- Files and code:
--   Torrent: V1Torrent, TorrentAllocation (allocate_torrent, piece_len); Torrent/Layout: sizes.
--   Slices: Slices (insert, is_complete); Slices/Step: the relation Inserts; Slices/Order,
--     Slices/Cover, Slices/Exact, Slices/Shrink: order, coverage, completion.
--   Piece/Blocks: PieceToBlockMap; Piece/Expiry: InprogressPieceToBlockMap;
--     Piece/Allocation: PieceBlockAllocation; Piece/Tracker: PieceBlockTracker, and in
--     Piece/Tracker/Steps the tracker as a state machine.
--   Peers: PeerPieceMap; Peers/Mirror: its two directions as one relation.
--   State: TorrentState; State/Choking, State/Leaving, State/Interest, State/Available.
--   Protocol: Handshake, Messages, their encoders and decoders; Protocol/Frames,
--     Protocol/RoundTrip, Protocol/Incomplete, Protocol/Handshakes.
--   BytesApi: the buffer operations of the bytes crate, a parameter with its documented behaviour;
--     BytesApi/Concrete: an implementation that meets it.
--   Outcome: results of fallible code, a panic included. Prelude: numbers, lists, sets, maps.
--   Examples: the theorems at concrete inputs.
--   BitField: BitFieldReader, BitFieldReaderIter, BitFieldWriter (src/peer/bitfield.rs);
--     BitField/Holding, BitField/RoundTrip: what is written reads back.
--   Io: TorrentIO as a record of operations, PeerError; Memory: MemoryTorrentIO
--     (src/peer/io/mod.rs), byte by byte in Memory/Copying and Memory/Bytewise;
--     Handler: IoHandler and its task (src/peer/io/state.rs).
--   FileStore: the pieces of FileTorrentIO::new (src/peer/io/file.rs); FileStore/Offsets: their
--     offsets; FileStore/Store: FileTorrentIO (write_piece, read_piece, compute_file_sha1_hash);
--     FileStore/FileApi: the file, a parameter; FileStore/Hashes, FileStore/Contents: the check of
--     a hash, and the bytes of the file; FileStore/Stuck: a piece that has failed its check.
--   Connection: read_msg (src/peer/net.rs); Connection/Reassembly: chunks; Connection/Peering:
--     write_msg, do_handshake, connect_torrent_peers; Connection/Handshaking, Connection/Limit;
--     Connection/Running: run_connection, each poll of its select! a step; Connection/Relaying,
--     Connection/Keeping, Connection/Delivery, Connection/Draining, Connection/Outgoing,
--     Connection/Ending.
--   Text: from_utf8_lossy and the order of byte strings, of the standard library.
--   Bencode: Bencode and its encoder (src/file/bencode.rs), Error (src/file/error.rs);
--     Bencode/Decimal: how integers are written; Bencode/Dict: BTreeMap; Bencode/Nom: the
--     combinators of the nom crate, a parameter with their documented behaviour, met in
--     Bencode/Nom/Concrete; Bencode/Parser: the parser; Bencode/Valid: what the types can hold;
--     Bencode/RoundTrip, Bencode/Total, over Bencode/Reading, Bencode/Choice,
--     Bencode/Ordered, Bencode/Ensures.
--   Metainfo: V1TorrentInfo::try_from, V1Torrent::try_from (src/model/torrent.rs); Metainfo/Main:
--     main (src/main.rs); Metainfo/Keys, Metainfo/Reads, Metainfo/Errors.
--   TrackerResponse: TrackerPeer, TrackerResponse (src/model/tracker.rs), TrackerResponse/Entries,
--     TrackerResponse/Reads;
--     TrackerClient: TrackerClient (src/peer/tracker.rs), TrackerClient/Announce.
--   Startup: Config (src/config.rs), make_peer_id, inner_start_processing (src/peer/mod.rs) up to the
--     connections; Startup/Asked: the peers of the tracker's answer.
--   Processor: TorrentProcessor (src/peer/state/mod.rs); Processor/Handling:
--     inner_handle_peer_msgs; Processor/Loop: start; Processor/Valid, Processor/Validity,
--     Processor/Unchoking, Processor/Serving, Processor/Exits, Processor/Dispatch,
--     Processor/Announcing.
--
-- Conventions. Machine integers are natural numbers with their wrap-around written out, as in a
-- release build. Bytes are numbers below 256. Hash sets and maps are lists in the order in which
-- they are walked, so a choice that depends on that order is a choice by the list. Times are
-- numbers of nanoseconds, and what the clock reads is an argument. A String is its UTF-8 bytes.
-- The loops of the processor and of run_connection are runs of any length, over a list of events;
-- every other loop is over a list or a count that is known first. Only parse_type calls itself
-- without such a bound: its argument is the number of calls that the stack has room for, one call
-- more than there are bytes of input is enough, and a stack that is used up is a panic. The bits of
-- a bit field are read for eight times its length, after which the iterator of the code ends.
--
-- Parameters are SHA-1, hexadecimal text, the file of tokio, the buffers of the bytes crate, the
-- combinators of nom, addresses and their percent encoding, IpAddr::from_str, and what the network
-- delivers.
--
-- Not modelled: an I/O error of a read from a socket (a stream ends, at once or inside a message, but
-- does not fail otherwise), the choice of the store and the wait for the first task to end at the start
-- (src/peer/mod.rs), the creation of files, the command line and the logging, which are tasks and
-- I/O around the modelled code.
-- Channels are open or closed; their capacity, and the order in which a runtime lets tasks go on,
-- are not modelled: a run of the processor or of a connection is any sequence of its steps.
pub mod Startup
pub mod FileStore
pub mod Io
pub mod BitField
pub mod Memory
pub mod Handler
pub mod Connection
pub mod Processor
pub mod Prelude
pub mod Torrent
pub mod Slices
pub mod Piece
pub mod Peers
pub mod State
pub mod Outcome
pub mod BytesApi
pub mod Protocol
pub mod Examples
pub mod Text
pub mod Bencode
pub mod Metainfo
pub mod TrackerResponse
pub mod TrackerClient
