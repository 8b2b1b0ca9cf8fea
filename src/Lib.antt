-- ===== src/Lib.antt =====
-- learntorrent, a BitTorrent client: a model of the parts that decide what is downloaded, and that
-- speak to the peers.
--
-- The program is a set of tasks that send one another messages. At the start the bencoded text of a
-- torrent (src/bencoding.rs) becomes the `Metainfo` (src/metainfo.rs) that the tasks share. The
-- tracker manager (src/tracker_manager.rs) asks the trackers for peers and starts a peer task for
-- each. The Piece Keeper (src/piece_keeper.rs) hands piece IDs to the peer tasks (src/p2p.rs),
-- collects the validated pieces from them and passes those on to the I/O task (src/io.rs), which
-- writes them into the files. A peer task reads messages of the peer protocol off a TCP stream
-- (src/p2p/message.rs) and gathers the blocks of one piece at a time (src/p2p/piece_tracker.rs).
--
-- - Base: numbers, lists, texts, machine words, maps, and the outcome of fallible code.
-- - BitField: src/piece_keeper/bitfield.rs, the pieces of a peer. Laws: its bits.
-- - PieceList: src/piece_keeper/piece_list.rs, a set of pieces as a vector of ranges. Spec: the
--   pieces that a list covers, and the canonical form. Union: the union with one piece as a
--   recursive function. Compact, Insert, Find, Next, Size: the operations against these.
-- - PieceTracker: src/p2p/piece_tracker.rs. Invariant: the blocks of the piece that are pending or
--   completed. Requests, Completed, Sorting, Assembly: the operations against it.
-- - PieceKeeper: src/piece_keeper.rs, its handlers and the loop of `start`. Invariant: each piece
--   is queued, pending or finished. Handlers, Pick, Messages, Runs: handlers, picks, messages and
--   whole runs.
-- - Peer: src/p2p.rs, a session: the handlers of messages, the picks and the requests. Handshake:
--   the bytes of the handshake. Connect: the set-up of a connection. Field: the check of bit
--   fields. Session: the handlers. Process: the loop of `process`, and `start`. Balance, Life: the
--   pieces that a task is handed and reports. Plain: what else it tells the keeper.
-- - BeValue: src/bencoding/bevalue.rs, the values and the typed access to them.
-- - Bencoding: the parser of src/bencoding.rs. Reads, Total: where a call stops, and how deep its
--   values are. Print: the format, as a printer. Digits, Scalars, RoundTrip: the parser on what the
--   printer writes. Places: where a value stands in the text. Huge, Range: strings and
--   numbers that are too large.
-- - Metainfo: src/metainfo.rs, the fields and the piece sizes. Parse: the reading of the fields and
--   of the files. Files: the files one behind the other. Sizes: the pieces together. Load: a
--   torrent from its text, as src/main.rs reads it.
-- - Io: src/io.rs, and src/io/linux.rs with the kernel's queue as a parameter. Tiling: the file
--   that includes a place. Cut, Split: the parts of a piece. Runs: whole runs. Empty: an empty
--   first file. Torrent: the pieces of a torrent that was read. Disk, Saved: what the writes leave
--   in the files. Fallback: src/io/fallback.rs. Create: `Io::new`.
-- - System: the peer tasks of src/p2p.rs and the keeper of src/piece_keeper.rs together, on a
--   schedule of their turns. Invariant: the messages in the channels, and what waits for them.
--   Events, Tasks, Turns: the turns of a task. Keeper, Places, Delivery: those of the keeper.
--   Channel, Runs, Exit: schedules.
-- - PeerErr: the errors of src/p2p.rs and src/p2p/message.rs.
-- - Message: `Message` of src/p2p/message.rs; Codec: `encode` and `decode`; RoundTrip, Stream: the
--   two together, and the decoder on incomplete and on malformed input.
-- - Udp: the requests and responses of src/tracker_manager/udp.rs. RoundTrip: the packets.
-- - TrackerManager: src/tracker_manager.rs, the queue of peers and the loop. Queue, Runs: the tasks
--   that are started. Protocol: the parts that the two protocols share. Http:
--   src/tracker_manager/http.rs. Announce: the exchange of src/tracker_manager/udp.rs. Tasks: the
--   tasks of the trackers.
-- - Tests: the theorems at concrete inputs.
--
-- Functions and fields keep the names of the code. A struct with one field is that field. Arithmetic
-- wraps at the width of the type, as in a release build. A panic is the outcome `panicked`. The
-- buffers `BytesMut` and `Vec<u8>` are lists of numbers, a `HashMap` is an association list, and a
-- map of channel ends is the list of its keys. A handler of the Piece Keeper returns the messages
-- that it sends, in order; sends to tasks that have gone away, which end the program with a panic,
-- are left out, and so are logging and the printed progress.
--
-- Code of other packages is a parameter: the SHA1 function, the encoding of bytes in a URL, the
-- standard library's `from_utf8_lossy`, the submission of a write to the kernel's queue, the writers
-- of files, the creation of files and directories, the random numbers of the UDP exchange, and
-- `draw`, the index that the random number generator picks in a range, with the condition that it is
-- in range.
-- The rounding of `f32` and `f64` where sizes are computed is that of Base.Float, to 24 and to 53
-- significant bits.
--
-- The loops recurse on the list that the code iterates over, or on the number of rounds that the
-- code's range has; the scaling of an `f64` takes 85 rounds at most, one for each doubling. Only the
-- bencode parser runs on fuel: `levels`, 18 of them, one more than the depth at which the code
-- refuses a value, and `rounds` in a list or dictionary, one more than the bytes left, of which each
-- round reads one at least. The endless loops of the tasks are functions of a finite list of the
-- events or messages that arrive.
--
-- Not modelled: the sockets, files and timers themselves, the spawning of tasks and the logging; the
-- HTTP request and the addresses of sockets; the debug output of values; of src/main.rs the
-- arguments, the reading of the file and the signal. In System a task has the place in the list for its ID,
-- without the wrap of IDs at 2 ^ 32, and no waiting for a full channel.
pub mod Base
pub mod BitField
pub mod PieceList
pub mod PeerErr
pub mod PieceTracker
pub mod PieceKeeper
pub mod BeValue
pub mod Bencoding
pub mod Io
pub mod Metainfo
pub mod Peer
pub mod Message
pub mod Udp
pub mod TrackerManager
pub mod System
pub mod Tests
