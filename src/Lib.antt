-- ===== src/Lib.antt =====
-- Verification library of FSP: the parts of server/ that decide what a datagram may do and what the
-- server answers, and the parts of client/ that ask, read directories, keep them and move files.
--
-- A request is one UDP datagram. `server_loop` (server/server.c) checks its length, looks its
-- sender up in an address table (server/iprange.c), finds or makes the sender's record in the
-- client table (server/host.c), compares its key with the two keys of that record, checks the
-- checksum, and then carries the command out. Paths in a request go through `parse_path`
-- (server/path.c) and `validate_path` (server/file.c). Directories, listings and open streams are kept
-- in three FIFO caches (server/fifocache.c), and who may do what in a directory is read from its
-- control files (server/acl.c).
--
-- Base: the names that the modules share, tests on numbers, lemmas on lists.
-- Packet: `UBUF` of include/common_def.h, the fields of include/tweak.h, the length checks, and the
--     checksum of `server_reply` and `client_interact` (client/lib.c) with the check on each side.
--     `decode` reads what `recvfrom` stored. The sum is kept modulo 2 ^ 32, as an unsigned int.
-- Hosts: `find_host` and `init_htab`. The array is the list of its cells, of which `hcnt` are in use.
--     What `gethostbyaddr` answers and the cells that `realloc` adds are parameters.
-- PathName: `parse_path`. A pointer into the buffer is an index, or the literal ".". A read out of
--     the buffer is an outcome of its own.
-- IpRange: `check_ip`, `check_ip_table`, `parse_ipline` with all that it calls, and the text of a line that
--     `dump_iptab` prints. `gethostbyname` is a parameter. An address is a number as a little-endian
--     machine loads it. An `unsigned long` has 64 bits.
-- Session: the key check of `server_loop`, the keys that `server_process_packet` draws, and CC_BYE. The
--     random numbers are given with the datagrams.
-- FifoCache: every operation on a cache except its statistics and `f_cache_destroy`. A block of records is a list of
--     values, and what the destroy functions got is logged. A pointer to an entry is its distance from
--     the start of the block.
-- Rights: `require_access_rights` of server/acl.c, and the protection byte that `server_get_pro` and
--     `server_set_pro` of server/file.c show and change. An unsigned char is a number below 256.
-- AccessFiles: `load_access_rights`, `save_access_rights` and the functions for passwords of server/acl.c,
--     with `add_ipline` and `dump_iptab` of server/iprange.c. The control files of a directory are a record
--     of what is in them. A write of `add_ipline` out of the table is an outcome of its own.
-- Validate: `validate_path` of server/file.c with the cache of directories. The calls of the system at the time
--     of a request are a record of functions.
-- Streams: `search_fpcache` and `server_get_file` of server/file.c with the cache of streams. A stream is a
--     number, and a number is not given twice.
-- DirLists: `server_get_dir` of server/file.c with the cache of listings and the file FSP_DIRLISTING. What a
--     directory gives at the time of a request is a parameter.
-- Dispatch: `server_process_packet` with all its commands. The functions of server/file.c that it calls
--     are a record of functions on the state of the files. What is logged is left out, and so is a
--     failing `sendto`. Offsets of files have 64 bits.
-- Server: one round of `server_loop` for a datagram that has arrived, which joins the parts above. The
--     client table and the files are its state; an exit of the server is an outcome.
-- Throttle: the wait of `server_reply` under a throughput limit.
-- Listing: `append_dir_listing` and `build_dir_listing` of server/file.c, from the records that `readdir`
--     gives with the answers of `stat`. Listing.Layout describes the blocks that they make.
-- DirReader: `get_dir_blk` of client/util.c. The buffer is the list of the bytes that it holds, and a read
--     behind them is an outcome of its own. What the server answers is a function of the position;
--     DirReader.Served takes it from CC_GET_DIR of Dispatch over a listing of Listing.
-- AbsPath: `util_abs_path`, `util_junk_password` and `util_split_path` of client/util.c. The bytes before
--     the cursor of `util_abs_path` are a list in reverse. AbsPath.Parts holds the reference by parts.
-- DirStore: the list of directories of client/util.c, with `util_opendir`, `util_closedir`, `util_readdir`,
--     `util_stat`, `util_cd` and `util_cd2`. A pointer to a record is the path of the record; what the server
--     answers during a call is a parameter.
-- Exchange: `client_interact` of client/lib.c, over a list of rounds: whether `sendto` succeeds, and the
--     datagrams that arrive before the delay is over. Exchange.Peer joins it with Dispatch and Session.
--     An unsigned long has 64 bits.
-- Transfer: `util_download_main` and the loop of `util_upload` in client/util.c, and `server_up_load` of
--     server/file.c for the temporary file of one client. Transfer.Upload asks of a receiver only the laws
--     of `Receives`, which Transfer.Received proves of the temporary file.
-- FileOps: `copy_file`, `server_install`, `server_secure_file` and `server_grab_done` of server/file.c over
--     an interface of the calls of the system, `System`, with what they do in `Laws`: a stream is buffered,
--     and its bytes are in the file when `fclose` has succeeded. Times and the umask
--     are left out. FileOps.Remove holds `server_del_file` and `server_rename`, with the times that they set.
-- StatQuery: `server_stat` of server/file.c over Validate, and the part of `util_stat` in client/util.c that
--     reads its answer.
--
-- Loops are recursion on the list that they read, or on a counter. The search of `find_host` runs on
-- fuel: it gets `hcnt + 1` rounds, and each halves the distance of its bounds, which starts below
-- `hcnt`. So do the loops of `get_dir_blk`, `util_download_main` and `util_upload`, where each round takes a
-- byte at least, so that the length of the listing or of the file is enough, and the wait of Throttle, of
-- which one round is. The loop of `util_abs_path` gets the length of the merged path: each pass shortens
-- what is behind the cursor. The loop over the owner file gets one round more than the file has bytes.
--
-- Not modelled: `server_del_dir`, `server_make_dir` and `server_grab_file` (server/file.c);
-- `util_process_file` (client/util.c), which calls back; the
-- configuration (server/conf.c), log and pid files, start and signals (server/main.c), the sockets
-- (common/udp_io.c) and the keys that processes share (client/lock.c), since these are calls of the system
-- with little state; the command-line clients (clients/); and bsd_src/, which is copied from BSD.
pub mod AbsPath
pub mod AccessFiles
pub mod Base
pub mod Packet
pub mod Hosts
pub mod PathName
pub mod IpRange
pub mod Session
pub mod FifoCache
pub mod Rights
pub mod Dispatch
pub mod Server
pub mod Listing
pub mod DirLists
pub mod DirReader
pub mod DirStore
pub mod Exchange
pub mod Transfer
pub mod Validate
pub mod Streams
pub mod Throttle
pub mod FileOps
pub mod StatQuery
