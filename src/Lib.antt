-- ===== src/Lib.antt =====
-- Cycology, a log-structured file system on a simulated NAND memory, mounted through FUSE. The
-- modelled sources are in fuse-3.0.2/example, and a first prototype in JuliaRehaanExample.
--
-- The store is one file: two features, then blocks of 16 pages, each block with the number of its next
-- free page and an erase count. vNANDlib.c reads, writes and erases it; makeVirtualNAND.c creates the
-- file and makefs.c puts an empty file system on it. A file lives in a log, a sequence of blocks that
-- is written page after page. helper.c hands out virtual addresses, blocks of the two free lists and
-- pages of logs; logs.c gives the blocks of a log back; passthroughBlocked_fh.c holds the handlers that
-- FUSE calls, of which mount, unmount and the creation, opening, reading, release and removal of files
-- are modelled.
-- showNAND.c prints what a store holds. cache_code is a cache of pages that the handlers do not use yet:
-- a table of entries by key, which are also in lists of data and metadata pages, and reads, writes,
-- flushes and evictions of files through it. The prototype, fusexmp_fh.c with pageCache.c, keeps pages
-- of the host's files in a list, the one used last first.
--
-- Base: shared names, Boolean tests, C's 32-bit integers (Base/Words), runs that may be undefined
--   (Base/Runs).
-- Disk: the structs of loggingDiskFormats.h and fuseLogging.h. Disk/Images: the words that they fill.
-- Nand: vNANDlib.c. initNAND is `init_nand`, readNAND `read_nand`, writeNAND `write_nand`, eraseNAND
--   `erase_nand`; the file and the static features are the record `Nand`. Nand/Layout: where pages lie.
--   Nand/Pages: the store as pages and counters. Nand/Write, Nand/Erase, Nand/Chain: writes, erasures,
--   linked lists of pages.
-- Makefs: makeVirtualNAND.c (`make_virtual_nand`) and makefs.c (`makefs`). Makefs/Link: its loop.
--   Makefs/Format: the whole.
-- Addresses: getFreePtr (`get_free_ptr`). Addresses/Alloc: the list of unused entries.
-- Log: getFreeBlock and getFreePage (`get_free_block`, `get_free_page`) and the functions that set up
--   inodes, headers and logs. Log/Blocks, Log/Steps, Log/Pages, Log/Sequence: what they hand
--   out. Log/Recycle: logs_recycle, with Log/Recycle/Append and Log/Recycle/Full.
-- Mount: initCYCstate, xmp_init and xmp_destroy. Mount/Images, Mount/RoundTrip: unmount, then mount.
--   Mount/Empty, Mount/Fresh: the first mount.
-- Files: getLogForFile, initOpenFile, writeCurrLogHeader and xmp_create. Files/Create, Files/Creation,
--   Files/Header.
-- Open: xmp_open. Open/Count: what it counts and which log it gives a file.
-- Unlink: xmp_unlink. Unlink/Recycled: what becomes of the blocks.
-- Handlers: xmp_fstat, xmp_read, xmp_statfs and xmp_release. Handlers/Release: open, then release.
--   Handlers/Dirs: xmp_opendir, xmp_readdir, and the handlers that pass a call on a path to the host.
--   Handlers/Listing: a directory listed by several calls. Handlers/Attributes: modes, owners, times,
--   extended attributes and locks. Handlers/Buffer: prepBuffer and xmp_write.
-- Dll: doubly linked lists with a head and a tail, which cache_code keeps four of. Dll/Chained: their
--   segments. Dll/Refine, Dll/Removal, Dll/Moves: additions, removals and moves as operations on lists.
--   Dll/Again: an addition of a struct that is there already.
-- Cache: cache_code. Cache/Structs: cacheStructs.h, and the memory of structs (`Heap`). Cache/Keys:
--   keyCmp and cache_hash, with Cache/Texts and Cache/Lengths on the decimal texts of keys.
--   Cache/Table: cache_create, cache_newEntry, cache_set, cache_get and cache_remove. Cache/Bins,
--   Cache/Lookup, Cache/Link, Cache/Insert, Cache/Remove, Cache/Agree: the bins as lists. Cache/Order,
--   Cache/Apart: the order of keys, and the other keys of the cache.
--   Cache/Queues: the functions of cache.c, openFile.c and filesystem.c on the lists. Cache/Lists,
--   Cache/Files: those as operations on lists. Cache/Tree: filesystem.c from getParentKey to
--   fs_writeData. Cache/Flush: the rest of it. Cache/PutPage: what putPageIntoCache does to the table
--   and the lists. Cache/Written, Cache/Twice: fs_writeData with a new page and with an old one.
--   Cache/Indexes, Cache/Levels, Cache/Reread: fs_getPage with a page that is not there. Cache/Emptied,
--   Cache/Flushed, Cache/Evicted: a file's pages that leave the table, and the file.
-- Paged: the prototype's cacheLoop (`cache_loop`), xmp_init and xmp_read. Paged/Write: xmp_write.
--   Paged/Nodes, Paged/Search, Paged/Coherent, Paged/Fetch: its list and the copies of pages in it.
--   Paged/Parts, Paged/Plain, Paged/Stuck: reads. Paged/Spliced, Paged/Splice, Paged/Shares, Paged/Store,
--   Paged/Ends: writes. Paged/Back: a write, then a read.
--   Paged/Empty: the list at the start.
-- Show: showNAND.c. Show/Ends: the walk over a free list.
-- Examples: small stores, and the theorems at them, in its child modules.
--
-- State is passed explicitly. An `int` is its bit pattern below 2 ^ 32 with the wrap-around written
-- out, `/` and `%` truncate as C's do. `Io` says whether the calls of `read` and `write` succeed:
-- they then move all bytes, otherwise none. `none` is a run with undefined behaviour, or one that
-- goes on at a position of the file that is not followed. What uninitialised memory holds is an
-- argument. The record `IsFormatted` bounds the store: its size is that of its blocks, below 2 ^ 31
-- bytes. Loops with a counter are recursion on the rounds that are left. The walks along pointers
-- have a bound: a bin is no longer than the cache's count of entries, a list than the number of
-- pointers that were handed out, a walk over a free list than the number of blocks, the calls of
-- fs_getPage than the tree is high; a run that passes the bound is `none`. The loops of
-- printVaddrMap have the bound as an argument. `malloc` does not fail, and its pointers are never
-- handed out twice. cacheLoop has fuel; the theorems that it ends ask for as much as there are
-- nodes, with one more for each page. The loop of xmp_readdir has fuel too, at least the number of
-- entries with one more. In the prototype a path is a number, since it is only compared, and offsets
-- are not negative.
--
-- Not modelled: printing, but for showNAND, and `perror`; the path names and stub files of the
-- host's file system, but for the number in a stub file, the results of the calls and the entries of
-- a directory; xmp_releasedir, xmp_lock, xmp_read_buf and xmp_write_buf, and the handlers of the
-- prototype that pass a call to the host; libfuse and its examples; the drafts that do not compile.
pub mod Base
pub mod Disk
pub mod Nand
pub mod Makefs
pub mod Addresses
pub mod Log
pub mod Mount
pub mod Files
pub mod Open
pub mod Paged
pub mod Unlink
pub mod Handlers
pub mod Dll
pub mod Cache
pub mod Show
mod Examples
