-- ===== src/Lib.antt =====
-- A verification library for releveldb (db/), a key-value store in the manner of LevelDB.
--
-- The parts, from the bottom up, with the files that model them:
--   * Slice (db/Slice.h, db/Slice.cpp): a view of bytes, here the list of its byte values, with
--     Slice::Compare, StartsWith, DropFirstNBytes, operator==. Slice/Order, Slice/Prefix.
--   * Coding (db/Coding.h, db/Coding.cpp): fixed-width and variable-length integers: EncodeFixed64,
--     DecodeFixed32, DecodeFixed64, GetVarint32Ptr with its fallback, GetVarint64Ptr. Coding/Fixed,
--     Coding/Varint.
--   * Comparator (db/Comparator.h, db/Comparator.cpp): the interface as a record of operations, the
--     contract IsLawful in Comparator/Laws that clients take as a parameter, and the bytewise
--     implementation. Comparator/Separate describes its two shortening functions on lists,
--     Comparator/Bytewise shows that it fulfils the contract.
--   * DbFormat (db/DBFormat.h, db/DBFormat.cpp): internal keys, a user key with a sequence number and
--     a type behind it. DbFormat/Encoding, DbFormat/Order, DbFormat/Separators, DbFormat/Debug;
--     Order and Separators are over any user comparator with IsLawful.
--   * Arena (db/Arena.h, db/Arena.cpp): the allocator. Arena/Regions, Arena/Allocation,
--     Arena/Release.
--   * SkipList (db/SkipList.h): the sorted set over an explicit heap. SkipList/Chain says what a
--     well-formed list is, /Find is about the search, /Link and /Splice about the stores of Insert,
--     /Insert, /New and /Contents about the operations. SkipList/Concurrent has Insert and Contains
--     as single accesses to what they share, in any order: /Alone shows that in a row they are the
--     functions, /Ahead, /Writer, /Readers, /Bound and /Runs are about the steps, and /Safety about
--     the whole.
--   * Random (db/random.h): the random numbers. Random/Lehmer.
--   * Logging (db/Logging.h, db/Logging.cpp): escaped strings. Logging/Escape.
--   * Status (db/Status.h, db/Status.cpp): results with an error message. Status/Message; Status/Memory has
--     the objects with their buffers in memory.
--   * Iterator (db/Iterator.h, db/Iterator.cpp): clean-ups and the empty iterator. Iterator/Order.
--   * Block (db/Block.h, db/Block.cpp, db/Format.h): sorted blocks with prefix-compressed keys:
--     the constructor and DecodeEntry in Block, Block::Iter in Block/Iter. Block/Decode,
--     Block/Restarts, Block/Parse. Block/Layout and Block/Sorted say what a block of entries is;
--     Block/Scan is about the linear search of Seek, Block/Search about its binary search,
--     Block/Seek about the whole. Block/Versions and Block/Lookup put DbFormat's
--     comparator into it. Block/Bounds, Block/Corrupt, Block/Stops,
--     Block/Halves and Block/AnyBytes are about arbitrary bytes.
--   * Env (db/Env.h, db/Env.cpp): the interface to the system as records of operations on a state,
--     and the utilities over it. Env/Write has the contract of a writer and is about
--     DoWriteStringToFile, Env/ReadAll has that of a reader and is about ReadFileToString.
--   * PosixLogger (db/posix_logger.h): the line that Logv makes in its two rounds. PosixLogger/Line.
--   * EnvPosix (db/Env_posix.cpp): EnvPosix/Sys has the system calls, a parameter, and the members
--     of PosixEnv with MmapLimiter and PosixLockTable; EnvPosix/Files the file classes;
--     EnvPosix/Opening and EnvPosix/Operations the operations of PosixEnv, gathered in posix_env as
--     an implementation of Env. EnvPosix/Errors, /Mapped, /Limiter, /LockTable and /Locks are about
--     error statuses and resources, /Contention about MmapLimiter's accesses as steps of threads, /Whole about ReadFileToString on PosixEnv, /Writer and /Store
--     about PosixWritableFile, /Create about WriteStringToFile on PosixEnv, /RoundTrip about the
--     two together. EnvPosix/Queue is the queue of
--     Schedule and BGThread as a step relation, with its invariant in Queue/Order and its progress
--     in Queue/Progress.
-- Base holds what they share: lists and Boolean tests on native numbers, bit operations as
-- arithmetic, texts, and chains of fallible steps. Act has such chains on a state.
-- Once (db/port_posix.cpp) has PthreadCall and InitOnce, and the functions that make one object at
-- their first call, BytewiseComparator() of db/Comparator.cpp and Env::Default() of
-- db/Env_posix.cpp; pthread_once and the address that new gives are arguments.
--
-- How the models read the code. A byte is its unsigned value, and a string or a slice the list of its
-- bytes; a pointer with a limit is the list of the bytes between the two. `none` is a failed assert,
-- a read or write outside the memory that is there, or fuel run out; where the source returns NULL
-- or false with no other result, `none` stands for that, as the file says. An int that is the
-- result of a comparison is known by its sign. Unsigned arithmetic wraps as the source's types say
-- wherever it can. kLittleEndian (db/port_posix.h) is an argument; memcpy of an integer is modelled
-- for the host where it holds, which is where the source calls it in Coding, and Status is modelled
-- for such a host. sizeof(char*) is 8.
--
-- SkipList's nodes live at addresses of a heap that maps an address to a key and to next pointers.
-- NewNode's memory comes as an argument: an address that no node uses, with arbitrary contents, as
-- AllocateAligned gives it; the array prev of Insert starts with arbitrary contents too. The search
-- loop runs on fuel; the number of nodes and 5 more rounds are enough, since every round passes a
-- node or goes down one of at most 5 levels. In SkipList/Concurrent the accesses of the writer and of a
-- reader follow one another in some order, each reading what the last store left: that is what the
-- release stores and acquire loads of db/atomic_pointer.h are for, whose weaker orders are not modelled.
-- In Arena, what new char[n] returns is an argument, with the hypotheses that it is disjoint
-- from the arena's blocks and, for AllocateAligned, divisible by 8.
-- Block::Iter's loops run on fuel; for the loop over the restart points of ParseNextKey
-- the number of restart points and one more round are enough, for the binary search of Seek a round
-- for each restart point, and for its linear search a round for each entry and one more.
--
-- Env's operations are steps on a state of any type; none is a fault, such as a call through a null
-- pointer. In EnvPosix that state is PosixEnv's members with a state of the system, and the calls of
-- the C library and of POSIX are a record of functions, of which the theorems assume what they name:
-- that the messages of strerror are short, that a stream gives the bytes that are left, that fwrite,
-- fflush, fsync and fclose do to a file what they report, that a mapping is as long as the file,
-- that a created thread starts and a signal wakes a waiting one.
-- Mutexes make the operations of MmapLimiter, PosixLockTable and Schedule single steps; for
-- MmapLimiter, whose first test stands outside its mutex, EnvPosix/Contention has the accesses apart.
-- In EnvPosix/Queue a function that the background thread runs is taken to return, in one step.
-- ReadFileToString's loop runs on fuel, for which a round for each 8192 bytes and one more is
-- enough; GetChildren's runs on fuel too, a round for each entry and one more.
--
-- Not modelled: the destructor of PosixEnv, which aborts, and threads-library calls
-- that fail, which abort too; the wrappers of the platform's mutexes and barriers, and the
-- headers that only declare (Cache, Table, FilterPolicy, Options, DB, LogWritter). libs/ is another project's test library.
pub mod Base
pub mod Act
pub mod Once
pub mod Slice
pub mod Coding
pub mod Comparator
pub mod DbFormat
pub mod SkipList
pub mod Random
pub mod Arena
pub mod Logging
pub mod Status
pub mod Iterator
pub mod Block
pub mod Env
pub mod PosixLogger
pub mod EnvPosix
