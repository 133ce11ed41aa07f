-- ===== src/Lib.antt =====
-- Klunok watches mounts by fanotify and keeps versions of the files that editors write. This
-- library models its components and how they work together: errors, strings, sets, paths, the command
-- line, the queue, the store, and the handlers of events.
--
-- The parts, with their sources from the root of the repository:
-- * Trace (src/trace.c, inc/trace.h): errors. Every fallible function takes a `Host`: the trace,
--   and the outcomes of the allocations to come, where an exhausted list stands for memory that
--   never runs out. `TNULL(malloc(…))` is `tnull_malloc`, and `TNEG` is `tneg`. Trace/Blocks.antt
--   composes the operations to programs.
-- * Messages (inc/messages.h): the static messages by their identity.
-- * Buffer (src/buffer.c): growing strings with a cached hash. Memory is a list of bytes with the
--   terminator and what follows it, so a write past the end would show.
-- * Set (src/set.c): a hash table of chains that counts strings, over Buffer.
-- * Bitmap (src/bitmap.c) and StringList (src/list.c).
-- * Config (src/config-static.c): the constants, and the sets that are loaded from them, over Set.
-- * Scripted (src/config-lua.c): the configuration of the build with Lua, over Set; the interpreter is
--   a parameter, as a record.
-- * Params (src/params.c): the command line, over StringList and Trace.
-- * Paths (src/extension.c, and `get_common_parent_path_length` of src/parents.c).
-- * StorePath (src/storepath.c): the path of a version and its retries, over Buffer and Paths.
-- * Sieve (src/sieve.c): which sets a path or a directory above it is in, over Set and Buffer.
-- * Handler (src/handler.c): Handler.antt has the decision of `push_to_linq`, over Sieve and Bitmap;
--   Handler/Pushes.antt, its pushes; Handler/Timeout.antt, the loop of `handle_timeout` over Linq,
--   with `store` as a parameter. Handler/Settings.antt has the state of the handler and the record
--   of what inc/config.h reads from a configuration; below it, Executions is `handle_open_exec`,
--   Versions is `store` with its loops, Links and Projects, and Writes is `handle_close_write` with
--   the reload, and `load_handler`. `load_config` is a parameter there.
-- * Main (src/main.c): the loop over the mounts, over Mountinfo and Paths; and Main/Events.antt, the
--   event loop over the operations of the handler, with `poll` and the read of an event as
--   parameters.
-- * System (no source): the calls of the C library, as a parameter that the following parts take;
--   their laws are hypotheses of the theorems, as `IsLinkStore`, `IsTree`, `IsFileStore`,
--   `IsCopier` and `IsPipes`. That the `store` of a head keeps the queue is a hypothesis too,
--   `KeepsQueue`, of the directory of the queue only.
-- * Linq (src/linq.c): the debouncing queue of numbered links, over System, Set and Buffer.
-- * Numerals (no source): `strtol` of the C library, which src/linq.c and src/counter.c call.
-- * Counter (src/counter.c): a number in a file, over System and Directories.
-- * Serialize (src/serialize.c), and its inverse in Flusher.
-- * Directories (`create_parents` and `remove_empty_parents` of src/parents.c), over System.
-- * Flusher (src/flusher.c): `get_request`, over Set. The attribute that `getxattr` reads, and
--   whether `localtime` succeeds, are parameters. Flusher/Pipes.antt has `create_flusher` and
--   `acknowledge`, over System and Serialize.
-- * Building (no source): buffers that are built by appending one piece after the other.
-- * Timestamp (src/timestamp.c) and Journal (src/journal.c), over System, Building and Counter.
-- * Deref (src/deref.c): the path of a descriptor, over System and Building.
-- * Mountinfo (src/mountinfo.c): the mount table as a set, and bind mounts, over System and Set.
-- * Elf (src/elfinterp.c): the interpreter of a program, over System.
-- * Sync (src/sync.c): copies of files; Sync/Tree.antt, of trees; over System and Directories.
-- * Logstep (src/logstep.c, and `unwind` of src/trace.c): the report of an error, over System.
--
-- A function of the source has its name here; a body that is a loop has a function for the loop.
-- Pointers into strings are offsets or suffixes, null pointers are `none`, and functions that
-- change a structure return it. A `size_t` is a number below `size_mod`, with the wrap-around
-- written out; the bounds in the theorems keep lengths within it. `char` is signed, as on x86: a
-- byte above 127 is widened by its sign where it is hashed.
--
-- Loops recur over the list they read. `find_power` has 20 rounds of fuel and `concat_digits` 21,
-- which is enough, since a number below 2^64 has at most 20 digits. `read_entry` has 64
-- rounds, since a size doubles in each, and `get_head` one more than the queue has links, since each
-- round takes one off; so has `handle_timeout`. `read_counter` has 21
-- rounds, since each reads one of at most 20 bytes, and `write_counter` one more than there are digits. `deref_fd`
-- has 64 rounds too. `sendfile` is called at most once more than the file has bytes. Some loops have no
-- bound in the source, and take one as an argument: the pages of the mount table, the entries of a tree,
-- the paths of a version that are tried, and the rounds of the event loop. Theorems about them say
-- which bound is enough.
--
-- Not modelled: functions that only release memory; in src/main.c, the calls that drop privileges and
-- set up descriptors; the Lua code that src/config-lua.c runs; and the code in other
-- languages.
pub mod Prelude
pub mod Main
pub mod Messages
pub mod Trace
pub mod Buffer
pub mod Set
pub mod Bitmap
pub mod StringList
pub mod Params
pub mod Paths
pub mod StorePath
pub mod Sieve
pub mod Config
pub mod Handler
pub mod Flusher
pub mod System
pub mod Linq
pub mod Logstep
pub mod Elf
pub mod Sync
pub mod Deref
pub mod Mountinfo
pub mod Journal
pub mod Building
pub mod Timestamp
pub mod Counter
pub mod Scripted
pub mod Serialize
pub mod Numerals
pub mod Directories
pub mod Tests
