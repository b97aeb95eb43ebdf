-- ===== src/Lib.antt =====
-- Verification library for the C part of OProfile: the sample files, the event buffer that fills
-- them, and the choice of the hardware counters that are sampled.
--
-- The kernel's module hands the daemon a buffer of numbers. `opd_process_samples`
-- (daemon/opd_trans.c) reads it: escape codes set a context (cpu, task, image, mode), and every
-- other pair of numbers is a sample, which is logged in the sample file of the context. A sample
-- file (libdb) is a hash table in a memory-mapped file, from keys to 32-bit counts, that doubles
-- when it is full. Which events the hardware counts is settled before, by the backtracking search
-- of libop/op_alloc_counter.c. Code that a virtual machine compiles at run time is in no file: the
-- machine reports it through libopagent, which writes a dump, and opjitconv reads the dump, makes
-- the symbols disjoint and their names distinct; the daemon finds such code as anonymous mappings.
--
-- The files:
--   * Base: names and lemmas that all parts share: Boolean tests, lists over the native numbers,
--     the sizes of machine words, bits of numbers.
--   * Odb: libdb/odb.h, libdb/db_insert.c and the growth in libdb/db_manage.c. `OdbData` is
--     `odb_data_t`: the tables are one function from indices to 32-bit words, four for a node
--     (two of the key, one of the value, one of the next index, as in `odb_node_t`), with the
--     hash table behind the last node, as in the file. Growing therefore moves the hash table
--     over what the file holds there, as in the source. The results of ftruncate and mremap are
--     `GrowCalls`. `odb_update_node_with_offset`, `add_node` and `odb_grow_hashtable` have the
--     source's names. Odb/Valid holds the invariant, Odb/Chain the hash chains, Odb/Find the
--     walk along them, Odb/Grow the rebuilt tables, Odb/Count and Odb/Update the counts of keys,
--     Odb/Refine the abstract map of counts, Odb/Samples sequences of updates, Odb/Overflow the
--     ends of the 32-bit fields.
--   * Odb/Open: the part of `odb_open` (libdb/db_manage.c) that creates or maps a file; a file
--     is its length, its header and its words.
--   * Odb/Stat: libdb/db_stat.c, the statistics of a hash table.
--   * Odb/Registry: the rest of `odb_open`, `odb_close` and `find_samples_data`
--     (libdb/db_manage.c), `op_hash_string` (libutil/op_string.c). The lists of `files_hash`
--     (libutil/op_list.h) are lists of pointers, and memory maps pointers to what is allocated,
--     so that a use of freed memory is an outcome. Odb/Registry/Shared holds the invariant,
--     Odb/Registry/Changes and Odb/Registry/Added what keeps it, Odb/Registry/Calls the
--     sequences of calls.
--   * AllocCounter: libop/op_alloc_counter.c. A level of counter arcs is the list of an event's
--     counters; masks are numbers, bit by bit; the search returns the counter map or none.
--     AllocCounter/Assignment says with no masks what the events are to be given.
--   * Trans: daemon/opd_trans.h and what the parts of daemon/opd_trans.c do to `Context`, which
--     is `struct transient` without its buffer. Sample files, anonymous mappings and module
--     lists stand in the record `Backend`. An `abort` is a value of `Run`.
--   * Trans/Decode: the buffer with what remains of it, the handlers of the escape codes and the
--     loop.
--   * GrowableBuffer: libutil/op_growable_buffer.c, in which opjitconv/debug_line.c collects its
--     bytes.
--   * Jit: opjitconv/jitsymbol.c, the removal of overlaps between the symbols of a JIT dump
--     (`struct jitentry` of opjitconv/opjitconv.h). What a pass appends to the array stands
--     beside what it leaves in place; a failing assert is `none`. Jit/Entries splits one symbol,
--     Jit/Eliminate and Jit/Region clear a region of overlapping symbols, Jit/Scan is one pass,
--     Jit/Resolve the loop of `resolve_overlaps`, Jit/Stall its input without an end, Jit/Select
--     the symbol kept. Jit/Names makes the names distinct: Jit/Distinct is one round, Jit/Chains
--     bounds their number, Jit/Disambiguate is the recursion.
--   * ParseEvent: libop/op_parse_event.c. `exit` is a value of `Parsed`; strtoul is a parameter.
--   * Cookie: daemon/opd_cookie.c. The lists of `hashes` are a function from hashes to lists;
--     lookup_dcookie and the image filter are parameters.
--   * Kernel: daemon/opd_kernel.c. Images stand in a memory from addresses, and the list of
--     modules is one of addresses; sscanf is a parameter.
--   * Sfile: the search and the clearing in daemon/opd_sfile.c, as called with the `Context` of
--     Trans; it asks Kernel for the image and Cookie for what is ignored. Pointers are numbers.
--     Sfile/Find is the search, Sfile/Clear the clearing of files and the new reading of the
--     modules, Sfile/Keys and Sfile/Hash what of a context decides its file (of its cpu, 32
--     bits), Sfile/Laws the tables, Sfile/Losses what is lost, Sfile/Runs one search,
--     Sfile/Sequence many, Sfile/Members, Sfile/Sound and Sfile/Moves the list of all files,
--     Sfile/Reload the images of files.
--   * ImageFilter: `is_image_ignored` of daemon/oprofiled.c, which Cookie and Sfile take as a
--     parameter; the parsing of its names, whose real paths are a parameter.
--   * Mangle: libop/op_mangle.c, the name that is written and the memory that is allocated for
--     it.
--   * JitDump: the records of libopagent/jitdump.h as bytes, on a 64-bit little-endian machine.
--   * Agent: libopagent/opagent.c, the writer of a dump; what the system calls answer is a
--     parameter. `closed` is set where fclose has freed the handle. Agent/DebugLines is
--     `op_write_debug_line_info`, Agent/Laws and Agent/DebugLines/Laws the bytes written,
--     Agent/Locks the lock on every path.
--   * ParseDump: opjitconv/parse_dump.c. A record of an entry is that of Jit with its code.
--     ParseDump/Laws is one round of the loop, ParseDump/Header, ParseDump/LoadBytes,
--     ParseDump/Loads and ParseDump/Records what the parser makes of each record of the writer,
--     and ParseDump/Roundtrip of a whole dump.
--   * Anon: daemon/opd_anon.c, with the context of Trans and the sample files of Sfile, whose
--     files it clears. Anon/Laws is on its lists, Anon/Sound the invariant, Anon/Frees `do_lru`
--     and `clear_anon_maps`, Anon/Adds the reading of the mappings, Anon/Answers the search.
--
-- Rounds: the walk along a hash chain is given rounds, and as many as there are nodes are enough;
-- the loop over the buffer gets as many rounds as the buffer has values, and each round takes at
-- least one. Each pass over JIT symbols that overlap makes the live code smaller in total, so more
-- rounds than its size are enough; the recursion on their names ends within one round more than
-- there are names. The loop over a dump takes a round for each record. The search for counters and
-- the rebuilding of the hash table are structural recursions. The bits of a counter mask are read
-- up to 32, which is the width of its field.
--
-- Not modelled: the checks of libdb (libdb/db_debug.c); the call graphs and the logging of samples
-- in daemon/opd_sfile.c; daemon/opd_ibs.c and the processors of the Cell SPU; the parsing of event
-- files in libop/op_events.c; the ELF files of opjitconv; input and output, verbose messages and
-- the memory allocator; and the C++ parts.
pub mod Base
pub mod Odb
pub mod AllocCounter
pub mod Trans
pub mod GrowableBuffer
pub mod Jit
pub mod ParseEvent
pub mod Cookie
pub mod Kernel
pub mod Sfile
pub mod ImageFilter
pub mod Mangle
pub mod JitDump
pub mod Agent
pub mod ParseDump
pub mod Anon
