-- ===== src/Lib.antt =====
-- Models and proofs for kmod: the library libkmod and the tool depmod, in kmod-11.
--
-- depmod reads the infos of all modules, puts their aliases into a radix tree, and writes the tree
-- to modules.alias.bin. libkmod opens such a file and looks keys up in it, after it normalised
-- them. Both keep their objects in arrays and hash tables.
--
-- Files, and the code that they model:
--   Memory      blocks of malloc and realloc: loads, stores, memmove; an access outside of a block
--               or a read of a slot that was not written is a fault, the absent result
--   Array       kmod-11/libkmod/libkmod-array.c: array_init, array_append, array_append_unique,
--               array_pop, array_remove_at, array_free_array; array_sort is in Toposort
--   Hash        kmod-11/libkmod/libkmod-hash.c: hash_new, hash_add, hash_add_unique, hash_find,
--               hash_del, hash_get_count, hash_free, hash_iter_init, hash_iter_next, and
--               hash_superfast
--   LinkedList  kmod-11/libkmod/libkmod-list.c: the circular list, all its functions
--   Trie        kmod-11/tools/depmod.c: index_create, index_add_value, index_insert
--   IndexFile   kmod-11/tools/depmod.c: index_write__node, index_write; and
--               kmod-11/libkmod/libkmod-index.c: index_file_open, index_read, index_readchild,
--               index_search, and their counterparts index_mm_* for a mapped file
--   AliasesBin  kmod-11/tools/depmod.c: output_aliases_bin
--   Toposort    kmod-11/tools/depmod.c: mod_add_dependency, depmod_calculate_dependencies and, in
--               Sorted, depmod_sort_dependencies with dep_cmp: the dependencies of the modules and
--               their order; in Indirect, mod_get_all_sorted_dependencies
--   Wildcard    kmod-11/libkmod/libkmod-index.c: the functions buf_*, index_searchwild
--               and index_mm_searchwild
--   ReadStr     kmod-11/libkmod/libkmod-util.c: read_str_safe
--   WriteStr    kmod-11/libkmod/libkmod-util.c: write_str_safe
--   Getline     kmod-11/libkmod/libkmod-util.c: getline_wrapped
--   Names       kmod-11/libkmod/libkmod-util.c: alias_normalize, modname_normalize,
--               path_to_modname, strchr_replace, path_is_absolute, path_make_absolute_cwd; and
--               underscores2 of kmod-11/tools/depmod.c
--   Prelude     names of the libraries passed on, tests, lists, integers and strings
--   Tests       runs on concrete inputs
--
-- A string is the list of its bytes before the NUL. size_t, unsigned int and uint32_t keep their
-- wrap-around, and an `int` that overflows is a fault. Whether realloc gets its memory is an argument; other allocations
-- succeed. A file is the list of its bytes. A read behind its end is the absent result: what the
-- source does there is not modelled. bsearch and basename of the C library are functions that
-- do what their documentation says; fnmatch is an argument, of which nothing is asked. qsort and
-- the system calls read and write are arguments, and what each promises is a record of named laws.
--
-- Recursion on fuel: index_insert runs on one more than the length of the key, index_search on two
-- more, bsearch on one more than the number of entries, and the topological sort on one more than
-- the number of modules; the walks of index_searchwild and the recursions of
-- mod_get_all_sorted_dependencies run on a depth, and read_str_safe and write_str_safe on a number
-- of rounds; the theorems show how much is enough.
-- Offsets in an index file have 28 bits, so the theorems on files ask for a shorter file.
--
-- Not modelled: log output, option parsing, the walk of directories, compressed files, ELF files,
-- the configuration, and index_dump.
pub mod AliasesBin
pub mod Array
pub mod Getline
pub mod Hash
pub mod IndexFile
pub mod LinkedList
pub mod Memory
pub mod Names
pub mod Prelude
pub mod ReadStr
pub mod Tests
pub mod Toposort
pub mod Trie
pub mod Wildcard
pub mod WriteStr
