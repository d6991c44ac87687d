-- ===== src/Lib.antt =====
-- A verification library for EAGine core, a C++ library of utilities.
--
-- The parts that are modelled are pure data structures and algorithms. Each stands by itself in the
-- program: the sorting networks, the flat map and the multi-byte encoding take their comparators,
-- keys and bytes from the caller, the span algorithms are used wherever a span is cut or searched,
-- and the tri-state Boolean is returned by many other parts. The string list is built of two others:
-- it puts the multi-byte encoding of its length before and behind each string, and splits a string
-- by for_each_delimited. Identifiers are texts packed into a biteset, whose bytes are a byteset, and
-- base64 is the change of the density of bits between bytes and characters.
--
-- Files and code, paths from the root of the repository:
--   Common          shared names, lists and loops over native numbers, strict weak orders, bits.
--     BitStream     a number as its bits, and a list of numbers as one stream of them, on which the
--                   proofs about bit densities, bitesets and identifiers stand.
--   Identifier, source/modules/eagine/identifier/identifier.cpp and identifier_impl.cpp:
--     Code          identifier_encoding, basic_identifier at the parameters of identifier, and
--                   message_id. _make_bites is make_bites, _inc_bites is inc_bites.
--     Decimal       byte_to_identifier and dec_to_identifier, and the proofs about the latter.
--     Chars, RoundTrip, Distinct, Increment, Messages, Tests   proofs, and runs.
--   Utility/NetworkSort, source/modules/eagine/utility/network_sort.cpp:
--     Network       the interface of a network (rounds, index, min, max) and the bitonic network:
--                   _next_log is next_log, _hlp is hlp, _fill_idx is fill_idx.
--     Tables        the specializations of manual_sorting_network_base, one definition for each
--                   size, and the choice of a network for a size.
--     Sorter        basic_network_sorter and network_sorter. The state is _round and the arrays
--                   _a[0] and _a[1], which are the fields even and odd; sort is the loop.
--     Rounds, ZeroOne, Sizes, Faults, Tests   proofs, and runs.
--   Utility/Timeout, source/modules/eagine/utility/timeout.cpp:
--     Code          timeout, resetting_timeout (resetting_check) and backing_off_timeout. Each call of
--                   now is one reading of the clock; ticks is the range of a sum of tick counts.
--     Firing, BackingOff, Tests   proofs, and runs.
--   Container/FlatMap, source/modules/eagine/container/flat_map.cpp:
--     Ops           flat_map_ops and _find_insert_pos, the second overload as find_insert_pos_hint.
--     Map           the operations that change the storage. operator[] is subscript.
--     Spec, Lookup, Position, Hint, Results, Tests   the abstract map, proofs, and runs.
--   Container/StaticVector, source/modules/eagine/container/static_vector.cpp:
--     Code          static_vector. elems is _array, used is _size; std::fill, std::move and
--                   std::move_backward are writes of a part of the array, write_at.
--     Writes, Contents, Tests   proofs, and runs.
--   Container/Trie, source/modules/eagine/container/trie.cpp:
--     Trie itself   basic_trie_utils and basic_trie_impl. A node is _nodes[i]; insert_pos_from is the
--                   loop of _find_insert_pos, extend the one of insert, attach a round of that,
--                   traverse_round a round of the loop of _do_traverse.
--     CharIndex, View, Paths, Growth, Map, Updates, Tests   proofs, and runs.
--   Container/ObjectPool, source/modules/eagine/container/object_pool.cpp:
--     ObjectPool itself   object_pool. A slot is an element of _storage, count is _count.
--     Slots, Marks, Refines, Tests   proofs, and runs.
--   Memory/StackAllocator, source/modules/eagine/memory/stack_allocator.cpp:
--     StackAllocator itself   base_stack_allocator, with its five members. deallocate is in two
--                   parts, release up to the last test and settle for that.
--     Spaced, Invariant, Safety, Cutting   lists of blocks, the invariant, and what each call does to it.
--     Reach         the calls of a client as a step relation, and the states that it can reach.
--     Reclaim       what is free when all blocks are given back.
--     ByteStack, Headers   the byte allocators of source/modules/eagine/memory/stack_allocator_impl.cpp on
--                   top of it, with the padding, the byte before a block, and their assertions;
--                   is_aligned_to is that of source/modules/eagine/memory/align.cpp.
--     Tests         runs.
--   Memory/BitDensity, source/modules/eagine/memory/bit_density.cpp:
--     Code          do_dissolve_bits, whose inner loop is push, and do_concentrate_bits, whose inner
--                   loop is fill; make_span_getter and make_span_putter of span_algorithm.cpp.
--     Chunks, Streams, Lengths, RoundTrip, Tests   proofs, and runs.
--   Memory/Biteset, source/modules/eagine/memory/biteset.cpp and byteset.cpp:
--     Bytes         the byteset of an integer, and the integer of a byteset.
--     Code          packing, get and set. _get_byte_bits and _get_cell_bits are one loop over units,
--                   get_bits; the loop over _set_cell_bits is set_cell_bits, and the overload for a
--                   byte set_byte_bits.
--     Gather, Fields, Scatter, Packing, Writing, Making, Tests   proofs, and runs.
--   Memory/SpanAlgorithm, source/modules/eagine/memory/span_algorithm.cpp:
--     Slices        head, tail, skip, snip, shrink, slice, prefixes and suffixes, and the comparison of
--                   spans from source/modules/eagine/memory/span.cpp.
--     Searches      positions, elements, and the splits at a position.
--     Parts         for_each_delimited and for_each_chunk, as the lists of the parts.
--     Prefixes, Positions, Splits, Chunks, Elements, Tests   proofs, and runs.
--   String/Base64, source/modules/eagine/string/base64.cpp:
--     Code          the tables, and the functions for spans and for containers (_into).
--     RoundTrip, Tests   proofs, and runs.
--   String/MultiByte, source/modules/eagine/string/multi_byte.cpp:
--     Masks, Code, Spans   the constants of each length, one code point, and sequences.
--     Bytes, Fields, RoundTrip, Single, Steps, Sequences, Tests   proofs, and runs.
--   String/StringList, source/modules/eagine/string/list.cpp:
--     StringList itself   the functions of the namespace string_list and the class element. A loop
--                   that calls a function is the list of what it calls the function with.
--     Iterators     the classes iterator and rev_iterator, and loops over them.
--     CStrings      for_each_separated_c_str and split_c_str.
--     Element, Forward, Seek, Backward, Back, Join, Iterated, Tests   proofs, and runs.
--   Types/Tribool, source/modules/eagine/types/tribool.cpp:
--     the classes tribool and weakbool in Tribool itself; Logic, Optional and Tests hold proofs.
--
-- Representation. A number of the program is a native natural number; where the source wraps, in the
-- index arithmetic of the bitonic network, the bytes of the encoder, the indices of a trie and the count
-- of a pool, the wrap is written out. A span, a vector or an array is a list, an iterator an index into it, and the end the length. What an
-- operation changes is returned beside its result. A thrown exception, or a value that is not valid,
-- is none, or the number the source has for it. The binary searches of the standard library are the
-- first index at which the comparison allows to stop, which is what they return on a sorted range.
-- The signed sizes that a slice takes are integers with std::clamp written out. The objects of a pool
-- are known by their addresses, and a new one gets an address that is given to make and get. The
-- index of rev_for_each_elem, which may end at -1, is kept as the number one above it. A mask of the
-- lowest bits is a remainder, a shift to the right a quotient, and a shift to the left a product with
-- the wrap of its type; the width of double_byte, a fast type of at least 16 bits, is a parameter. A
-- getter is the list of what it gives until it gives nothing, a putter a function on its state. A
-- biteset or an identifier is the list of its bytes, and a character its code below 256; the
-- tables of base64 and of the trie stand for the source below 128 only, from where on it reads out of
-- their bounds or fails an assertion. The clock is an argument, time points and durations count its
-- ticks, which are not negative, and a sum of them that overflows 64 bits with sign gives none.
--
-- Fuel. The loop of the sorter runs on as many rounds as the network has, and each call but the last
-- ends one of them. _next_log doubles its argument and is given n calls. The count of code points in
-- a span takes a byte at least each time and is given one call more than there are bytes; so do the
-- loops over delimited parts and chunks, whose delimiter or length is not empty, and the loops over
-- the elements of a string list, which are at least two bytes each. The loops over a C string pass a byte each time. The search for a character halves
-- what is left and is given as many calls as there are characters. The loops of bit_density take an
-- element each time and are given one call more than there are elements. The steps of the loops of
-- biteset are counted by the code, which allows seven: enough for elements of 2 to 49 bits, to which
-- the theorems are limited.
--
-- Not modelled: the constructors of flat_map and assign, which call std::sort, and what is only
-- passed on to the container; spans whose end is before their begin, and the span algorithms that call
-- the standard library; the alignment of the store of the stack allocator and its stack_aligned_byte_allocator;
-- the handles pool_object; the proxies and iterators of bitesets, random identifiers, and the time that
-- has elapsed, which may be negative; the other
-- parts of the program, which are containers over raw memory, input and output, compile-time
-- programming, floating point and wrappers of other libraries, or have no model yet.
pub mod Common
pub mod Container
pub mod Identifier
pub mod Memory
pub mod String
pub mod Types
pub mod Utility
