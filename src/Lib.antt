-- ===== src/Lib.antt =====
-- The Log VOL connector: writes of datasets are appended to log datasets of a file, with a
-- metadata entry for each write, and reads find the entries that meet the selection through an
-- index of the decoded entries.
--
-- The parts and their files (paths from the repository's root):
--
-- Config: the bits of a file's configuration, `H5VL_FILEI_CONFIG_*` of src/H5VL_log_filei.hpp.
-- Dataset: `H5VL_log_dset_info_t` and its steps, as src/H5VL_log_dataseti.cpp sets them.
--
-- Selections: `H5VL_log_selections` of src/H5VL_logi_dataspace.cpp, a list of blocks for the
-- arrays `starts` and `counts`: `lessthan`, `get_sel_size`, `operator==`. Selections.Merge is
-- `merge_blocks`, Sort is `sortblocks` with as much fuel for a cycle as there are blocks, of which
-- a step puts one in its place, and Space is the constructor from a dataspace, where a block is
-- broken down on as much fuel as it has rows; `std::sort` and the answers of HDF5 are arguments.
-- Cells, Order, Cycles, Sorted and Shortcut are proofs.
--
-- Meta: src/H5VL_logi_meta.hpp and src/H5VL_logi_meta.cpp. Entry has the header and the decoded
-- entry, Codec has `H5VL_logi_sel_encode`, `H5VL_logi_sel_decode`, the packed header and `encode`
-- of a selection, Decode has `H5VL_logi_metaentry_decode`, Reference has
-- `H5VL_logi_metaentry_ref_decode`, and Steps proves what offsets keep.
--
-- Index: src/H5VL_logi_idx.hpp. Array is `H5VL_logi_array_idx_t` (src/H5VL_logi_idx_list.cpp),
-- Compact is `H5VL_logi_compact_idx_t` (src/H5VL_logi_idx_compact.cpp), Parse has `parse_block` of
-- both, and Ordering has `operator<` and `operator>` of src/H5VL_logi_idx.cpp with `interleve` of
-- src/H5VL_log_dataseti.cpp; Strict, Apart, Intersect, Hits, Equiv and Represents are proofs.
--
-- Request: src/H5VL_logi_nb.cpp. Write is `H5VL_log_wreq_t` with its constructor, `resize`, hash
-- and comparison, Merged is `H5VL_log_merged_wreq_t`, Flush is `H5VL_log_nb_flush_write_reqs` with
-- `H5VL_log_filei_flush` and `H5VL_log_filei_get_num_pending_writes` of src/H5VL_log_filei.cpp;
-- Size, Fields, RoundTrip, Decoded, Made, Merge, Misread, Placed, Written, Deduped, Outcome,
-- Queued and Dangling are proofs. Submit is `H5VL_log_dataseti_write` of
-- src/H5VL_log_dataseti.cpp, which makes, deduplicates, compresses and queues a request, and Read
-- is `H5VL_log_nb_flush_read_reqs` with its loop over subfiles. The code behind `H5Pget_buffered`
-- and the like is the record Request.Submit.Call. A write makes a request with its entry
-- (Request.Write, which uses Selections and Meta.Codec), a flush places the requests' data
-- (Request.Flush, which releases buffers by File.Buffers), and a read decodes the entries into an
-- index (Index.Parse, which uses Meta.Decode) and searches it.
--
-- Passthru: `sel_space` and `foff2logidx` of src/H5VL_log_dataseti.cpp, by which a read through
-- the underlying VOL selects the bytes of an entry; Rows is proofs.
--
-- Transfer: `H5VL_log_dataset_readi_gen_rtypes` of src/H5VL_log_dataseti.cpp, which makes the
-- types of a collective read from the search results. Sort is `sortoffsets`, on as much fuel as
-- there are pieces, Rows the breakdown of interleaving blocks, with as much fuel as a block has
-- rows, Trim the adjustment of overlaps, and Types the groups and the whole function, which
-- returns the room of its arrays and what it writes into them; `std::sort` is an argument, and the
-- constructors of MPI types are taken to succeed. Perform is `H5VL_log_nb_perform_read` of
-- src/H5VL_logi_nb.cpp behind the search of the index, for files that are read by MPI: the buffers
-- of filtered data, and the calls that read, unfilter, pack and deliver it, in their order.
-- Exchange, Bubble, Partition, Sorted, Nested, Disjoint, Room, Scalar and the modules below
-- Perform are proofs.
--
-- File: src/H5VL_log_filei.cpp. Buffers is `balloc` and `bfree`, Pool the buffer pool, Settings
-- `parse_fapl` and `parse_fcpl`, Groups `calc_node_rank`, and Session `post_create`, `post_open`,
-- `create_subfile`, `open_subfile` and `close` as they write and read the internal attribute of a
-- file and its subfiles. Registry is the map of opened files with `search`, `register`, `rm` and
-- the counts of references, as `H5VL_log_file_open` and `H5VL_log_file_create` of
-- src/H5VL_log_file.cpp use them, with a step relation for the calls of an application.
-- Allocation, Chosen, Groups.Chain, Registry.Live, Session.Reopened and Session.Paths are proofs.
-- Filter: the two loops of src/H5VL_logi_filter.cpp. Notify: the callback of src/H5VL_log_reqi.cpp
-- that counts the requests of the underlying VOL. Tests has concrete inputs.
--
-- How the code is modelled: `hsize_t`, `size_t` and `MPI_Offset` are natural numbers whose
-- arithmetic is cut at 2 ^ 64, an `int` is its pattern below 2 ^ 32, a buffer is the list of its
-- bytes in little-endian order, and a coordinate array is read from the front, with 0 past its
-- end. A call that throws returns an error; a step that C++ leaves undefined is the error
-- `undefined_behaviour`, except that a read past the end of a metadata entry reads 0. Passing an
-- object that the code changes in place is passing its record and returning the new one.
--
-- Bounds and fuel: `reserve` of a merged request doubles its size three times in each turn, so the
-- size that is needed is enough fuel; `parse_block` and the search of the metadata take their fuel
-- as an argument, and give nothing when it runs out. Loops over dimensions, blocks and entries are
-- structural.
--
-- Parameters: zlib's inflation and compression, the answers of `malloc`, MPI and the underlying
-- VOL (sizes and offsets over processes, the place of a new log dataset), the linked datasets, and
-- the answers of property lists and environment variables.
--
-- Sections: src/H5VL_log_filei_meta.cpp. Flush is `H5VL_log_filei_metaflush`, by which the
-- processes of a group write a metadata dataset of sections, Update is `H5VL_log_filei_metaupdate`
-- and `H5VL_log_filei_metaupdate_part`, and Search is `H5VL_log_read_idx_search` of
-- src/H5VL_logi_nb.cpp, whose loop has as fuel the number of sections, since a turn reads at least
-- one. Layout, Written, Tiled, Cover, Parts, Searched and Complete are proofs. The calls of MPI
-- and of the underlying VOL are arguments; an index is a type with functions that parse a block,
-- clear it and search it.
--
-- Not modelled: the read through the underlying VOL and aligned writes; the callbacks that pass
-- calls on to the underlying VOL, error reporting, profiling and the command line tools, which are
-- input, output and glue.
pub mod Prelude
pub mod Config
pub mod Selections
pub mod Dataset
pub mod Meta
pub mod Index
pub mod Request
pub mod Sections
pub mod Passthru
pub mod Transfer
pub mod File
pub mod Filter
pub mod Notify
pub mod Tests
