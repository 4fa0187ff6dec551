-- ===== src/Lib.antt =====
-- mynfs: an NFS client for the Linux kernel (mynfs/). Modelled here are the parts that decide which
-- requests may be in flight and in what order: the session slot table of NFSv4.1, the handling of
-- SEQUENCE on the fore channel and of CB_SEQUENCE on the back channel, the segments and the stateid
-- of a pNFS layout, the lock that keeps buffered and direct input and output on a file apart, the
-- open state of a file with its stateid, the cache of the extended attributes of a file, the handling
-- of the errors of NFSv4 calls, the groups of the requests of a page, the order of the
-- attributes in replies, the names of users that are numbers, and the encoding of NFSv3's SETATTR.
--
-- How the parts interact. Every NFSv4.1 call takes a slot of the session's table before it is sent
-- (`mynfs4_setup_sequence`) and gives it back when the reply was handled (`mynfs41_sequence_done`),
-- either to a task that waits for one or to the table. The reply's SEQUENCE result moves the slot's
-- sequence number and resizes the table. A callback of the server takes a slot of a second table of
-- the same kind, by number. A layout recall, one such callback, invalidates segments of a layout.
-- The open state and the cache of extended attributes belong to an inode; the replies to OPEN and
-- CLOSE change the one, the calls on attributes the other. A call that fails asks the error handler
-- whether to wait, to have the open state or the lease recovered, or to give up.
--
-- Files, from the repository's root:
--   Base              numbers, lists and 32-bit words that the parts share.
--   Slot/Kernel       what the table takes from the kernel: `find_first_zero_bit`, `find_last_bit`
--                     and the RPC wait queue, as records of operations with their documented laws.
--   Slot/Table        mynfs/nfs4session.h (`struct nfs4_slot`, `struct nfs4_slot_table`) and
--                     mynfs/nfs4session.c from `nfs4_shrink_slot_table` to `nfs4_alloc_slot`. The
--                     linked list of slots is a list, a pointer to a slot its position in it.
--   Slot/Wake         `nfs41_assign_slot` to `nfs41_wake_slot_table`.
--   Slot/Resize       set-up, reset and resizing: `nfs4_realloc_slot_table`,
--                     `nfs41_update_target_slotid` and what they call.
--   Slot/Session      the two tables of a session: `nfs4_setup_session_slot_tables`, and
--                     `nfs4_callback_recallslot` (mynfs/callback_proc.c).
--   Slot/Walk, Bitmap, Invariant, Alloc, Wakeups, Sizes, Realloc, Derivative, SetUp    proofs about
--                     these.
--   Slot/Concrete, Small, Examples    a bit search, a queue and a table that meet the descriptions.
--   Sequence/Reply    the switch of `nfs41_sequence_process` (mynfs/nfs4proc.c), for the slot alone.
--   Sequence/Task     `nfs41_release_slot`, `nfs41_sequence_process`, `mynfs41_sequence_done` and
--                     `mynfs4_setup_sequence`, on the table, the task's slot and the effects asked of
--                     the RPC layer and of the state manager, in their order.
--   Sequence/Numbers, Done, Setup, Recovery    proofs about these.
--   Callback/Sequence `validate_seqid`, `referring_call_exists`, `nfs4_callback_sequence`
--                     (mynfs/callback_proc.c).
--   Callback/Lookup, Once    proofs about these.
--   Layout/Range      byte ranges: mynfs/pnfs.h and the comparisons of mynfs/pnfs.c.
--   Layout/Header     the layout header, its stateid, barrier and return information (mynfs/pnfs.c).
--   Layout/Recall     `pnfs_mark_matching_lsegs_invalid`, `pnfs_mark_matching_lsegs_return`.
--   Layout/Returned   `pnfs_reset_return_info`, `pnfs_free_returned_lsegs`.
--   Layout/Insert     `mypnfs_generic_layout_insert_lseg`, `pnfs_find_lseg`.
--   Layout/Draining   CB_LAYOUTRECALL (mynfs/callback_proc.c): `pnfs_check_callback_stateid`,
--                     `initiate_file_draining` and the search for the inode.
--   Layout/Coverage, Order, Stateid, Recalled, Purge, Drained, Find    proofs about these.
--   Io/Rwsem          the kernel's reader-writer semaphore, as a record of operations with laws.
--   Io/Steps          the functions of mynfs/io.c, as steps of any number of threads.
--   Io/Stepped, Exclusion, Concrete, Examples    proofs about these, and a lock for the examples.
--   Open/Stateid      mynfs/nfs4_fs.h, the comparisons of stateids.
--   Open/State        `struct nfs4_state` (mynfs/nfs4_fs.h) and the helpers that change a few of its
--                     fields: `nfs4_state_set_mode_locked` (mynfs/nfs4state.c) and mynfs/nfs4proc.c
--                     from `update_open_stateflags` to `nfs_resync_open_stateid_locked`.
--   Open/Update       `update_open_stateid` and what it calls, with the wait for earlier OPENs.
--   Open/Close        `__nfs4_close` (mynfs/nfs4state.c), the mode that `nfs4_close_prepare` leaves to
--                     the server, `nfs_clear_open_stateid`, `nfs4_refresh_open_old_stateid`.
--   Open/Counts, Opened, Round, Order, Refresh, Examples    proofs about these.
--   Xattr/Entry       mynfs/nfs42xattr.c, `struct nfs4_xattr_entry` and `nfs4_xattr_alloc_entry`.
--   Xattr/Table       the hash table of one cache and its list of names: `nfs4_xattr_hash_add` and its
--                     kin, `nfs4_xattr_set_listcache`, `nfs4_xattr_discard_cache`.
--   Xattr/Inode       `nfs4_xattr_get_cache` and the entry points, `nfs4_xattr_cache_get` (here
--                     `cache_lookup`) to `nfs4_xattr_cache_zap`. Caches stand in a list, a pointer to
--                     one is its position.
--   Xattr/Shrink      freeing entries and caches under memory pressure.
--   Xattr/Chain, Buckets, Linked, Found, Acts, Refinement, Counting, Shrunk, Balance, Recycle,
--                     Examples    proofs about these; Refinement has the partial map that the cache stands for.
--   Nfs3/Stream       the kernel's XDR streams, as a record of operations with laws, and the results
--                     of decoders.
--   Nfs3/Basic        mynfs/nfs3xdr.c, basic types from `encode_uint32` to `encode_diropargs3`.
--   Nfs3/Attributes   `encode_sattr3` and the arguments of SETATTR.
--   Nfs3/RoundTrip, Calls, Examples    the protocol's grammar as readers, and proofs about these.
--   Errors/Codes      error codes and `nfs4_map_errors` (mynfs/nfs4proc.c).
--   Errors/Delay      `nfs4_update_delay`, the sleeps, `nfs4_exception_should_retrans`.
--   Errors/Exception  `nfs4_do_handle_exception` and what it calls (mynfs/nfs4proc.c,
--                     mynfs/nfs4state.c).
--   Errors/Handle     `nfs4_handle_exception`, `nfs4_async_handle_error` and the loop around a call.
--   Errors/Switch, Settled, Async, Backoff, Softerr, Examples    proofs about these.
--   Pages/Request     mynfs/pagelist.c: the requests of a page, as a store of their fields by name, and
--                     `nfs_page_group_sync_on_bit`.
--   Pages/Group       `nfs_page_group_init`, `nfs_page_group_destroy`, `nfs_release_request`.
--   Pages/Ring, Sync, Barrier, Extended, Joined, Freed, Held, Released, Life, Examples    proofs about these.
--   Attr/Gaps         mynfs/inode.c: `nfs_ooo_merge` and `nfs_ooo_record`; the room of the table, which a
--                     header of the kernel gives, is a parameter.
--   Attr/Compare      `nfs_inode_attrs_cmp` and what it calls, `nfs_refresh_inode_locked`, which asks for
--                     `nfs_update_inode` or `nfs_check_inode_attributes`.
--   Attr/Counting, Loop, Exact, Recorded, Newer, Examples    proofs about these.
--   Idmap/Names       mynfs/nfs4idmap.c: `mynfs_map_string_to_numeric`, `nfs_map_name_to_uid`,
--                     `nfs_map_uid_to_name` and the same for groups; `kstrtoul`, on machines whose
--                     `unsigned long` has 64 bits, and `snprintf` are a record of functions with laws.
--   Idmap/Numbers, Decimal, Examples    proofs about these, and functions that obey the laws.
--
-- Numbers. A u32, s32, u64 or s64 is a natural number below 2 ^ 32 or 2 ^ 64, the pattern of its
-- bits, with the wrap-around written out. Each function is one step under the spinlock that the code
-- holds; where CB_SEQUENCE drops the lock to wait, a parameter stands for what others do meanwhile.
-- Memory that runs out is a parameter too: which slot numbers can still be allocated. So are the
-- hash function of the kernel, the answers of the RPC layer, the wait for a referring call, and the
-- comparison of credentials, and the numbers of the bits of a request's flags.
--
-- Fuel. The walk of `nfs4_find_or_create_slot` has one round for each slot up to the one looked for,
-- and the loop of `nfs41_wake_slot_table` one round more than there are waiting tasks. Both are
-- enough, for the walk on a table whose slots are numbered by position, and the theorems about these
-- functions include it. The loops of the open state that wait for a wake-up have one round for each
-- wait of a list of waits, which says how each ends and what others do meanwhile; where the loop
-- still waits after the last of them, there is no result yet. So it is with the loop around a call and
-- the list of what the calls return. The walks around a ring of requests have one round for each
-- request, and a release calls itself once, for the head; the theorems include that this is
-- enough. The loop that merges gaps starts anew after each merge; a quadratic number of rounds is enough,
-- as is proved.
--
-- Not modelled: debug prints and traces; the slots of NFSv4.0; the fields of the CB_SEQUENCE result
-- that repeat the arguments and the table's limits; the pointer `sa_slot` of the arguments, which is
-- written where `sr_slot` is; the lists that link a segment to commits; saturation of reference
-- counts; the registration of the shrinkers; the page cache, the state manager, the life of
-- delegations, the rest of XDR, mounting and the other callbacks, which rest on kernel services or
-- are parts of their own.
pub mod Base
pub mod Slot
pub mod Sequence
pub mod Callback
pub mod Layout
pub mod Io
pub mod Open
pub mod Xattr
pub mod Nfs3
pub mod Errors
pub mod Pages
pub mod Attr
pub mod Idmap
