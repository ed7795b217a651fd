-- ===== src/Lib.antt =====
-- The kernel of AetherOS (New-OS): a model of its security and resource core, with the theorems that make
-- it correct.
--
-- The program. AetherOS is a small x86-64 kernel whose services talk by messages and hold capabilities.
-- The parts modelled here and how they interact:
--   - the security monitor (kernel/secmon.c) keeps an audit ring that every other part writes to, and a
--     policy that it asks;
--   - the capability table (kernel/cap.c) creates, derives, shares, transfers and revokes tokens; its
--     state holds the audit log;
--   - message ports (kernel/ipc.c) own a capability each, check the capabilities that a message carries,
--     and queue messages; their state holds the capability table;
--   - the service bus (kernel/svcbus.c) maps names to ports and gives each service a capability; its state
--     holds the capability table;
--   - the scheduler (scheduler/scheduler.c) turns a circular queue of processes;
--   - the physical memory manager (memory/pmm.c) hands out frames from a bitmap and counts references;
--   - the buddy allocator (mm/buddy.c) hands out blocks of pages from free lists, one for each order;
--   - the kernel heap (memory/heap.c) hands out blocks of bytes from a linked free list;
--   - the block cache (fs/blockcache.c) keeps disk sectors in memory and writes them back;
--   - the TCP layer (net/tcp.c) opens, keeps and ends the connections of a table of sockets;
--   - shared memory (kernel/shm.c) keeps named regions on frames of the physical memory manager, whose
--     state is part of its own.
--
-- Files.
--   - Base and its children: library names, Boolean tests, C arrays as lists, table scans, circular
--     buffers, bit masks.
--   - Libc: strlen, strncpy and strncmp of libc/string.c; Libc/Names: names in fixed buffers; Libc/Memory
--     and its children: the memory functions; Libc/Strings and its child: the other string functions.
--   - Secmon: the whole of kernel/secmon.c (record_event is _record). Secmon/Log: the ring and the dump.
--   - Cap: the whole of kernel/cap.c. Its children: Slots (finding a token), Invariant, Create, Child and
--     Derive, Transfer, Release, Cascade and Revoke.
--   - Ipc: the whole of kernel/ipc.c (find_port and alloc_port are _find_port and _alloc_port; ipc_send_at
--     is the part of ipc_send behind the search). Its children: Ports (the invariant), Queue (a port as a
--     list of messages, and its contract), Send, Receive, Lifecycle, Call.
--   - Svcbus: the whole of kernel/svcbus.c but its dump. Its children: Registry (the invariant), Lookup,
--     Register, Unregister.
--   - Sched: the whole of scheduler/scheduler.c. Its children: Queue, Remove, Distinct, Invariant, Steps
--     (runs of the scheduler), Fair.
--   - Pmm: the whole of memory/pmm.c. Its children: Frames, Marking, Alloc, Runs, Init.
--   - Buddy: the whole of mm/buddy.c but its dump. Its children: Pages (the invariant and the pages that
--     the lists hold), Buddies (a block and its buddy), Cover (the listed blocks in which a page lies),
--     Alloc, Free.
--   - Heap: the whole of memory/heap.c. Its children: Tiles (the blocks lie one behind another), Chain (the
--     free list), Invariant, Unlink and Take (the block that kmalloc takes), Grow (expand_heap and
--     heap_init), Alloc (kmalloc), Free and Join (kfree).
--   - BlockCache: the whole of fs/blockcache.c but its statistics; the interface Drives stands for
--     drivers/ata.c. Its children: View (what a client reads, the invariant), Replace (a change of one
--     slot), Oldest and Evict (the choice of a slot), Quiet (eviction as a client sees it), Room (a slot
--     takes a sector), Get, Write, Flush, History (sequences of calls).
--   - Tcp: net/tcp.c but its checksum. Its children: Socket (the table, the segments and tcp_send_segment),
--     Receive (tcp_receive), Calls (the calls of the socket layer and the timer), Invariant, Table and Steps
--     (runs of the layer), Moves (the state machine), Timer (retransmission), Data and Reading (the receive
--     buffer).
--   - Shm: kernel/shm.c but its dump. Its children: Maps (the calls that map a region; the interface Spaces
--     stands for memory/vmm.c), Frames and Obtain (frames that are given back and taken), Create.
--   - A file called Tests runs the model on a small state and applies the theorems there.
--
-- How the code is modelled. Static variables are the fields of a record that every operation takes and
-- returns. A pointer into a table is the index of its slot, NULL is none, or 0 where it is an address. C
-- integers are natural numbers with the wrap-around of their width written out. Console messages, locks and
-- assembly (context_switch, the interrupt flag) are left out; the kernel runs on one processor. A table's
-- length stands for its capacity.
--
-- Fuel. release_fuel and revoke_fuel bound the recursions of cap_release and cap_revoke by one more than the
-- number of valid slots: each call on a live token makes one slot invalid. receive_loop bounds the polling
-- loop of ipc_receive, which counts two milliseconds for each round up to its timeout; what the other tasks
-- do between two rounds is a parameter. Without a timeout the loop may wait for ever, as the code does.
--
-- The loops of the heap over its free list run on fuel as well: the search of kmalloc needs one step more
-- than the list has blocks, and kmalloc calls itself at most once. The loop of kfree need not end, since its
-- list may become circular.
--
-- Parameters. Which pages can be mapped is an argument of the operations of the heap. The disk driver
-- is the record Drives of operations and laws, a sector one value of its type Sector; its laws are
-- stated for every sector number, while the driver cuts numbers to the 28 or 48 bits that a drive can
-- address, so they are about the numbers below that. The address of a port's slot or a service's
-- entry, and what the other tasks do while a task waits, are arguments of the definitions that use
-- them. The TCP layer finds the clock, the interface's address and whether the layer below sends a
-- packet in an Env, and what each poll of tcp_connect brings is a list. The memory map given to
-- pmm_init is the list of its entries.
--
-- The contents of the heap's data areas and of the pages of shared memory are not modelled. The links of
-- the buddy allocator's lists stand for their order only, so that a double free, which spoils them, is
-- outside the model. The pages that expand_heap has mapped before one fails stay mapped, which the model
-- does not record, since each attempt asks the parameter again. A write through a null pointer in the block
-- cache sets a field of its state.
--
-- Not modelled: drivers, interrupts, boot code and page tables (hardware), the file systems and the
-- rest of the network stack (device I/O), processes and system calls, the GUI, the compositor, the
-- applications and the user programs.
pub mod Base
pub mod Libc
pub mod Secmon
pub mod Cap
pub mod Ipc
pub mod Svcbus
pub mod Sched
pub mod Pmm
pub mod Buddy
pub mod BlockCache
pub mod Heap
pub mod Tcp
pub mod Shm
