-- ===== src/Lib.antt =====
-- Models and proofs of parts of the onix kernel: its support library (lib/), its tasks, timers
-- and signals (kernel/task.c, kernel/timer.c, kernel/signal.c), its devices
-- and pages (kernel/device.c, kernel/memory.c), its locks, its calendar and its cache of
-- disk blocks (kernel/mutex.c, kernel/time.c, kernel/buffer.c), and of its network stack TCP
-- (net/tcp_input.c, net/tcp_output.c, net/tcp_timer.c, net/tcp_pcb.c, net/tcp_option.c, parts of
-- net/tcp.c), checksums and addresses (net/chksum.c, net/addr.c), address resolution (net/arp.c),
-- packet buffers (net/pbuf.c), the port map and the vectors of buffers (net/port.c, net/iovec.c).
--
-- The parts and their files. Paths are the repository's, below its own src/ directory.
-- - Libc/Fifo: lib/fifo.c, the byte ring under the keyboard, the terminals and the pipes. `Fifo` is
--   `fifo_t`; `init`, `full`, `empty`, `get`, `put`, `next` are `fifo_init` and so on. Queue is the
--   queue it stands for, Inv its invariant, Refine the refinement.
-- - Libc/Bitmap: lib/bitmap.c. `Bitmap` is `bitmap_t`; `make`, `init`, `test`, `set_bit`, `scan` are
--   `bitmap_make`, `bitmap_init`, `bitmap_test`, `bitmap_set`, `bitmap_scan`.
-- - Libc/LinkedList: lib/list.c, over a store of links that every list shares. A node is its address,
--   `Links` the two pointer fields of all nodes, `Ends` the head and tail of a `list_t`.
-- - Libc/Nodes: the lists as the kernel's parts see them, by the theorems of LinkedList.
-- - Libc/Memory and Libc/Text: lib/string.c, its functions on counted bytes and on texts.
-- - Libc/Number: lib/stdlib.c.
-- - Kernel/Time: kernel/time.c. Kernel/Time/Calendar is the calendar to compare with.
-- - Kernel/Mutex: kernel/mutex.c. Kernel/Mutex/System has the steps of tasks that use one lock: a step
--   ends where the code can switch to another task, at `task_block`, at `task_yield` and between
--   `mutex_lock` or `mutex_unlock` and the other statements of `lock_acquire` and `lock_release`.
-- - Kernel/Buffer: kernel/buffer.c, the cache of disk blocks. `Cache` is a `bdesc_t` with its buffers;
--   Inv is what holds between the operations, Choose is about `get_free_buffer`, Get and Release about
--   `getblk` and `brelse`, and Blocks has what the users of the cache rely on.
-- - Kernel/Task: kernel/task.c, kernel/timer.c and kernel/clock.c. `Kernel` has their variables; a task
--   is its place in the table. Search and Schedule are about the choice of a task, Block about
--   `task_block`, Wake about `task_unblock`, Expire and Timeout about `timer_wakeup`.
-- - Kernel/Signal: kernel/signal.c and kernel/alarm.c, on the same state. Masks has the bits of signals,
--   Deliver `task_signal`, Kill `sys_kill`.
-- - Kernel/Exit: `task_fork`, `task_exit` and `task_waitpid` of kernel/task.c, on the same state. `leave`
--   is `task_exit` up to its `schedule`, and `wait_round` a round of the loop of `task_waitpid`.
-- - Kernel/Device: kernel/device.c. `start_request` is `device_request` up to `do_request`, and
--   `finish_request` the rest of it. Elevator is about `request_nextreq`, Requests about the others.
-- - Kernel/Page: `get_page` and `put_page` of kernel/memory.c. `Memory` has the counts of the users of
--   each page; Counts is about the number of free ones.
-- - Net/Port: net/port.c, which stands on the bitmap.
-- - Net/Iovec: net/iovec.c, the buffers of a message. A buffer is its bytes before and from `base`.
-- - Net/TcpOption: net/tcp_option.c. The control block appears as `snd_mss` and `rcv_mss`.
-- - Net/Addr and Net/Chksum: net/addr.c and net/chksum.c. An internet address is one number.
-- - Net/Arp: net/arp.c. A packet, an interface and an entry of the cache are named by their addresses;
--   frames go to the end of `sent`. Order is about the packets that wait for an answer.
-- - Net/Pbuf: net/pbuf.c. `Pool` is the free list with its counts; Users is its invariant.
-- - Net/Tcp: `Pcb` is `tcp_pcb_t` and `Seg` a `pbuf_t` that it holds; functions have the names of the
--   source. Output is net/tcp_output.c, Timer and Clock are net/tcp_timer.c, Input, Process and Arrival
--   net/tcp_input.c, Stack net/tcp_pcb.c and Socket net/tcp.c. What Input, Output and Timer change is one
--   block; Stack has all blocks, the lists that they are in, and the port map. Frames go to the end of
--   `sent`, and calls of `task_unblock` to the end of `woken`. Seq is the order of sequence numbers,
--   Stream and Places say what segments carry of a stream of bytes; Deliver, Acknowledge, Window,
--   Sending, Round, Enqueue, Estimate, Moves, Transitions, Purge, GiveUp and Receive are about one
--   operation each.
-- - Base: what these share. Base/Fault has code that can stop, Base/Int, Base/Bits and Base/Word have
--   numbers at a width, Base/Lists and Base/Table lists and tests of a bounded number.
--
-- How the code is modelled.
-- - A `u32` or `u8` is a natural number with its wrap-around written out. An `int` is an integer (ℤ)
--   where its sign counts and its bit pattern elsewhere.
-- - `none` is a failed `assert`, an access outside a buffer or a loop that has not ended within its
--   fuel. A result of `some` is thus also a proof that none of these happens.
--   `Parsed` keeps these apart where a theorem is about a loop that does not end.
-- - A pointer into a buffer is the list of the bytes from there to the end of the buffer.
-- - State is passed on: each operation takes the structure and returns the changed one. The links of
--   lists are one store, so that an operation on a list can be seen to leave other lists alone.
--
-- Fuel. `fifo_put` makes room at most twice, and the refinement shows that the second test of
-- `fifo_full` ends it. `list_search`, `list_size` and `list_insert_sort` take fuel, and their theorems
-- ask for more than the length of the list. The search of `port_get` takes 2 ^ 16 steps, one for each
-- bit of the map, and its theorems show that a free port ends it before. The loop of
-- `tcp_parse_option` takes two rounds on what `tcp_write_option` writes, and may not end on other
-- options. `buffer_alloc` takes five rounds, one more than a page has buffers. `timer_wakeup` takes more
-- rounds than there are timers whose time has come, and its theorem shows that this is enough. The last
-- loop of `chksum` takes three rounds, `tcp_enqueue` one more than there are bytes, and
-- `tcp_pcb_purge` one for each level of accepted blocks, which is two: an accepted block accepts none
-- itself. Other loops recur on their count or on the buffer.
--
-- What memory from `kmalloc` holds is a part of the state where the code reads it: `stale` in the cache of
-- disk blocks, and `query` of an entry of the ARP cache.
--
-- Not modelled: the pages of `alloc_kpage` (an argument of `port_init`), the reads of the clock chip
-- in `time_read_bcd` (an argument of `time_read`), `delay` and `hang`, the stacks and page
-- tables of tasks, the speaker, what drivers answer and the handlers of timers (arguments too), and the
-- rest of the kernel: the arena, the page tables, drivers, file systems and the other protocols. Of TCP,
-- `kmalloc`, `tcp_next_isn`, `netif_route`, what `task_block` returns and what the driver does with a
-- frame are arguments, and a segment has the room that a `pbuf_t` has; the checksums of frames and what `ip_output` answers do not appear.
pub mod Base
pub mod Kernel
pub mod Libc
pub mod Net
