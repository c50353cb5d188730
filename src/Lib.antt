-- ===== src/Lib.antt =====
-- StinkOS: the kernel's own data structures, translated from its C sources, with their correctness.
--
-- The parts and how they meet. The frame allocator (kernel/arch/pmm.c) hands out page frames. The
-- process table (kernel/sys/proc.c) holds the processes and chooses the next one to run; a kernel
-- thread takes its stack from the frame allocator, and the frame goes back when the process is reaped.
-- Every process owns a table of file descriptors (kernel/fs/vfs.c), which remember a name and a cursor
-- and go to the mount table and StinkFS (kernel/fs/fs.c), which keeps named files in contiguous sectors
-- of a drive. Threads pass bytes through pipes (kernel/sys/pipe.c); the timer interrupt runs one-shot
-- callbacks (kernel/sys/timer.c); the kernel log (kernel/sys/klog.c) keeps the last messages in a ring.
-- On the network, TCP (kernel/drivers/net/tcp.c) turns the bytes of a process into segments and the
-- segments of a peer into bytes, and ARP (kernel/drivers/net/arp.c) finds the MAC address of the host
-- that a segment goes to. The list of processes and that of the ARP cache are printed as text.
--
-- The files. Base: lists with the C meaning of an index, Boolean tests, 32-bit words, and the view of a
-- ring buffer as the list of what it holds. Pmm, Proc, Fs, Vfs, Pipe, Timer, Klog, Arp, Tcp, Mbr: the state of a
-- component as a record, its static variables being the fields, and one function per C function, under
-- its name; the modules below each are named for what they prove, and Tests runs them on concrete
-- input. Fs has the directory, the names and the drive, Fs/Stink and Fs/Update the backend, Fs/Mounts
-- the mount table, and Vfs/Files the descriptors. Text has the printing into a buffer of a given size,
-- and Arp/Snapshot and Proc/Snapshot the two lists. Tcp has the connections and their rings,
-- Tcp/Segment the bytes on the wire, Tcp/Options the parsers, Tcp/Output the sending, Tcp/Input the
-- handling of a segment in every state, and Tcp/Tick the timers. Mbr has the partition table in sector 0
-- of a drive (kernel/fs/mbr.c), on the drive of Fs.
--
-- How the C code is read. Pointers into a table are indices, and NULL is `none`. Unsigned sums and
-- differences wrap as `add32` and `sub32` say. A buffer with its length is the list of its bytes, and
-- -1 is `none` or `false`. A loop over an array is recursion over the list or over the rounds that are
-- left. The loops whose end depends on data (writing and reading sectors) get one round per byte as
-- fuel, which is enough because each round handles at least one byte; the round trip is proved with
-- that fuel, so that a run that stops early would refute it. Of TCP's loops, the one that drains the
-- out-of-order queue gets three passes, as each but the last frees one of the two slots; the one that
-- sends gets one round for each byte of the congestion window and one more; an option parser gets one
-- round for each byte; the checksum's fold gets three rounds, enough for 32 bits; and the padding of a
-- column gets one round for each byte of the buffer. Where a pipe sleeps, the model returns a
-- result of its own; what other threads do before it goes on is a step of Pipe/Stream.
--
-- The drive. The ATA driver (kernel/drivers/storage/ata.c) is port I/O. What StinkFS sees of it is a
-- table of sectors, and a list of outcomes for the commands to come: each one succeeds, or fails after
-- some number of its sectors. The theorems about errors hold for every such list. A sector number is
-- not cut to the 28 bits that the driver's command carries (StinkFS ends at sector
-- 200516), and the size of a buffer is the length of its list, which in C is below 2^32. In C the
-- directory is `struct fs_dir` overlaid on its buffer; `encode_dir` and `decode_dir` say which bytes
-- its fields are, and stand for no code of their own.
--
-- The network. A segment handed to `ipv4_send` and a frame handed to `eth_send` are results, as lists of
-- bytes; the clock, the local address and the caller's pid are arguments. A received segment comes with
-- the memory behind it, which the SACK option parser can read.
--
-- Not modelled: the rest of the network stack (IPv4, UDP, DHCP, DNS), paging, the ELF loader, the system
-- calls, the drivers and the user programs; assembly (context_switch) and port I/O. The callbacks of
-- timers are a function of the table.
pub mod Base
pub mod Klog
pub mod Pmm
pub mod Pipe
pub mod Vfs
pub mod Proc
pub mod Fs
pub mod Mbr
pub mod Arp
pub mod Text
pub mod Tcp
pub mod Timer
