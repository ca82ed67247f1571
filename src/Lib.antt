-- ===== src/Lib.antt =====
-- A model of hvf, a hypervisor for IBM mainframes, and what holds of it.
--
-- hvf's control program (CP, under cp/) runs guests by the SIE instruction. It hands out storage by
-- pages, interprets the guests' channel instructions and channel programs, keeps the output of their
-- unit record devices in spool files, and delivers their interruptions. The files here follow it:
--
-- Str: lib/string.c and the case conversions of include/string.h. A string is the list of its bytes
--   before the NUL; `memmove` and `strncpy` work on storage as a function from addresses to bytes.
-- Mm.Buddy: cp/mm/buddy.c. A page is its number, the free lists are lists of page numbers. `Found`
--   has a case for an order past the end of a list array. `chip_pages` and `search_larger` recurse on
--   the number of orders to go.
-- Mm.Dat: `__memcpy_tofrom_guest` of cp/mm/dat.c. The LRA instruction is the parameter `lra`. The
--   loop has the length as its fuel, which is enough since each round copies a byte or more.
-- Mm.Tables: the address spaces of cp/mm/dat.c and cp/include/dat.h, over storage as doublewords; tables
--   come from Mm.Buddy. Mm.Tables.Walk has the translation by the tables and the account of their pages.
-- Mm.Slab: cp/mm/slab.c over Mm.Buddy. A cache is the list of its pages, with headers as records and the
--   bitmaps in storage.
-- Fs.Spool: cp/fs/spool.c, with pages as functions from offsets to bytes; its loops have the
--   record's length as their fuel, which is enough for the same reason.
-- Fs.Volume, Fs.Bcache, Fs.Edf: cp/fs/edf.c with cp/include/edf.h, cp/fs/bcache.c and
--   cp/fs/bdev.c. A structure on the disk is its bytes. What the allocator and the driver answer to
--   each request is a parameter. `bcache_read` recurses on the levels above the block.
-- Guest: the structures of cp/include/vcpu.h, cp/include/vdevice.h and include/channel.h; Guest.Layout
--   has their bytes in storage. `Sys` is the whole state of a guest.
-- Guest.Priv: MSCH, SSCH, STSCH and TSCH of cp/guest/instruction_priv.c. Guest.Intercept is the
--   dispatch to them (cp/guest/intercept.c, cp/guest/instruction.c) and cp/guest/system.c.
-- Guest.SpoolDev: `spool_exec` of cp/drivers/spooldev.c, which SSCH calls, and the console's write of
--   cp/drivers/spooldev_cons.c, which calls Fs.Spool. Its loop is on fuel that the caller chooses: a
--   channel program that chains and jumps back may go round for ever.
-- Guest.Interrupt: `__io_int` and `run_guest` of cp/guest/run.c, which deliver what SSCH queued.
-- Guest.Reset: cp/guest/reset.c. Guest.Attach: cp/guest/attach.c, cp/drivers/vdevice.c and
--   `find_device_by_ccuu`.
-- Guest.Storage: `alloc_guest_storage` of cp/guest/init.c, over Mm.Buddy and Mm.Tables.
-- Nucleus.Sched: cp/nucleus/sched.c, a task by its address; `create_task` uses Mm.Buddy and Mm.Slab. A
--   call of `__schedule` comes with the registers and the clock at its interruption.
-- Nucleus.Io: cp/nucleus/io.c, the queue of one device. An event comes with what the channel
--   instructions return and what the operation's handler leaves in `err`.
-- Nucleus.Ldep: cp/nucleus/ldep.c, the stack of one task.
-- Nucleus.Mutex: cp/include/mutex.h and cp/nucleus/mutex.c, as a step relation over tasks, with
--   `schedule_blocked` and `make_runnable` as steps of their own.
-- Clock: lib/clock.c and include/clock.h. The loop over years has 150 rounds, more than 64 bits have
--   years, and the loop over months two, for a start in July.
-- Digest: lib/digest.c and include/digest.h, over the instructions that hash.
-- Drivers.Registry: cp/drivers/device.c, devices and their types by address. Drivers.Dasd:
--   cp/drivers/dasd.c, the geometry of a 3390 and the program that reads a block.
-- Base has what they share, Errno the error numbers, Examples concrete inputs.
--
-- A BUG of the code, which stops CP, is `none`. Outside Nucleus.Mutex locks are left out: each
-- operation holds the lock of what it changes. Messages to the console are left out. What fresh
-- storage and local variables hold before they are set, and the answers of the allocator for spool
-- files, EDF volumes and devices, are parameters. Not modelled: the SIE instruction and other
-- assembly (with it the task switch and the spin lock), the shell, the other drivers of real
-- devices, the rest of the nucleus, and the generated parsers.
pub mod Base
pub mod Clock
pub mod Digest
pub mod Drivers
pub mod Errno
pub mod Examples
pub mod Fs
pub mod Guest
pub mod Mm
pub mod Nucleus
pub mod Str
