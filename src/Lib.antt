-- ===== src/Lib.antt =====
-- Valhalla OS, the Yggdrasil kernel: a model of its core in C, with the theorems that make it
-- right.
--
-- The kernel's parts, and the files that model them (paths of the source are from the repository's
-- root):
-- * Heap models src/sys/heap.c: the regions and the blocks of kernel memory. Heap.Resize has
--   heap_realloc, Heap.Remove heap_remove_region, and Heap.Stats heap_stat. Everything in the
--   kernel that makes objects, such as tasks and files, calls it. Memory is a function from
--   addresses to block headers; addresses and sizes are 32-bit numbers that wrap.
-- * Mm.Phys models src/arch/x86/mm/phys.c: the bitmap of physical pages, which the address spaces
--   take their pages from, and the memory map that the boot loader hands over. A bitmap is a
--   function from words to their bits.
-- * Mm.Pool models the pool of paging structures of src/arch/x86/mm/space.c, Mm.Map
--   src/arch/x86/mm/map.c, Mm.Space the address spaces of src/arch/x86/mm/space.c and the set-up
--   of src/arch/x86/mm/mm.c, Mm.User src/arch/x86/mm/user.c, and Mm.Fork mm_space_fork. A paging
--   structure is a function from indices to words, at its virtual address; the physical pages come
--   from Mm.Phys; a failed assertion and a panic are `none`.
-- * Text models src/sys/string.c, src/sys/ctype.c, src/sys/atoi.c, memset and memcpy of
--   src/sys/mem.c, and strcmp of usr/lib/posix/string.c. A C string is the list of its bytes.
-- * Format models src/sys/debug.c, its child Interpret the format strings, its child Dump
--   debug_dump, and its child Sizes fmtsiz of src/sys/mem.c and src/net/inet.c. They use Text.
-- * Task models the scheduler of src/arch/x86/task/task.c and src/sys/task.c: a store of tasks
--   that are linked by addresses, and x86_task_switch, which the timer interrupt calls.
-- * Net models src/dev/net.c: interfaces, their addresses and routes; Net.Arp models src/net/arp.c
--   and the functions of src/dev/net.c that call it, Net.Config the configuration file. What is
--   sent is a list of packets; an interface is found by its name with strcmp of Text.
-- * Vfs models the reads and writes of src/sys/vfs.c, Vfs.Table its mounts and the lookup of
--   paths, Vfs.Directory its directories and facts about paths, and Vfs.Terminal src/dev/tty.c,
--   whose reads wait for an interrupt. Drivers are functions that the caller gives, and so is the
--   copy to the task that reads, which Mm.User models.
-- * Initrd models src/dev/initrd.c: the tar archive that is the first file system;
--   Initrd.Directory lists its directories. Its open and read are operations that Vfs calls
--   through a file system's table.
-- * Dev models src/sys/dev.c and src/dev/pseudo.c, Dev.Devfs src/dev/devfs.c and Dev.Procfs
--   src/dev/procfs.c. The nodes of both file systems are linked by addresses, which heap_alloc
--   gives and the caller hands over; procfs lists the tasks of Task. Vfs calls them through their
--   tables.
-- * Sys.Files, Sys.Calls and Sys.Dispatch model src/arch/x86/syscall.c: the calls on files, the
--   calls on tasks, and x86_syscall, which the interrupt of a system call runs. They act on the
--   scheduler of Task; the file system and the copies between a task and the kernel, which Vfs and
--   Mm.User model, are a record of operations, Ops, and so are fork, execve and the signals,
--   TaskOps.
-- * Sys.Elf models the loader, src/sys/elf.c, on the address spaces of Mm.
-- * Console models src/arch/x86/hw/console.c, the text screen and its frame buffer, and
--   Console.Startup the start of a graphic mode, which maps the frame buffer by Mm.Map. The
--   kernel's messages of Format and the terminals of Vfs go to it.
-- * Libc models the buffer and the formats of usr/lib/posix/vsnprintf.c, with the digits of
--   Format.
-- * Proc models the rest of src/arch/x86/task/task.c: the contexts and stacks of tasks; Proc.Fork
--   src/arch/x86/task/fork.c with the making and the end of tasks, and Proc.Signals the signal
--   handlers. It acts on the scheduler of Task and the address spaces of Mm, and loads programs by
--   Sys.Elf; it is what the calls of Sys take as TaskOps.
-- * Acpi models src/arch/x86/hw/acpi.c, which finds the tables of the firmware at start-up.
-- Base has the helpers that all share. In a component's folder the file Tests runs it at concrete
-- inputs, and the other files are named for what they prove.
--
-- Bounds and fuel: a 32-bit number is a natural number with its wrap-around written out. Loops
-- over linked structures run on fuel. In Heap, Task and Dev it exceeds the number of blocks, tasks
-- or nodes, in Initrd it is two more than the number of entries, and the theorems about these
-- loops say that the fuel is enough. sys_write has one round more than whole buffers as fuel. The
-- loops of Format and Libc have the number of digits or of characters as fuel, and a round for the
-- end.
--
-- Not modelled: messages and the dumps of the parts' state, which only print; the registers, ports
-- and descriptor tables of the hardware, the device drivers, and assembly; the AArch64 port; user
-- space but for strcmp and vsnprintf; and src/sys/linux/elf.h, which is a copy of another project.
-- Interrupts appear as separate calls of the operations that their handlers run.
pub mod Base
pub mod Heap
pub mod Mm
pub mod Text
pub mod Format
pub mod Task
pub mod Net
pub mod Vfs
pub mod Initrd
pub mod Dev
pub mod Sys
pub mod Console
pub mod Libc
pub mod Proc
pub mod Acpi
