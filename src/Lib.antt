-- ===== src/Lib.antt =====
-- mcy-OS, a small x86 kernel: its core in antt.
--
-- The kernel (C, 32-bit) boots, manages memory by bit maps and arenas, schedules threads from a
-- ready list, synchronises them by semaphores and locks, moves bytes between drivers and programs
-- through ring buffers, and keeps an inode file system on an IDE disk. A shell runs on top of it.
--
-- The files and what they model:
--
--   Prelude             shared types and lemmas; `Result` with `panic`, which stands for a failed
--                       ASSERT or a PANIC (lib/kernel/debug.h: the machine stops)
--   Bitmap              lib/kernel/bitmap.c over a list of bytes
--   LinkedList          lib/kernel/list.c: links as two functions from addresses to addresses
--   Thread              thread/thread.c (schedule, thread_block, thread_unblock, thread_yield),
--                       userprog/process.c (process_activate) and the handler of device/timer.c
--   Ioqueue             device/ioquene.c, and pipe_read and pipe_write of shell/pipe.c
--   Keyboard            device/keyboard.c: the interrupt handler and the key map
--   Sync                thread/sync.c: semaphores and locks, and the steps of the tasks that use one
--   Memory              lib/kernel/memory.c: page frames, virtual pages, page tables and the
--                       places of blocks in an arena
--   Heap                lib/kernel/memory.c: sys_malloc and sys_free
--   Pid                 thread/thread.c: allocate_pid and release_pid
--   Inode               fs/inode.c: the place and the bytes of an inode, and the open inodes
--   Format              fs/fs.c: partition_format and mount_partition
--   Descriptors         the tables of open files of fs/file.c, fs/fs.c and shell/pipe.c
--   FileIo              fs/file.c: file_read and file_write over the blocks of an inode, file_open and
--                       file_close
--   Process             userprog/wait_exit.c and thread/thread.c: sys_wait, sys_exit, thread_exit,
--                       init_thread, thread_create, thread_start
--   Paths               path_parse and path_depth_cnt of fs/fs.c, wash_path and make_clear_abs_path of
--                       shell/buildin_cmd.c
--   Directory           fs/dir.c: search_dir_entry, dir_read, sync_dir_entry, delete_dir_entry
--   Search              fs/fs.c (search_file) and fs/dir.c (dir_open, dir_close)
--   Stdio               lib/stdio.c: itoa and vsprintf
--   Shell               shell/shell.c: cmd_parse
--   Ide                 device/ide.c: the commands to the controller, ide_read, ide_write, the handler,
--                       partition_scan
--   CString             lib/kernel/string.c: strings and blocks of bytes in memory
--
-- Numbers are natural numbers; a `uint32_t` or `int32_t` is its 32-bit pattern, so -1 is 2^32 - 1,
-- and wrap-around is written out where the source can wrap. A loop runs on fuel or on the number
-- of its rounds; a property that runs such a loop says how much fuel is enough. Where the source
-- would write outside an object (a name of 16 characters or more, the buffer of file_write for an
-- inode in two sectors, a full pool of process numbers, a page table without a frame) or an interrupt
-- handler would sleep, the model stops as at a failed ASSERT, and the properties have the condition
-- that excludes it.
--
-- Not modelled: the lock that an ioqueue holds while a task waits, the locks of the memory pools
-- and of the process numbers (their operations are single steps), the contents of pages, console
-- output and the ports of devices. For the file system the disk is the bytes of its sectors, read
-- and written by whole sectors; Ide has what the driver does for that. The release of the pages
-- and files of a process that exits, the release of the blocks of an unlinked inode, the removal
-- of whole directories, the creation of files, and the commands and the line editor of the shell
-- have no model; boot and interrupt entry code is assembly.
--
-- How the parts meet: the scheduler keeps its ready list as a sequence of tasks, which is what
-- LinkedList/Lists.antt shows of the nodes in memory (a node `general_tag` stands for its task).
-- An interrupt handler and a call between `intr_disable` and `intr_set_status` is one step.
pub mod Prelude
pub mod Bitmap
pub mod LinkedList
pub mod Thread
pub mod Ioqueue
pub mod Keyboard
pub mod Sync
pub mod Memory
pub mod Pid
pub mod Inode
pub mod Descriptors
pub mod CString
pub mod FileIo
pub mod Process
pub mod Paths
pub mod Directory
pub mod Stdio
pub mod Shell
pub mod Ide
pub mod Heap
pub mod Format
pub mod Search
