-- ===== src/Lib.antt =====
-- A verification of ipc-msq-multicore, a Linux driver by which the cores of a chip exchange
-- messages through queues.
--
-- The program has three layers. A process calls the user library (user_space/libipc), which makes
-- ioctl calls. The character device (kernel_space/drv_chardev) keeps twelve message queues under
-- keys, which are hashes of names, and hands messages to the inter-core driver
-- (kernel_space/drv-cc), which writes the address and the size of a message to the registers of
-- the other core and interrupts it. In the other direction the interrupt of the inter-core driver
-- calls the handler that the character device registered, and this puts the message into the queue
-- of its key.
--
-- The files and what they model:
--
-- - Common and its children: lists as C arrays, memcpy and strncpy, words, return codes as
--   signed integers, and Outcome, the ways a call ends (it returns, it faults by an access
--   outside an object or through a null pointer, it waits).
-- - Msgque: one queue, IPC_MSGQUE of kernel_space/inc/drv_ipc_msgque.h with the functions
--   isempty, getElementCount, isfull, isvalid, enqueue and dequeue of
--   kernel_space/drv_chardev/drv_ipc_msgque.c. Msgque.Ring has the invariant, Msgque.Fifo the
--   specification, Msgque.Trace sequences of calls, Msgque.Locking and Msgque.Underflow the
--   error paths.
-- - Name: ipc_msgque_namehash of the same file.
-- - Msqinfo: g_msqinfo, ipc_msgque_init and ipc_msgque_exit.
-- - Table: ipc_msgque_get, getIDbyKey, getQuebyID, getTokenByKey, rel, ftok and msgpost.
--   Table.Keys has the invariant of the table, Table.Lookup what a look-up finds after a change,
--   Table.View the table as a map from keys to ids, Table.Tokens and Table.Post the theorems on
--   names and messages.
-- - Sender: ipc_msgque_lockSndMsgBuff, unlockSndMsgBuff and getPhyAddr of the same file;
--   Sender.Pingpong has the theorems on calls one after the other, Sender.Exclusion those on
--   threads whose calls alternate.
-- - Cc: kernel_space/drv-cc/ipc-cc.c with kernel_space/inc/ipc-cc.h; Cc.Layout all registers of
--   kernel_space/inc/cc_reg.h with their bit fields, Cc.Regs those that the driver uses, with
--   its accesses to the bit fields as arithmetic on words, Cc.Device the interrupt, start, stop
--   and probe; Cc.Handlers, Cc.Send, Cc.Receive, Cc.Irq, Cc.Probe, Cc.Apart and Cc.Fields the
--   theorems.
-- - Api: ipc_msg_snd and ipc_msg_rcv of kernel_space/drv_chardev/drv_ipc_api.c, over Table,
--   Sender and Cc; Api.Send and Api.Receive the theorems.
-- - Main: the functions ipc_open, ipc_release and ipc_ioctl of
--   kernel_space/drv_chardev/drv_ipc_main.c, over Table and Api; Main.Handler has
--   ipc_core_handler, the handler of the inter-core events, Main.Probe ipc_probe and ipc_remove.
--   The theorems are in Main.Idle, Main.Release, Main.Dispatch, Main.Files, Main.Calls,
--   Main.Closing (ioctl and release), Main.Delivery (the way of a message from the other core to
--   its reader), Main.Probe.Cleanup and Main.Probe.Remove.
-- - Device: open, close and ioctl as a record of operations over an unknown state, with what
--   their documentation says of descriptors.
-- - User: user_space/libipc/ipclib.c over any such device. User.Session and its children have
--   sequences of calls (User.Session.Kept what every call keeps if the ioctl keeps it),
--   User.Closed what follows on ipc_close, User.Driver the device that Main is, with open files
--   by descriptor, and User.Key a key on its way through all layers.
-- - App: main of user_space/apptest/test.c over the library and any device. App.Exit and
--   App.Rounds are about any device, App.Ready and App.Blocks are about the character device
--   with its queues as ipc_msgque_init leaves them.
-- - Samples: concrete data for the modules Tests, which hold the properties at concrete inputs.
--
-- A C function keeps its name in snake_case without its prefix. What a function changes is its
-- last argument and the last part of its result. A UINT32 is a number below 2 ^ 32, with the
-- wrap-around written out; an INT32 is a signed integer. The calls of the spinlock are recorded in
-- a history, which Outcome.lock_state reads as a lock that is not recursive; the functions go on
-- after a second acquisition, as they do on a kernel for one processor. Outcome.on_build gives the
-- end of the same call on a kernel for several processors, where it spins for ever. Every loop of
-- the driver is a recursion over its array; the loop of the demo is cut off after a number of
-- rounds, App.Rounds is about this number.
--
-- The sources do not compile as they stand; the comments of the files name each reading: &long is
-- the lock, the if with three parts is a for, the sharekey = of isvalid is ==, IPC_CC_CORE_DSP is
-- the third core, the second case of a core that stands twice is the DSP's, and dd of
-- ipc_cc_get_cmd is ipc_cc_dev. Local variables that the code does not initialise are arguments.
-- What no file of the repository defines, the values CLEAR_ACK and DATA_TRIGGER and the offsets of
-- the acknowledge registers, are fields of Cc.Soc. The answers of the kernel (kmalloc,
-- dma_alloc_coherent, the platform calls) are arguments.
--
-- The loop of ipc_msg_rcv is a recursion over the wake-ups of its thread; when they are used up it
-- waits. Not modelled: printk, and the registration of modules and drivers.
pub mod Common
pub mod Msgque
pub mod Name
pub mod Msqinfo
pub mod Table
pub mod Sender
pub mod Cc
pub mod Api
pub mod Main
pub mod Device
pub mod User
pub mod App
mod Samples
