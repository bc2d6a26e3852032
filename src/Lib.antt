-- ===== src/Lib.antt =====
-- good-os-framework, a framework for x86-64 kernels in Rust: this library models its allocators,
-- its page tables, the loading of programs, its scheduler, its user heap, its clocks and displays, its
-- signals and its drivers for NVMe, PCI and the mouse.
--
-- src/data/bitmap.rs is Data/Bitmap.antt. `Bitmap` keeps the bytes of the slice as a list of
-- numbers; `get` and `set` panic past the end. The bit access of a byte belongs to the `bit_field`
-- crate, so it is the interface `BitField`, which Data/Bitmap/Bits.antt fills for `u8`.
--
-- src/memory/frame.rs is Memory/Frame.antt: `BitmapFrameAllocator` with `init` (Memory/Frame/Init.antt), `allocate_frames`,
-- `allocate_frame` and `deallocate_frame`. The loops are `count_run`, `skip_used`, `search_run`,
-- `mark_used` and `find_free`. Those with a condition run on fuel, one round more than there are
-- frames left below the length of the bitmap. `allocate_frames` itself gives them this fuel, and
-- with it no loop runs out. The conversions of src/memory/mod.rs are in
-- Memory/Address.antt, with the offset that the boot loader answers as an argument and the sums
-- taken modulo 2 ^ 64.
--
-- src/memory/page_table.rs is Memory/PageTable.antt. A table is a function from an index to an entry,
-- the memory a function from the physical address of a table to the table; the loop over a table is
-- `copy_entries`, and the levels are a structural recursion, so no fuel is needed. The entries of the
-- `x86_64` crate are the interface `Paging`. Memory/PageTable/Walk.antt says by `lookup` how an
-- address is looked up in a tree, Memory/Frame/Supply.antt by `Supply` how many frames an
-- allocator has left. Memory/PageTable/General.antt and Access.antt have the other functions. They
-- use the mapper of the crate, which is the interface `Mapper` of Memory/Mapper.antt; so does
-- src/memory/manager.rs, which is Memory/Manager.antt, with the stack of src/task/stack.rs.
-- src/task/process.rs is Task/Process.antt: the loop over the segments of a program, each of which
-- the `object` crate gives, and the end of a process. src/task/scheduler.rs is Task/Scheduler.antt:
-- the queue, the thread of each processor and the threads that are alive, which a `Weak` reference is
-- looked up in. src/memory/user_heap.rs is Memory/UserHeap.antt, over the `talc` allocator as the
-- interface `Talc`. Its `extend` is told which bytes can be accessed, and has no law, since `sbrk` extends
-- the allocator before it maps the new pages. The laws of `Mapper` are for the flags of a present page
-- of 4 KiB; with other flags the crate panics or maps nothing.
--
-- src/drivers/rtc.rs is Drivers/Rtc.antt and src/drivers/hpet.rs is Drivers/Hpet.antt. What the timer
-- shows at each read is an argument, and the loop over its halves runs on fuel; two rounds are enough
-- for a counter that is not faster than the reads. src/drivers/display.rs is
-- Drivers/Display.antt and src/console/tty.rs is Console/Tty.antt.
--
-- src/drivers/mod.rs is Drivers/Dma.antt: `alloc_for_dma` and `dealloc_for_dma` lock the frame
-- allocator, which the model passes as a state.
--
-- src/task/signal.rs is Task/Signal.antt. The field `data` of a signal is `payload`.
--
-- src/drivers/nvme is Drivers/Nvme. Cmd.antt has the submission entries of cmd.rs; Memory.antt the
-- buffers and the chunk iterator of memory.rs; Queues.antt the rings of queues.rs. The controller is
-- the other side of a ring: `complete_spin` takes what the memory of the ring holds at each of its
-- polls, and Queues/Complete.antt states by `Synced` which entries the controller has posted.
-- Device.antt has the registers and the state of the device of nvme.rs; what the driver writes to the
-- controller is a trace, and `Controller` says what the controller shows after a trace. Device/Init.antt
-- brings a controller up, Device/Admin.antt has the admin commands, Device/Transfer.antt the reads and
-- writes on the queue of the device, Device/Pair.antt the other queue pairs.
-- `complete_spin` runs on fuel, which stands for how long the driver has waited.
--
-- src/drivers/mouse.rs is Drivers/Mouse.antt: the packets of a movement, and the commands that set the
-- mouse up. The polls of a port are bounded in the source, so no fuel is needed.
--
-- src/drivers/pci.rs is Drivers/Pci.antt, with the configuration addresses of src/arch/mod.rs. The
-- registers of a device are a state of the machine, which `Hardware` reads and writes.
-- Drivers/Pci/Header.antt has the common header, Drivers/Pci/Bar.antt the base address registers,
-- Drivers/Pci/Device.antt the rest of the headers, Drivers/Pci/Capability.antt the list of capabilities
-- and Drivers/Pci/Scan.antt the scan, on fuel for the buses that bridges lead to. Drivers/Pci/Root.antt has
-- the memory-mapped registers of a root.
--
-- A panic is the outcome `panics`, a loop that has used up its fuel the outcome `spins`; a result is
-- `done` (Base/Faults.antt).
--
-- Not modelled: code that only drives the machine (descriptor tables, context switches, ports and
-- device registers), and logging, which changes no state of the model. Of the files above, the
-- transfers of NVMe through a copied buffer, the switch of the terminal to another buffer, the creation
-- of threads and processes and the search of the list of PCI devices are left out. The bytes that
-- programs and the kernel read and write are those outside the page tables; a write that an address
-- leads into a page table is not modelled.
mod Base
pub mod Data
pub mod Memory
pub mod Task
pub mod Drivers
pub mod Console
