-- ===== src/Lib.antt =====
-- TENCLAW: a model of the virtual machine monitor's device layer and of its control protocol.
--
-- The program runs a Linux guest on the Windows Hypervisor Platform. An exit of a virtual CPU becomes
-- a port or a memory access, which the address space hands to the device whose window holds it. Of
-- the devices, the VirtIO ones share guest RAM with the driver: the transport's registers set up
-- virtqueues, a notification makes the device pop requests from the available ring, walk their
-- descriptor chains, do the work, and push the answers onto the used ring, after which the transport
-- raises an interrupt. The manager and a running machine talk in messages of one text line each.
--
-- The modules, and the code that they model:
--   Memory     src/core/vmm/types.h: guest addresses; host memory
--   Virtqueue  src/core/device/virtio/virtqueue.h, virtqueue.cpp
--   Mmio       src/core/device/virtio/virtio_mmio.h, virtio_mmio.cpp: the transport, for any device
--   Disk       src/core/device/virtio/disk_image.h: the interface of a disk, and its contract
--   RawImage   src/core/device/virtio/raw_image.h, raw_image.cpp: a disk in a plain file
--   Qcow2      src/core/device/virtio/qcow2.h, qcow2.cpp: a disk of clusters behind tables
--   DiskImage  src/core/device/virtio/disk_image.cpp: the choice of a disk's format
--   Blk        src/core/device/virtio/virtio_blk.h, virtio_blk.cpp: requests, for any disk
--   Bus        src/core/vmm/address_space.h, address_space.cpp: dispatch, for any devices
--   Uart       src/core/device/serial/uart_16550.h, uart_16550.cpp
--   Ioapic     src/core/device/irq/ioapic.h, ioapic.cpp
--   Acpi       src/core/device/acpi/acpi_pm.h, acpi_pm.cpp
--   Pit        src/core/device/timer/i8254_pit.h, i8254_pit.cpp
--   Rtc        src/core/device/rtc/cmos_rtc.h, cmos_rtc.cpp
--   PciHost    src/core/device/pci/pci_host.h
--   Protocol   src/ipc/protocol_v1.h, protocol_v1.cpp
--   Agent      src/core/guest_agent/guest_agent_handler.h, guest_agent_handler.cpp
--   AcpiTables src/core/arch/x86_64/acpi.h, acpi.cpp: the tables in guest RAM
--   Boot       src/core/arch/x86_64/boot.h, boot.cpp: the kernel and what it needs to start
--   Serial     src/core/device/virtio/virtio_serial.h, virtio_serial.cpp: the agents' ports
--   NetBackend src/core/net/net_backend.cpp: the checksums
--   Vdagent    src/core/vdagent/vdagent_handler.h, vdagent_handler.cpp: the clipboard
--   Input      src/core/device/virtio/virtio_input.h, virtio_input.cpp: events, configuration
--   Net        src/core/device/virtio/virtio_net.h, virtio_net.cpp: the network card
--   Base       what the others share: tests, lists, machine words, bits
-- A definition has its function's name in this spelling: `VirtQueue::PopAvail` is `pop_avail` of
-- Virtqueue. A class is a record of its fields, a method takes and returns it. A switch of a large
-- method is split: `MmioWrite` is `mmio_write`, with `write_plain` for the registers that touch the
-- transport alone and a function each for queue-ready, notify and status.
--
-- Numbers are natural numbers; a w-bit value keeps its wrap-around (`u16`, `u32`, `u64`). Host memory
-- is a total function from addresses to bytes: an access outside the guest's allocation is not an
-- error of the model, and bounds are theorems. Callbacks (interrupts, transmitted bytes, power-off)
-- are counted or recorded in the state. An operation is one step: the locks of the UART and of the
-- I/O APIC make theirs so, and a virtqueue is served by the thread that notifies.
--
-- The loop that drains a queue (Blk, Net, Input, Serial) has fuel 2 ^ 16: both indices are 16 bits wide, so
-- fewer than 2 ^ 16 requests are pending at any time. A chain walk is bounded by the queue's size, as
-- in the code. The loops of Qcow2 over the clusters of a request have its length as fuel, since each
-- round moves at least one byte; the loop that makes room in the cache has the number of cached
-- tables. A sound image (Qcow2/Image) has its tables and clusters in the file, apart from one
-- another, and no compressed cluster; the code for compressed clusters is modelled in full, but no
-- result is about it. An image with room (Qcow2/Room) has all of these below the end of its file, and
-- the clusters and tables that its disk may still need fit below 2 ^ 56, which an entry can address.
--
-- Code from elsewhere is a parameter: the C library's file operations (RawImage, Qcow2), zlib and
-- zstd (Qcow2), its broken-down time (Rtc), the host's time-stamp counter scaled to timer ticks
-- (Pit), printing and `strtoull` (Protocol), `strtoll` and the random number of a handshake (Agent), what lies in memory past a receive buffer (Vdagent), the files' contents (Boot).
-- Not modelled: the other VirtIO devices, the rest of the network backend, the hypervisor's interface,
-- the machine's assembly, the services and the user interface; logging; and reads of memory that race
-- with the guest.
mod Base
pub mod Memory
pub mod Virtqueue
pub mod Mmio
pub mod Disk
pub mod RawImage
pub mod Blk
pub mod Uart
pub mod Vdagent
pub mod NetBackend
pub mod Serial
pub mod Ioapic
pub mod Bus
pub mod Acpi
pub mod AcpiTables
pub mod Boot
pub mod Pit
pub mod Rtc
pub mod PciHost
pub mod Protocol
pub mod Agent
pub mod Input
pub mod Qcow2
pub mod DiskImage
pub mod Net
