-- ===== src/Lib.antt =====
-- rvwasm: an RV64IMAC interpreter with a small machine around it, for the browser.
--
-- The program and its parts. A hart (internal/cpu) runs instructions one by one: `Step` in cpu.go
-- ticks the devices, looks for an interrupt, fetches through the page tables and the physical
-- memory protection, and executes. Instructions change registers, control and status registers
-- (csr.go) and memory; faults and interrupts go through `trap` (trap.go). Memory and devices are
-- behind a bus (internal/mem/bus.go), and the devices (internal/dev) drive bits of mip in turn. The
-- virtio devices share queues with the guest through its memory. internal/boot writes the device tree.
--
-- The files:
--   Base and its children: 64-bit words, two's complement, bits, arrays, tests on numbers.
--   Ring: the rings of the trace and access logs.
--   Cpu/Hart, Cpu/Access: the state of a hart (`Hart` of internal/cpu/cpu.go), its logs (trace.go),
--     and accesses as actions that change the hart and may fail.
--   Cpu/Addr, Cpu/Csr: the control and status registers (csr.go).
--   Cpu/Pmp: physical memory protection (pmp.go). Cpu/Mmu: Sv39 and virtual accesses (mmu.go).
--   Cpu/Trap: traps, returns and interrupts (trap.go).
--   Cpu/Alu, Cpu/Exec, Cpu/Base32, Cpu/Compressed: the instructions (util.go, exec.go, exec_m.go,
--     exec_amo.go, exec_system.go, exec_c.go).
--   Cpu/Step: `Reset`, `Step` and `Run`.
--   Cpu/Status, Cpu/Trap/Entry, Cpu/Mmu/Keeps, Cpu/Invariant: lemmas. Cpu/Invariant is a rule for
--     invariants over steps, from what traps, returns, CSR writes, device signals and PMP refreshes do.
--   Cpu/Legal, Cpu/Protect: invariants by this rule.
--   Mem/Bytes, Mem/Bus, Mem/Bus/Setup: the bus. Its `bus_platform` is a platform for the hart.
--   Dev/Plic, Dev/Clint, Dev/Uart, Dev/Syscon: the devices.
--   Virtio/Guest, Virtio/Chain, Virtio/Transport, Virtio/Registers, Virtio/Queue: what
--     internal/dev/virtio_blk.go, virtio_rng.go, virtio_console.go, virtio_net.go and virtio_input.go
--     repeat, once: actions on the guest's memory,
--     descriptor chains, registers, and the rings with the loops over them.
--   Virtio/Block, Virtio/Rng, Virtio/Console, Virtio/Net, Virtio/Input: the devices on top of these.
--   Boot/Fdt, Boot/Fdt/Virt, Boot/Fdt/Tree, Boot/Dynamic: the device tree and the firmware
--     information (internal/boot). Boot/Fdt/Reader is a reader to compare the builder with.
--   Their children: lemmas and theorems, named for what they say.
--   Tests: the theorems at concrete inputs.
--
-- How the code is modelled. A Go function is a definition of the same name; a method takes the
-- state and returns the state after it. Machine integers are natural numbers with the wrap-around
-- written out. An array or a map is a function. A call of a callback, such as `SetPending`, is an
-- entry in a list of signals, in the order of the calls. The hart's bus and its SBI handler are
-- parameters (`Platform`), as are the devices of the bus (`Devices`). A line of a trace is a value
-- and not its text.
--
-- Bounds. The loops of the code are over counted ranges, and each is structural recursion on the
-- rounds that are left: 64 PMP entries, 8 bytes of a register, at most 8 bytes of an access, 3 levels
-- of page tables, 63 sources, as many descriptors as a table holds. `run` takes the number of steps
-- that `Run` does. Only the loops over a virtio queue, `for` without a condition in the code, take
-- fuel, the rounds that they may do, and say when it is used up. The fuel is an argument, because no
-- number is enough for every guest: in the code too such a loop goes on while the index of the
-- available ring, which is in the guest's memory, moves on, and a transmit loop while the used ring
-- cannot be read. The entry of block_process-Ended below says when 65536 rounds, one for each value
-- of a 16-bit index, are enough.
--
-- The virtio devices read and write the guest's memory through a parameter (`Memory`), which stands
-- for the bus as they call it. Their writes do not come back to their own registers, which a guest
-- could arrange with a descriptor that points there. A failed bounds check of Go is a
-- result in the block device. The bus is modelled for a memory that begins at address 8 or above, as
-- that of the program does: below it the sum in `InDRAM` wraps for an access of up to 8 bytes at the
-- end of the address space, and Go's check of the slice would fail.
--
-- Not modelled: the disassembler and every other function that makes text, the ELF loader, the virtio
-- GPU device, the symbol map, the analyses of internal/analyze, and the front ends in cmd,
-- which hold the SBI handler.
mod Base
pub mod Ring
pub mod Cpu
pub mod Mem
pub mod Dev
pub mod Virtio
pub mod Boot
mod Tests
