-- ===== src/Lib.antt =====
-- A model of parts of Spike, the RISC-V instruction-set simulator, with the theorems that make
-- these parts correct.
--
-- The program runs harts over a memory and a few devices. A hart reaches them over the bus (`bus_t`),
-- which passes an access on to the device with the nearest base address at or below it; every device
-- has a `load` and a `store`. The interrupt controller, the timer and the serial port set bits of the
-- interrupt-pending register `mip` of the harts, the serial port through the interrupt controller; the
-- disk moves sectors between a file of the host and the bus; the cache simulator follows the accesses
-- of the harts; the instructions compute with the helpers of riscv/arith.h. The MMU of a hart walks the
-- page tables and asks the PMP entries whether an access is allowed; the processor chooses an interrupt
-- from mip; the trigger module tests fetches, loads, stores, traps and executed instructions against
-- the triggers that a program or a debugger set; the JTAG port passes the requests of a debugger to the debug module, and memif_t the
-- accesses of the host to the memory of the target.
--
-- Files, and the code that they model:
--   Base            names, tests, lists and the bits of machine words, shared by all
--   Arith           riscv/arith.h: products, saturating operations, bit counts, permutation
--   Memory          riscv/devices.cc, mem_t: make is the constructor, contents is contents, load and
--                   store are load_store each way, with store_loop and load_loop for its loop
--   Rom             riscv/rom.cc, rom_device_t
--   Bus             riscv/devices.cc, bus_t, over the operations of riscv/abstract_device.h
--   Endian          riscv/devices.h: read_little_endian_reg, write_little_endian_reg
--   Disk            riscv/devices.cc, sync_disk_t; execute_command is execute_command
--   Plic            riscv/plic.cc, plic_t; the registers are in Plic/Registers, load and store in
--                   Plic/Access; the other files below Plic are proofs
--   Uart            riscv/ns16550.cc, ns16550_t; load and store are in Uart/Registers
--   Clint           riscv/clint.cc, clint_t
--   Cache           riscv/cachesim.cc and riscv/cachesim.h: lfsr_t, cache_sim_t with its chain of miss
--                   handlers; fa_cache_sim_t is in Cache/Associative, the tracers of
--                   the instruction and the data cache are in Cache/Tracers
--   Encoding        riscv/encoding.h: the fields of registers and page-table entries
--   Decode          riscv/decode.h: get_field and set_field
--   DebugDefines    riscv/debug_defines.h: the fields of the trigger registers
--   Triggers        riscv/triggers.h, riscv/triggers.cc: the classes of triggers as one record with a
--                   Kind; their registers are in Triggers/Registers, their tests in Triggers/Match,
--                   module_t and trigger_updated of riscv/processor.cc in Triggers/TriggerModule,
--                   sequences of its operations in Triggers/Steps; the other files are proofs
--   Memtracer       riscv/memtracer.h: the types of an access, shared by Cache and Pmp
--   Pmp             riscv/csrs.cc, the PMP registers (pmpaddr, pmpcfg, mseccfg), and pmp_ok and
--                   pmp_homogeneous of riscv/mmu.cc; the files below it are proofs
--   Memif           fesvr/memif.cc: memif_t::read and memif_t::write; the list of bytes stands for the
--                   buffer, read_aligned and write_aligned are what follows the first chunk
--   Processor       riscv/processor.cc: take_interrupt
--   Mmu             riscv/mmu.h, riscv/mmu.cc: vm_info, the entries of a page table, pte_load and
--                   pte_store; s2xlate, walk and translate are in Mmu/Walk; the other files are proofs
--   DebugModule     riscv/debug_module.h, riscv/debug_module.cc, debug_module_t: abstract commands and
--                   the system bus are in DebugModule/Commands, dmi_read and dmi_write in
--                   DebugModule/Dmi, load and store in DebugModule/Access, constants in
--                   DebugModule/Fields; the other files are proofs
--   Opcodes         riscv/opcodes.h: the instructions that the debug module writes
--   Jtag            riscv/jtag_dtm.cc, jtag_dtm_t: rise is the rising edge of set_pins, fall the other
--                   branch; the files below it are proofs
-- A function of the model has the name of the function in the code. A module Examples holds tests and
-- the theorems at concrete inputs.
--
-- Conventions. A word is a natural number, and every wrap-around is written out. An array that is
-- indexed by a register or an identifier is a function of the index, or a list where its size matters; a pointer that may be null is an
-- Option; a load gives its bytes, or none where the code returns false; a store says whether it was
-- accepted. An object is a record that an operation takes and returns.
--
-- Loops. The loop of load_store moves at least one byte in a round, so as many rounds as bytes are
-- enough, and so do the loops of memif_t, whose chunks hold at least one byte; cto and the shift count
-- of a cache line stop within the 64 bits of a word; the loops of the interrupt controller run over a
-- fixed number of words and bits; an access to a cache passes to at most as many handlers as there are;
-- clean_invalidate visits the lines from the first to the last; the PMP checks visit every entry and
-- every 4-byte sector of the access; a page-table walk has one round for each level;
-- the shifts of field_width stop within the 32 bits of a word.
--
-- Parameters. The system bus of the debug module, through which it may reach itself, the reset of a
-- hart, the random challenge and the bytes of the debug ROM are arguments of the debug module. The
-- devices behind the bus, the image file of the disk (pread, pwrite) and the bus that it uses, the physical memory behind the MMU, the debug module behind the JTAG port, the chunks of
-- memif_t, the characters that the terminal would return, the result of a shift of an int that
-- overflows and the wall clock are arguments. The
-- theorems on the disk use that a file gives back what was written, that the bus loads as many bytes
-- as it is asked for, and that error numbers are positive; those on memif_t that the chunks behave as
-- a flat memory at aligned addresses; those on the page-table walk that reading an entry changes
-- nothing; those on the debug module that a store of the bus leaves it as it is or is one store to it,
-- at an address below 0x1000. A store to the debug module that has no defined result, by an ID past
-- the end of an array or an assertion on the length, gives none.
--
-- Not modelled: assertions (a call with a length that does not fit the register ends the program in
-- the code), exceptions for lack of memory, output streams (mem_t::dump, the statistics of the
-- caches), a disk transfer that reaches the registers of the disk itself, the bits
-- STIP and VSTIP that the time register of a hart sets when the timer writes it, and the parts of the
-- simulator that are not named above: the rest of the processor, the TLB,
-- instructions and the host interface. fdt and softfloat are copies of other libraries.
pub mod Base
pub mod Arith
pub mod Memory
pub mod Rom
pub mod Bus
pub mod Endian
pub mod Disk
pub mod Plic
pub mod Uart
pub mod Clint
pub mod Cache
pub mod Encoding
pub mod Memtracer
pub mod Memif
pub mod Processor
pub mod Pmp
pub mod Mmu
pub mod Jtag
pub mod DebugDefines
pub mod Decode
pub mod Triggers
pub mod Opcodes
pub mod DebugModule
