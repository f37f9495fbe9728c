-- ===== src/Lib.antt =====
-- The emulator of a RISC-V hart that runs beside the processor under test in difftest/: what its
-- code does, as definitions that run, and what is proved of them.
--
-- The program. difftest/src/sim_mycpu.cpp clocks the processor under test and, for each instruction
-- that it retires, steps an emulated hart (`rv_core`) and compares the two. The hart executes with
-- `alu_exec`; its loads, stores and atomic operations go through `rv_priv` to a bus
-- (`rv_systembus`), which passes them on to devices (`mmio_dev`): memories (`mmio_mem`), the timer
-- (`rv_clint`). The processor's own accesses go over its SRAM pins (`nscscc_sram_slave`) to a second map
-- of devices (`nscscc_sram_xbar`). There is an interrupt controller (`rv_plic`), too.
--
-- The files.
--   Prelude, Word, Bytes: shared helpers. A machine word is a native number below 2 ^ 64, with
--     wrap-around written out; an int64_t is its bit pattern. Buffers are lists of bytes. `Outcome`
--     says how a call ends: normally, by `exit`, by a failed `assert`, or in undefined behaviour.
--   Alu: `alu_exec` of difftest/src/rv_core.hpp, as `alu_exec`; the `switch` is `alu_switch`.
--   Clint: difftest/src/rv_clint.hpp, its member functions under their names.
--   Mem: difftest/src/mmio_mem.hpp, likewise; a file is the list of its bytes.
--   Device: difftest/src/mmio_dev.hpp; the classes that derive from it are the constructors.
--   Bus: difftest/src/rv_systembus.hpp. The `std::map` of devices is a list in the order of its keys;
--     an entry refers to a device by its index in `heap`, as the pointer does.
--   Csr: the enums and bit-fields of difftest/src/rv_common.hpp that name CSRs, modes and causes.
--   Sv39: difftest/src/rv_sv39.hpp, the walk as `walk` and `ptw`, the TLB as `scan`, `local_tlb_get`,
--     `local_tlbe_get`; a TLB pointer is an index.
--   Priv: difftest/src/rv_priv.hpp. Priv has the state, `reset` and the CSRs; Priv.Trap the traps,
--     interrupts and returns; Priv.Access the accesses `va_if` to `va_amo`. The bus and the pc, which
--     the C++ object holds by reference, are arguments. Priv.Reachable has the operations as a step
--     relation, and what holds after any sequence of them.
--   Instr: the fields of `rv_instr`, and the immediates that difftest/src/rv_core.hpp makes of them.
--     Instr.Codes has the enums of opcodes and function codes, and Instr.Formats the words that a
--     format puts together.
--   Core: `rv_core` of difftest/src/rv_core.hpp. Core has the state, `set_GPR`, `mem_read` and
--     `mem_write`; Core.Control, Core.Compute, Core.Access and Core.System have the cases of the
--     `switch` on the opcode, Core.Rvc and its children Cases and Dispatch the compressed instructions,
--     and Core.Exec has `exec`. Core.Words says what an encoded word does, Core.Rvc.Expansion which word
--     a compressed instruction stands for. `Done` is the value of its local variables `ri` and
--     `new_pc` after an instruction.
--     Core.Typed says in `IsTyped` which values the C++ types of the state allow: words of 64 bits in
--     the registers, the pc and the CSRs, bytes in the memories.
--   Plic: difftest/src/rv_plic.hpp, its member functions under their names, at each number of sources
--     and contexts. An access behind the end of an array is `faults`. The simulator puts no PLIC on a
--     bus, and `Device` has none.
--   Sram: difftest/src/nscscc_sram.hpp, the pins. Sram.Slave is difftest/src/nscscc_sram_slave.hpp, with
--     the two virtual functions as the interface `Slave`; Sram.Xbar is
--     difftest/src/nscscc_sram_xbar.hpp, which implements them. Sram.Channel says in `IsMemory` what the
--     channels need of an implementation, and Sram.Memory that the simulator's crossbar has it.
--   Sim: difftest/src/sim_mycpu.cpp. Sim has the state of the loops, and Sim.Round a round, which
--     `riscv_test_run` and `make_cpu_trace` share; Sim.Options has the arguments, Sim.Setup what is
--     built before a loop, Sim.Loop the loops, and Sim.Main `main`. The processor, the class `Vtop` that
--     Verilator generates, is the parameter `Design`: its outputs, and its `eval`.
-- Children of a module hold its proofs, and `Examples` its runs and the theorems at concrete inputs.
--
-- Bounds and fuel. The loops over lists and bits run over a list or count down; the walk counts the
-- three levels of the tables. `strb_to_range` has 8 rounds, and Sram.Runs has that more change nothing.
-- The loops of the simulator may go on for ever; `loop` makes at most the number of rounds that it is
-- given, and has ended where its condition is false in the result.
-- Reads and writes past the end of a register or a memory of the bus are undefined in C++; they need
-- an address that wraps around 2 ^ 64, the model cuts them off, and the theorems exclude them.
-- Signed overflow is taken to wrap, as the compilers in use have it.
-- `hasCExt`, a constant of `exec`, is `has_c_ext`: false, so that `exec` takes a compressed instruction
-- as illegal, and the theorems about these speak of `rvc`, the branch behind it.
-- `run_riscv_test` and `only_modeM` are globals of the program, and parameters here.
--
-- Not modelled. `rv_clint::set_cmp`, which no caller can compile; printing and the queues that only
-- feed it; the signal that stops the simulator, and its waveform file. The processor in chisel/ and the
-- test programs are not part of the emulator.
pub mod Prelude
pub mod Word
pub mod Bytes
pub mod Mem
pub mod Clint
pub mod Device
pub mod Bus
pub mod Alu
pub mod Csr
pub mod Sv39
pub mod Priv
pub mod Instr
pub mod Core
pub mod Plic
pub mod Sram
pub mod Sim
