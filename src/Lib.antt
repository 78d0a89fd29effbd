-- ===== src/Lib.antt =====
-- A model of the execution core of AUDESYS, an open PLC platform in Rust: the dynamically typed values
-- that programs compute with, and the virtual machine that runs the intermediate representation to
-- which the language front ends (IL, ST, LD, FBD, SFC) compile; the binary encoding of the values; the
-- compiler of Instruction List; the in-process middleware; and the supervision of the processes.
--
-- The parts:
-- - Base: what the other modules share. Tests on the native numbers, lists over them, the outcome of
--   code that may panic (Base/Panics), fixed-width integers with their bit patterns and bytes
--   (Base/Words, Base/Bits), maps with string keys (Base/Maps), and facts on slices (Base/Slices).
-- - Hal: crates/audesys-hal-core. `HalPinType` of types.rs (Hal/PinType); `HalValue` of value.rs
--   (Hal/Value) with its arithmetic, bitwise and unary operators (Hal/Value/Arith), its equality and
--   order (Hal/Value/Order) and its arrays, `to_bytes`, `from_bytes`, `index` and `set_index`
--   (Hal/Value/Elements); the encoding of values as bytes of encoding.rs (Hal/Encoding), with the error
--   type (Hal/Error) and the test for UTF-8 (Hal/Utf8); and the configuration of streams (Hal/Stream).
--   Hal/Platform is what the build and the processor decide.
-- - Ir: crates/audesys-hal-ir. Instructions (Ir/Instr and Ir/Build: instruction.rs and types.rs),
--   programs (Ir/Program: program.rs), the machine (Ir/Vm: vm.rs) with its timers, counters and latches,
--   the execution of one instruction (Ir/Exec: `execute_instruction` and the `exec_*` methods of
--   executor.rs), and the executor with stepping, breakpoints and trace (Ir/Machine: `Executor`), with the
--   states it reaches (Machine/Reach), the length of its runs (Machine/Halting), calls, breakpoints and
--   debugging sessions (Machine/Session).
-- - Il: crates/audesys-il-compiler. The lexer (Il/Lexer), the parser (Il/Parser), the code generation
--   with its registers, labels and back-patching (Il/Codegen) and `il_compile` (Il/Compile), which gives a
--   program of Ir. Il/Scan is what straight-line statements mean, and Il/Running relates it to a run of the
--   compiled program on the executor; Il/Compare is about the code of comparisons, Il/Limits about the
--   number of variables and the validity of the code, Il/Halting about the length of a run, and
--   Il/Source writes statements as a source.
-- - Amw: crates/audesys-amw-inproc, and the types of crates/audesys-hal-core that it uses. The lock level
--   that guards configuration changes, the queue of configuration commands, liveliness and security
--   domains (Amw/Qos: qos.rs), stream channels (Amw/Stream: stream.rs), signals, subscriptions and remote
--   calls (Amw/Transport: transport.rs), and the queries on the signals (Amw/Discovery: discovery.rs). It
--   carries the values of Hal and is independent of the machine.
-- - Runtime: crates/audesys-runtime, the supervision of child processes (Runtime/Lifecycle:
--   lifecycle.rs), with what `health_check` restarts (Lifecycle/Restarts) and how `shutdown_all` ends
--   (Lifecycle/Shutdown). What the operating system answers, and the clock, are arguments.
-- - Examples: the theorems at concrete programs, values and histories.
--
-- How the model corresponds to the code:
-- - A method on `&mut self` takes the state and returns the new one. Code that can panic (an assert,
--   an index out of range, a checked overflow, a division by zero) returns an `Outcome`; a panic ends
--   the program, so the state that it leaves is not modelled.
-- - Integers of w bits are natural numbers below 2 ^ w, or integers from -2 ^ (w - 1) to
--   2 ^ (w - 1) - 1; overflow panics or wraps, as the `overflow_checks` of the platform says. A float is
--   its IEEE 754 bit pattern: equality, order and negation of floats are defined on the pattern, and the
--   rounding operations are parameters of the platform. Positions in lists (the instruction pointer, lengths of
--   buffers) are natural numbers; where `index` and `set_index` compute byte offsets in `usize`, a `usize`
--   has 64 bits.
-- - A `String` is a list of numbers: its UTF-8 bytes, or, in the sources and names of Il, its code
--   points. Names are only compared. A `HashMap` is an association list, and the breakpoints, a
--   `HashSet`, are a list without repetition.
-- - A callback is a value of any type, and a method that calls it gives the list of its calls; whether a
--   handler on its own thread answers in time is an argument. A method that holds a lock runs without
--   interruption.
-- - The methods of the timers, counters and latches stand inside the `exec_*_run` methods of
--   executor.rs; here each is a function on its state record, which the instruction calls.
-- - `run_to_halt` runs on fuel, and its result says whether the fuel was used up. The loop of the source may
--   run for ever. The lexer, the parser and the code generator recur on their input.
--
-- Not modelled: serialisation by serde, the delegation and the audit log of the middleware, and the other
-- crates: the other compilers, the rest of the runtime, motion control, the fieldbus adapters and the user
-- interface.
pub mod Amw
pub mod Base
pub mod Examples
pub mod Hal
pub mod Il
pub mod Ir
pub mod Runtime
