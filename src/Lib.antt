-- ===== src/Lib.antt =====
-- Verification of revizor (rvzr), a fuzzer that looks for microarchitectural leaks: it runs random
-- programs on a model with a leakage contract and on the CPU, and reports inputs with one contract
-- trace and different hardware traces.
--
-- The parts, in the order of the pipeline. Definitions keep the names of the code, without the
-- leading underscore.
--
-- - Sandbox: the memory layout of rvzr/sandbox.py (SandboxLayout): areas, addresses, actors. `none`
--   is an assertion or a ValueError. Sandbox/Areas has its theorems.
-- - InputData: rvzr/tc_components/test_case_data.py: the entries of an input and of a taint, and the
--   entry of a sandbox address. Numbers are words of 64 bits. InputData/Offsets has the theorems.
-- - DataGenerator: rvzr/data_generator.py (DataGenerator): random inputs (Words) and boosted inputs
--   (Boosting), and inputs from files (Loading). What NumPy draws, and the memory that it allocates,
--   is the parameter `Source`.
-- - Speculator: rvzr/model_unicorn/speculator_abc.py (UnicornSpeculator) with the memory of the
--   emulator (Bytes) and the rollback (Rollback), and of rvzr/model_unicorn/speculators_basic.py the
--   conditional branches of x86 (CondBranch, CondTargets) and their decoder for ARM64 (Arm64), and
--   the store bypass (StoreBypass). The registers of the emulator and the taint tracker are the
--   parameter `Services`. Addresses of jumps are 64-bit, with a negative displacement as its two's
--   complement.
-- - Tracer: rvzr/model_unicorn/tracer.py: the trace of a course of events, for each observation
--   clause (Clauses), and the clauses against each other (Hierarchy).
-- - Operands and Instruction: rvzr/tc_components/instruction.py: operands with their flags (Flags) and
--   the base register of an address (BaseRegister); instructions with their accessors (Accessors) and
--   the properties that are assigned once (Assigning). A text is a list of code points
--   (Prelude/Texts).
-- - TaintTracker: rvzr/model_unicorn/taint_tracker.py: sets and labels (Labels), the tracked
--   instruction and the dependencies (Propagation), get_taint (Output). Flow, Finalizing, Tracking and
--   Pending follow the bookkeeping of one instruction; Machine has the emulator as a parameter, with
--   the laws that relate it to the operands of an instruction; Soundness and Runs compare two runs,
--   Marking and Entries lead to the entries of the input, Loading is `_load_input` of
--   X86UnicornModel (rvzr/model_unicorn/model.py) and Loading/Agreement compares two inputs, Inputs
--   joins them, and Speculation is about checkpoints.
-- - Model: rvzr/model_unicorn/model.py (UnicornModel): the state machine that runs a test case and
--   handles faults, on fuel: each round of its loop takes one. Without speculation two rounds are
--   enough (Sequential); with speculation the number of rounds depends on the program, and the fuel
--   may run out. The emulator and the service objects are the record `Model.Services`.
-- - Faults: rvzr/model_unicorn/speculators_fault.py: zero injection, assists and Meltdown (Injection),
--   delayed exceptions (Delayed, Dependents), non-canonical addresses (Canonical).
-- - Executor: rvzr/executor.py: `_read_trace` over batches of parsed lines, with the ends that it can
--   have (Reading, Runs), and the traces that `trace_test_case` makes of it (Storing,
--   Ignoring). The output of the kernel module is the list of the batches that reads deliver; a
--   reading that wants more than there is ends as `starved`, so no fuel is needed: the recursion is
--   on the batches.
-- - Traces: rvzr/traces.py: contract traces (Contract), hardware traces (Hardware), equivalence
--   classes and violations (Classes), whose two grouping loops keep dictionaries by hash(). HwSplit
--   and CtSplit compare the loops with Grouping, the grouping of a sequence by a representative;
--   Collision has what happens when two digests share a key. The digest xxhash.xxh64 is a parameter,
--   a function from lists of numbers.
-- - Analyser: rvzr/analyser.py: `filter_violations` over any comparison of hardware traces, with its
--   refinement (Refinement), what it reports (Detection, Pairs), what it packages (Packaging) and what
--   it counts (Counting); MergedBitmapAnalyser with its cache (Bitmap), SetAnalyser (Sets). The
--   float threshold is a fraction of two numbers.
-- - Fuzzer: rvzr/fuzzer.py: the state of `_RoundManager`, its stages (Stages, Priming, Mismatch), and
--   `execute_stage` and `fuzzing_round` (Round), with the ends of a round (Round/Ending) and its
--   counters (Round/Tally). The model, the executor, the data generator and the analyser are the
--   record `Modules` over a world `W`; what a round relies on in the analyser is the record `CountsOnce`
--   (Round/Tally), which Analyser/Counting is about. `none` is an exception that leaves the round.
--   Campaign is the loop of `Fuzzer.start`, with what it counts (Campaign/Accounts) and its timeout
--   (Campaign/Overtime); the methods that subclasses override are the record `Hooks`. Variants has the
--   hooks of the classes of fuzzers, and Variants/Laws what the loop relies on. Filtering is `_filter`
--   of rvzr/arch/x86/fuzzer.py and rvzr/arch/arm64/fuzzer.py; Fencing is the fencing of a program
--   there, over its lines.
-- - Stats: the counters of rvzr/stats.py. Prelude: numbers, lists, dictionaries and bits. Tests: the
--   theorems at concrete inputs.
--
-- The keys of the dictionaries are what Python's hash() makes of a digest (`hash_key` of
-- Prelude/Dict): a digest that does not fit in 63 bits is reduced modulo 2^61 - 1. Where a theorem needs
-- that no two traces at hand share a key and differ, this is a hypothesis on these traces, not on the
-- digest. A comparison of hardware traces may raise; `IsEquivalence` collects what the analyser needs of
-- the relation that it decides, on the traces that are `Valid`.
--
-- Not modelled: printing, logs and files; the parsers of assembly, ELF files and instruction sets;
-- the generation of programs; the Unicorn model's loading of inputs on ARM64, its loop over inputs and
-- its extra interpreter, and the speculators for values; the C++ and C parts; the statistical analysers, which call SciPy.
pub mod Prelude
pub mod Grouping
pub mod Traces
pub mod Stats
pub mod Analyser
pub mod Fuzzer
pub mod Sandbox
pub mod InputData
pub mod DataGenerator
pub mod Executor
pub mod Speculator
pub mod Tracer
pub mod Operands
pub mod Instruction
pub mod TaintTracker
pub mod Model
pub mod Faults
mod Tests
