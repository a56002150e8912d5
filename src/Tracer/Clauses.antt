-- ===== src/Tracer/Clauses.antt =====
-- The observation clauses: the subclasses of UnicornTracer. Each clause is the pair of its hooks.
use side_channel_fuzzer.Prelude.{
  ℕ, ◌+◌, ◌*◌, ◌/◌, ◌%◌, true, not, ◌||◌, List, [], ◌∷◌, ◌++◌, if◌then◌else◌, ◌==◌, map,
}
use side_channel_fuzzer.Traces.Contract.{CTraceEntryType}
use side_channel_fuzzer.Tracer.{
  TaintedValueType, TracerState, Event, accesses, executes, entry, add_mem_address_to_trace,
  add_pc_to_trace, add_value_to_trace,
}

-- (address >> 6) << 6
abbrev pub line : ℕ → ℕ
line address = address / 64 * 64

-- NoneTracer
unfoldable pub none_observe : Event → TracerState → TracerState
none_observe event s = s

-- PCTracer
unfoldable pub pc_observe : Event → TracerState → TracerState
unfolding add_pc_to_trace
pc_observe (accesses is_read in_speculation address size value) s = s
pc_observe (executes pc size registers) s = add_pc_to_trace pc s

-- MemoryTracer, and L1DTracer
unfoldable pub memory_observe : Event → TracerState → TracerState
unfolding add_mem_address_to_trace
memory_observe (accesses is_read in_speculation address size value) s =
    add_mem_address_to_trace address s
memory_observe (executes pc size registers) s = s

-- CTTracer
unfoldable pub ct_observe : Event → TracerState → TracerState
unfolding add_mem_address_to_trace add_pc_to_trace
ct_observe (accesses is_read in_speculation address size value) s =
    add_mem_address_to_trace address s
ct_observe (executes pc size registers) s = add_pc_to_trace pc s

-- TruncatedCTTracer
unfoldable pub truncated_ct_observe : Event → TracerState → TracerState
unfolding add_mem_address_to_trace add_pc_to_trace
truncated_ct_observe (accesses is_read in_speculation address size value) s =
    add_mem_address_to_trace (line address) s
truncated_ct_observe (executes pc size registers) s = add_pc_to_trace (line pc) s

-- TruncatedCTWithOverflowsTracer
unfoldable pub overflows_observe : Event → TracerState → TracerState
unfolding add_mem_address_to_trace add_pc_to_trace
overflows_observe (accesses is_read in_speculation address size value) s =
    let s1 = add_mem_address_to_trace (line address) s in
    if not ((address + size) % 64 == address % 64)
    then add_mem_address_to_trace (line (address + size)) s1
    else s1
overflows_observe (executes pc size registers) s =
    let s1 = add_pc_to_trace (line pc) s in
    if not ((pc + size) / 64 == pc / 64) then add_pc_to_trace (line (pc + size)) s1 else s1

-- CTNonSpecStoreTracer
unfoldable pub nonspec_store_observe : Event → TracerState → TracerState
unfolding add_mem_address_to_trace add_pc_to_trace
nonspec_store_observe (accesses is_read in_speculation address size value) s =
    if not in_speculation || is_read then add_mem_address_to_trace address s else s
nonspec_store_observe (executes pc size registers) s = add_pc_to_trace pc s

-- ArchTracer: the registers are recorded in front of the first instruction, whether or not the
-- tracing is enabled.
unfoldable pub arch_observe : Event → TracerState → TracerState
unfolding add_mem_address_to_trace add_pc_to_trace add_value_to_trace
arch_observe (accesses is_read in_speculation address size value) s =
    let s1 =
      if is_read
      then (let s2 = add_value_to_trace value s in
          record s2 { taint_calls = s2.taint_calls ++ TaintedValueType.ld_val ∷ [] })
      else s in
    add_mem_address_to_trace address s1
arch_observe (executes pc size registers) s =
    let s1 =
      if not s.started
      then record s { started = true; trace = s.trace ++ map (entry CTraceEntryType.val) registers }
      else s in
    add_pc_to_trace pc s1

-- a course of the emulation
unfoldable pub observe_all :
    (Event → TracerState → TracerState) → List Event → TracerState → TracerState
observe_all observe [] s = s
observe_all observe (e ∷ events) s = observe_all observe events (observe e s)
