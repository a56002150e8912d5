-- ===== src/Tracer.antt =====
-- rvzr/model_unicorn/tracer.py: what each observation clause records on the contract trace, and the
-- taints that it asks for.
pub mod Clauses
pub mod Hierarchy
use side_channel_fuzzer.Prelude.{
  ℕ, ◌+◌, ◌*◌, ◌/◌, ◌%◌, ◌^◌, Bool, true, false, not, ◌||◌, List, [], ◌∷◌, ◌++◌, map, if◌then◌else◌,
  ◌==◌,
}
use side_channel_fuzzer.Traces.Contract.{
  CTraceEntryType, CTraceEntry, CTrace, ctrace_init, empty_ctrace, set_printed_as_l1d,
}
use side_channel_fuzzer.Sandbox.{SandboxLayout, code_addr_to_offset, data_addr_to_offset}

-- TAINTED_VALUE_TYPE of rvzr/model_unicorn/taint_tracker.py
pub data TaintedValueType : Type 0 where
  pc mem ld_val : TaintedValueType

-- The state of a tracer, with the calls of `taint` that it has made.
pub record TracerState : Type 0 where
  pub trace : List CTraceEntry
  pub enable_tracing : Bool
  pub started : Bool
  pub taint_calls : List TaintedValueType

-- A memory access with the bytes at its address, or an instruction with the registers in front of it
-- (without the stack pointer).
pub data Event : Type 0 where
  accesses : (is_read : Bool) (in_speculation : Bool) (address size memory_value : ℕ) → Event
  executes : (pc_value size : ℕ) (registers : List ℕ) → Event

abbrev pub entry : CTraceEntryType → ℕ → CTraceEntry
entry t v = record { type_ = t; value = v }

-- UnicornTracer.reset, and ArchTracer.reset
unfoldable pub tracer_reset : TracerState → TracerState
tracer_reset s = record s { trace = []; enable_tracing = false; started = false }

-- UnicornTracer._add_mem_address_to_trace
unfoldable pub add_mem_address_to_trace : ℕ → TracerState → TracerState
add_mem_address_to_trace address s =
    if s.enable_tracing
    then record s {
      trace = s.trace ++ entry CTraceEntryType.mem address ∷ [];
      taint_calls = s.taint_calls ++ mem ∷ [];
    }
    else s

-- UnicornTracer._add_pc_to_trace
unfoldable pub add_pc_to_trace : ℕ → TracerState → TracerState
add_pc_to_trace address s =
    if s.enable_tracing
    then record s {
      trace = s.trace ++ entry CTraceEntryType.pc address ∷ [];
      taint_calls = s.taint_calls ++ pc ∷ [];
    }
    else s

-- UnicornTracer._add_value_to_trace
unfoldable pub add_value_to_trace : ℕ → TracerState → TracerState
add_value_to_trace val s =
    if s.enable_tracing
    then record s { trace = s.trace ++ entry CTraceEntryType.val val ∷ [] }
    else s

-- the loop of UnicornTracer.get_trace
unfoldable pub normalize : SandboxLayout → List CTraceEntry → List CTraceEntry
unfolding code_addr_to_offset data_addr_to_offset
normalize layout [] = []
normalize layout (e ∷ entries) =
    (elim e.type_ [
      | CTraceEntryType.pc ↦ entry CTraceEntryType.pc (code_addr_to_offset layout e.value)
      | CTraceEntryType.mem ↦ entry CTraceEntryType.mem (data_addr_to_offset layout e.value)
      | CTraceEntryType.val ↦ e
      | CTraceEntryType.reg ↦ e
      | CTraceEntryType.ind ↦ e
    ])
    ∷ normalize layout entries

module _ (digest : List ℕ → ℕ) (layout : SandboxLayout) where
  -- UnicornTracer.get_trace
  unfoldable pub get_trace : TracerState → CTrace
  unfolding normalize ctrace_init
  get_trace s = ctrace_init digest (normalize layout s.trace)

  -- L1DTracer.get_trace
  unfoldable pub l1d_get_trace : TracerState → CTrace
  unfolding get_trace set_printed_as_l1d
  l1d_get_trace s = set_printed_as_l1d true (get_trace s)

  -- ActorNITracer.get_trace: `fragment_hash i` is the hash of the input of the actor `i`.
  unfoldable pub actor_ni_get_trace : (ℕ → ℕ) → List ℕ → TracerState → CTrace
  unfolding get_trace ctrace_init
  actor_ni_get_trace fragment_hash observers s =
      ctrace_init digest
        ((get_trace s).trace ++ map (λ i. entry CTraceEntryType.val (fragment_hash i)) observers)
