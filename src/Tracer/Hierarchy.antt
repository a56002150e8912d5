-- ===== src/Tracer/Hierarchy.antt =====
-- The observation clauses against each other.
use side_channel_fuzzer.Prelude.{
  ℕ, ◌+◌, ◌%◌, ◌≤◌, ◌<◌, ◌≡◌, refl, ap, sym, ◌∙◌, Bool, true, false, List, [], ◌∷◌, ◌++◌, map,
  arith, if◌then◌else◌, ◌==◌, filter, filter-append, append-nil,
}
use mathlib.Core.List.{map-append}
use side_channel_fuzzer.Traces.Contract.{CTraceEntryType, CTraceEntry}
use side_channel_fuzzer.Tracer.{
  TracerState, Event, accesses, executes, entry, add_mem_address_to_trace, add_pc_to_trace,
}
use side_channel_fuzzer.Tracer.Clauses.{
  line, pc_observe, memory_observe, ct_observe, truncated_ct_observe, overflows_observe,
  observe_all,
}

abbrev pub truncate : CTraceEntry → CTraceEntry
truncate e = record e { value = line e.value }

abbrev pub is_mem : CTraceEntry → Bool
is_mem e = elim e.type_ [
  | CTraceEntryType.mem ↦ true
  | CTraceEntryType.pc ↦ false
  | CTraceEntryType.val ↦ false
  | CTraceEntryType.reg ↦ false
  | CTraceEntryType.ind ↦ false
]

abbrev pub is_pc : CTraceEntry → Bool
is_pc e = elim e.type_ [
  | CTraceEntryType.mem ↦ false
  | CTraceEntryType.pc ↦ true
  | CTraceEntryType.val ↦ false
  | CTraceEntryType.reg ↦ false
  | CTraceEntryType.ind ↦ false
]

-- The traces of two tracers are connected by `f`, and both are on or off.
record Linked (f : List CTraceEntry → List CTraceEntry) (s t : TracerState) : Type 0 where
  linked_trace : t.trace ≡ f s.trace
  linked_flag : t.enable_tracing ≡ s.enable_tracing

module _ (f : List CTraceEntry → List CTraceEntry) (a b : Event → TracerState → TracerState)
    (step : (e : Event) (s t : TracerState) → Linked f s t → Linked f (a e s) (b e t)) where
  observe_all-Linked :
      (events : List Event) (s t : TracerState)
      → Linked f s t
      → Linked f (observe_all a events s) (observe_all b events t)
  unfolding observe_all
  observe_all-Linked [] s t h = h
  observe_all-Linked (e ∷ events) s t h = observe_all-Linked events (a e s) (b e t) (step e s t h)

truncated-step :
    (e : Event) (s t : TracerState)
    → Linked (map truncate) s t
    → Linked (map truncate) (ct_observe e s) (truncated_ct_observe e t)
unfolding ct_observe truncated_ct_observe add_mem_address_to_trace add_pc_to_trace
truncated-step (accesses is_read in_speculation address size value) s t h = record {
  linked_trace = ground (
    arith,
    h.linked_trace,
    h.linked_flag,
    map-append truncate s.trace (entry CTraceEntryType.mem address ∷ []),
  );
  linked_flag = ground (arith, h.linked_flag);
}
truncated-step (executes pc size registers) s t h = record {
  linked_trace = ground (
    arith,
    h.linked_trace,
    h.linked_flag,
    map-append truncate s.trace (entry CTraceEntryType.pc pc ∷ []),
  );
  linked_flag = ground (arith, h.linked_flag);
}

memory-step :
    (e : Event) (s t : TracerState)
    → Linked (filter is_mem) s t
    → Linked (filter is_mem) (ct_observe e s) (memory_observe e t)
unfolding ct_observe memory_observe add_mem_address_to_trace add_pc_to_trace
memory-step (accesses is_read in_speculation address size value) s t h = record {
  linked_trace = ground (
    arith,
    h.linked_trace,
    h.linked_flag,
    filter-append is_mem s.trace (entry CTraceEntryType.mem address ∷ []),
  );
  linked_flag = ground (arith, h.linked_flag);
}
memory-step (executes pc size registers) s t h = record {
  linked_trace = ground (
    arith,
    h.linked_trace,
    h.linked_flag,
    filter-append is_mem s.trace (entry CTraceEntryType.pc pc ∷ []),
    append-nil (filter is_mem s.trace),
  );
  linked_flag = ground (arith, h.linked_flag);
}

pc-step :
    (e : Event) (s t : TracerState)
    → Linked (filter is_pc) s t
    → Linked (filter is_pc) (ct_observe e s) (pc_observe e t)
unfolding ct_observe pc_observe add_mem_address_to_trace add_pc_to_trace
pc-step (accesses is_read in_speculation address size value) s t h = record {
  linked_trace = ground (
    arith,
    h.linked_trace,
    h.linked_flag,
    filter-append is_pc s.trace (entry CTraceEntryType.mem address ∷ []),
    append-nil (filter is_pc s.trace),
  );
  linked_flag = ground (arith, h.linked_flag);
}
pc-step (executes pc size registers) s t h = record {
  linked_trace = ground (
    arith,
    h.linked_trace,
    h.linked_flag,
    filter-append is_pc s.trace (entry CTraceEntryType.pc pc ∷ []),
  );
  linked_flag = ground (arith, h.linked_flag);
}

-- From an empty trace, and over every course of the emulation, the trace of the clause `ct`
-- determines those of three others: the truncated one is its entries rounded down to cache lines,
-- the one of the memory clause its memory entries, and the one of the program counter the rest.
pub ct-determines :
    (events : List Event) (s : TracerState)
    → s.trace ≡ []
    → ((observe_all truncated_ct_observe events s).trace
        ≡ map truncate ((observe_all ct_observe events s).trace))
      × ((observe_all memory_observe events s).trace
          ≡ filter is_mem ((observe_all ct_observe events s).trace))
      × ((observe_all pc_observe events s).trace
          ≡ filter is_pc ((observe_all ct_observe events s).trace))
ct-determines events s empty =
    let start : (f : List CTraceEntry → List CTraceEntry) → f [] ≡ [] → Linked f s s =
      λ f h. record { linked_trace = empty ∙ sym h ∙ ap f (sym empty); linked_flag = refl } in
    (
      (observe_all-Linked (map truncate) ct_observe truncated_ct_observe truncated-step events s s
          (start (map truncate) refl)).linked_trace,
      (observe_all-Linked (filter is_mem) ct_observe memory_observe memory-step events s s
          (start (filter is_mem) refl)).linked_trace,
      (observe_all-Linked (filter is_pc) ct_observe pc_observe pc-step events s s
          (start (filter is_pc) refl)).linked_trace,
    )

-- With tracing on, the clause with overflows records two entries for every access of less than 64
-- bytes that stays in its line. The second one is the same line again or, if the access takes the
-- last byte of the line, the next line, which the access does not touch.
pub overflow_always_recorded :
    (s : TracerState) (is_read in_speculation : Bool) (address size value : ℕ)
    → s.enable_tracing ≡ true
    → 1 ≤ size
    → size < 64
    → address % 64 + size ≤ 64
    → (overflows_observe (accesses is_read in_speculation address size value) s).trace
      ≡ (s.trace ++ entry CTraceEntryType.mem (line address) ∷ [])
        ++ entry CTraceEntryType.mem (line address + (if address % 64 + size == 64 then 64 else 0))
          ∷ []
unfolding overflows_observe add_mem_address_to_trace
overflow_always_recorded s is_read in_speculation address size value on low high inside =
    let differs : ((address + size) % 64 == address % 64) ≡ false = ground arith in
    let e : line (address + size) ≡ line address + (if address % 64 + size == 64 then 64 else 0) =
      ground arith in
    ground (arith, differs, e)
