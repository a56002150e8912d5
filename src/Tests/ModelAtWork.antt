-- ===== src/Tests/ModelAtWork.antt =====
-- Speculation and observation at concrete values.
use side_channel_fuzzer.Prelude.{
  ℕ, ◌+◌, ◌-◌, ◌*◌, ◌%◌, ◌^◌, ◌≡◌, refl, true, false, not, none, some, List, [], ◌∷◌, ◌++◌, map,
  filter, arith, length, if◌then◌else◌, ◌==◌,
}
use side_channel_fuzzer.Traces.Contract.{CTraceEntryType}
use side_channel_fuzzer.Speculator.{Services, Speculator, checkpoint, rollback, max_nesting_reached}
use side_channel_fuzzer.Speculator.Bytes.{mem_write}
use side_channel_fuzzer.Speculator.Rollback.{Steps, store, rollback-restores}
use side_channel_fuzzer.Speculator.StoreBypass.{
  StoreBpas, bypass_store, bypass_instruction, bypass_rollback, store-bypassed,
}
use side_channel_fuzzer.Speculator.CondBranch.{decode}
use side_channel_fuzzer.Speculator.CondTargets.{decode-opposite, short_backward_lost}
use side_channel_fuzzer.Speculator.Arm64.{decode_arm64, decode_arm64-opposite}
use side_channel_fuzzer.Tracer.{TracerState, Event, accesses, executes, entry}
use side_channel_fuzzer.Tracer.Clauses.{
  line, pc_observe, memory_observe, ct_observe, truncated_ct_observe, overflows_observe,
  observe_all,
}
use side_channel_fuzzer.Tracer.Hierarchy.{
  truncate, is_mem, is_pc, ct-determines, overflow_always_recorded,
}

-- The only register is the flags, and the taint tracker counts its checkpoints.
abbrev services : Services ℕ ℕ
services = record {
  read_flags = λ r. r;
  write_flags = λ f r. f;
  taint_checkpoint = λ b t. t + 1;
  taint_rollback = λ t. t - 1;
}

abbrev at_rest : Speculator ℕ ℕ
at_rest = record {
  memory = λ a. a % 256;
  registers = 2;
  stopped = false;
  taints = 0;
  checkpoints = [];
  store_logs = [];
  in_speculation = false;
  max_nesting = 1;
  speculation_window = 0;
  max_spec_window = 250;
}

abbrev speculating : Speculator ℕ ℕ
speculating = store services 64 (1 ∷ 2 ∷ []) (checkpoint services 0x1000 true at_rest)

abbrev course : Steps services (checkpoint services 0x1000 true at_rest) speculating
course =
    Steps.stores (checkpoint services 0x1000 true at_rest) (checkpoint services 0x1000 true at_rest)
      64 (1 ∷ 2 ∷ []) (Steps.stay (checkpoint services 0x1000 true at_rest)) (omega arith)

rollback-restores_example :
    (s3 : Speculator ℕ ℕ) × (rollback services speculating ≡ some (0x1000, s3))
    × (s3.memory ≡ at_rest.memory)
    × (s3.registers ≡ at_rest.registers)
    × (s3.checkpoints ≡ at_rest.checkpoints)
    × (s3.store_logs ≡ at_rest.store_logs)
    × (s3.in_speculation ≡ at_rest.in_speculation)
    × (s3.speculation_window ≡ at_rest.speculation_window)
rollback-restores_example =
    rollback-restores services (λ r. refl) at_rest speculating 0x1000 true refl course

abbrev bypassing : StoreBpas ℕ ℕ
bypassing = record { base = at_rest; previous_store = none }

shallow : max_nesting_reached at_rest ≡ false
unfolding max_nesting_reached
shallow = refl

store-bypassed_example :
    (s1 : StoreBpas ℕ ℕ) × (s3 : StoreBpas ℕ ℕ) × (bypass_store 64 (1 ∷ 2 ∷ []) bypassing ≡ some s1)
    × ((bypass_instruction services 0x1004 s1).base.memory ≡ at_rest.memory)
    × (length ((bypass_instruction services 0x1004 s1).base.checkpoints)
        ≡ 1 + length (at_rest.checkpoints))
    × (bypass_rollback services (bypass_instruction services 0x1004 s1) ≡ some (0x1004, s3))
    × (s3.base.memory ≡ mem_write 64 (1 ∷ 2 ∷ []) at_rest.memory)
    × (s3.base.checkpoints ≡ at_rest.checkpoints)
store-bypassed_example = store-bypassed services bypassing 64 0x1004 (1 ∷ 2 ∷ []) refl shallow

-- JZ and JNZ, with the zero flag set
decode-opposite_example :
    ((decode ((0x70 + (2 * 2 + 1)) ∷ 8 ∷ []) 64 0).0 ≡ (decode ((0x70 + 2 * 2) ∷ 8 ∷ []) 64 0).0)
    × ((decode ((0x70 + (2 * 2 + 1)) ∷ 8 ∷ []) 64 0).1
        ≡ not (decode ((0x70 + 2 * 2) ∷ 8 ∷ []) 64 0).1)
    × ((decode (0x0F ∷ (0x80 + (2 * 2 + 1)) ∷ 8 ∷ []) 64 0).0
        ≡ (decode (0x0F ∷ (0x80 + 2 * 2) ∷ 8 ∷ []) 64 0).0)
    × ((decode (0x0F ∷ (0x80 + (2 * 2 + 1)) ∷ 8 ∷ []) 64 0).1
        ≡ not (decode (0x0F ∷ (0x80 + 2 * 2) ∷ 8 ∷ []) 64 0).1)
decode-opposite_example = decode-opposite 2 64 0 (8 ∷ []) (omega arith)

short_backward_lost_example :
    ((decode (0x0F ∷ (0x80 + 4) ∷ 0xFE ∷ 0xFF ∷ 0xFF ∷ 0xFF ∷ []) 64 0).0 ≡ 0xFE + (2 ^ 64 - 256))
    × ((decode ((0x70 + 4) ∷ 0xFE ∷ []) 64 0).0 ≡ 0xFE)
    × ((decode ((0x70 + 4) ∷ 0xFE ∷ []) 64 0).1
        ≡ (decode (0x0F ∷ (0x80 + 4) ∷ 0xFE ∷ 0xFF ∷ 0xFF ∷ 0xFF ∷ []) 64 0).1)
short_backward_lost_example =
    short_backward_lost 4 0xFE 64 0 (omega arith) (omega arith) (omega arith)

abbrev tracing : TracerState
tracing = record { trace = []; enable_tracing = true; started = false; taint_calls = [] }

abbrev events : List Event
events = executes 0x104 4 [] ∷ accesses true false 0x2048 8 7 ∷ []

ct-determines_example :
    ((observe_all truncated_ct_observe events tracing).trace
      ≡ map truncate ((observe_all ct_observe events tracing).trace))
    × ((observe_all memory_observe events tracing).trace
        ≡ filter is_mem ((observe_all ct_observe events tracing).trace))
    × ((observe_all pc_observe events tracing).trace
        ≡ filter is_pc ((observe_all ct_observe events tracing).trace))
ct-determines_example = ct-determines events tracing refl

overflow_always_recorded_example :
    (overflows_observe (accesses true false 0x2048 8 7) tracing).trace
    ≡ ([] ++ entry CTraceEntryType.mem (line 0x2048) ∷ [])
      ++ entry CTraceEntryType.mem (line 0x2048 + (if 0x2048 % 64 + 8 == 64 then 64 else 0)) ∷ []
overflow_always_recorded_example =
    overflow_always_recorded tracing true false 0x2048 8 7 refl (omega arith) (omega arith)
      (omega arith)

-- B.EQ and B.NE over 8 bytes, with the zero flag set
decode_arm64-opposite_example :
    ((decode_arm64 (λ i. 0) (2 * 0x2A000020 + 1) 0x40000000).0
      ≡ (decode_arm64 (λ i. 0) (2 * 0x2A000020) 0x40000000).0)
    × ((decode_arm64 (λ i. 0) (2 * 0x2A000020 + 1) 0x40000000).1
        ≡ not (decode_arm64 (λ i. 0) (2 * 0x2A000020) 0x40000000).1)
decode_arm64-opposite_example = decode_arm64-opposite (λ i. 0) 0x2A000020 0x40000000 refl refl
