-- ===== src/Tests/FaultsAtWork.antt =====
-- The state machine of the model, and speculation on faults, at concrete values.
use side_channel_fuzzer.Prelude.{
  ℕ, ◌+◌, ◌-◌, ◌%◌, ◌/◌, ◌^◌, ◌≡◌, ◌≢◌, refl, true, false, not, ◌&&◌, ◌||◌, none, some, List, [],
  ◌∷◌, map, replicate, if◌then◌else◌, ◌==◌, arith,
}
use side_channel_fuzzer.Prelude.Texts.{has_part, starts_with, is_one_of, Text, codes, text_eq}
use side_channel_fuzzer.Operands.{reg_op, mem_op, flags_op}
use side_channel_fuzzer.Instruction.{Instruction, instruction_init}
use side_channel_fuzzer.TaintTracker.Labels.{text_key, is_in}
use side_channel_fuzzer.Speculator.{Services, Speculator, rollback}
use side_channel_fuzzer.Speculator.Bytes.{mem_read}
use side_channel_fuzzer.Speculator.Rollback.{Steps}
use side_channel_fuzzer.Model
use side_channel_fuzzer.Model.{TestCase, ModelState, run_state_machine, finished, out_of_fuel}
use side_channel_fuzzer.Model.Machine.{run_state_machine-quiet}
use side_channel_fuzzer.Model.Sequential.{run_state_machine_total}
use side_channel_fuzzer.Faults.{
  FaultSpeculator, NullSpeculator, fault_triggers_speculation, get_rollback_address, null_fault,
}
use side_channel_fuzzer.Faults.Injection.{null_fault-zeros}
use side_channel_fuzzer.Faults.Delayed.{follow, is_dependent, corner_cases}
use side_channel_fuzzer.Faults.Delayed
use side_channel_fuzzer.Faults.Dependents.{follow_lem, is_special}
use side_channel_fuzzer.Faults.Canonical.{
  CanonicalSpeculator, is_canonical, canonical_address, canonical_instruction, executed,
  low_address_truncated, canonical_instruction-restores,
}
use side_channel_fuzzer.Faults.Canonical

abbrev test_case : TestCase
test_case = record {
  code_start = 100;
  exit_addr = 140;
  fault_handler_addr = 130;
  handled_faults = 6 ∷ [];
  actor_is_main = λ pc. some true;
}

-- The state is the depth of speculation. The run from the start mispredicts once.
abbrev speculative : Model.Services ℕ
speculative = record {
  emu_start = λ pc s. if pc == 100 then (0, 1) else (0, s);
  patch_context = λ s. some s;
  observe_fault = λ e s. s;
  speculate_fault = λ e s. (0, s);
  rollback = λ s. if s == 0 then none else some (120, s - 1);
  in_speculation = λ s. not (s == 0);
}

abbrev at_start : ModelState ℕ
at_start = record {
  services = 0;
  pending_fault = 0;
  had_arch_fault = false;
  current_actor_is_main = true;
}

two_rounds : run_state_machine speculative test_case 2 at_start ≡ finished at_start
unfolding run_state_machine
two_rounds = refl

run_state_machine-quiet_example : speculative.in_speculation at_start.services ≡ false
run_state_machine-quiet_example =
    run_state_machine-quiet speculative test_case 2 at_start at_start two_rounds

-- Without speculation, a handled fault leads to the handler.
abbrev sequential : Model.Services ℕ
sequential = record {
  emu_start = λ pc s. if pc == 100 then (6, s + 1) else (0, s + 1);
  patch_context = λ s. some s;
  observe_fault = λ e s. s;
  speculate_fault = λ e s. (0, s);
  rollback = λ s. none;
  in_speculation = λ s. false;
}

handled_fault :
    run_state_machine sequential test_case 2 at_start
    ≡ finished (record at_start { services = 2; had_arch_fault = true })
unfolding run_state_machine
handled_fault = refl

run_state_machine_total_example : run_state_machine sequential test_case 2 at_start ≢ out_of_fuel
run_state_machine_total_example =
    run_state_machine_total sequential test_case (λ s. refl) (λ e s. refl) 0 at_start

-- A speculator whose only register is the flags.
abbrev services : Services ℕ ℕ
services = record {
  read_flags = λ r. r;
  write_flags = λ f r. f;
  taint_checkpoint = λ b t. t + 1;
  taint_rollback = λ t. t;
}

abbrev at_rest : Speculator ℕ ℕ
at_rest = record {
  memory = λ a. a % 256;
  registers = 2;
  stopped = false;
  taints = 0;
  checkpoints = [];
  store_logs = [];
  in_speculation = false;
  max_nesting = 1;
  speculation_window = 0;
  max_spec_window = 250;
}

abbrev faulty : FaultSpeculator ℕ ℕ
faulty = record {
  spec = at_rest;
  errno_that_trigger = 12 ∷ 13 ∷ [];
  curr_instruction_addr = 108;
  permissions = (false, false);
  page_permissions = some (false, false);
  fault_handler_addr = 130;
}

abbrev null_speculator : NullSpeculator ℕ ℕ
null_speculator = record {
  fault = faulty;
  rolls_to_instruction = false;
  curr_load = (64, 4);
  pending_re_execution = false;
  pending_restore_permissions = false;
}

null_fault-zeros_example :
    let n1 = (null_fault services 12 null_speculator).1 in
    ((null_fault services 12 null_speculator).0 ≡ 108)
    × (n1.fault.permissions ≡ (true, true))
    × (mem_read 64 4 n1.fault.spec.memory ≡ replicate 4 0)
    × ((s3 : Speculator ℕ ℕ) × (rollback services n1.fault.spec
          ≡ some (get_rollback_address null_speculator, s3))
        × (s3.memory ≡ at_rest.memory)
        × (s3.registers ≡ 2))
unfolding fault_triggers_speculation
null_fault-zeros_example =
    null_fault-zeros services 12 64 4 null_speculator
      (null_fault services 12 null_speculator).1.fault.spec (λ r. refl) refl refl refl (omega arith)
      refl (Steps.stay (null_fault services 12 null_speculator).1.fault.spec)

-- `add rbx, rax` after a fault on a load into rax
abbrev addition : Delayed.Registers
addition = record {
  srcs = codes "A" ∷ codes "B" ∷ [];
  dests = codes "B" ∷ codes "ZF" ∷ [];
  address = [];
}

abbrev load_and_add : Instruction
load_and_add = record (instruction_init (codes "add") (codes "BASE-BINARY") false false false) {
  operands = reg_op (codes "rax") 64 true true ∷ mem_op (codes "rbx") 64 true false ∷ [];
  implicit_operands =
      flags_op (map codes ("w" ∷ "w" ∷ "w" ∷ "w" ∷ "w" ∷ "" ∷ "" ∷ "" ∷ "w" ∷ [])) ∷ [];
}

is_plain_add : is_special (codes "add") ≡ false
unfolding has_part starts_with is_one_of text_eq
is_plain_add = refl

follow_lem_example :
    (d' : List Text) × (follow (corner_cases some load_and_add) addition false (codes "A" ∷ [])
      ≡ some (
        d',
        is_dependent addition.srcs (codes "A" ∷ [])
            && (not false || is_dependent addition.address (codes "A" ∷ [])),
      ))
    × (is_in (codes "B") d' ≡ (
        if is_dependent addition.srcs (codes "A" ∷ [])
        then is_in (codes "B") (codes "A" ∷ []) || is_in (codes "B") addition.dests
        else is_in (codes "B") (codes "A" ∷ []) && not (is_in (codes "B") addition.dests)))
follow_lem_example =
    follow_lem some load_and_add addition false (codes "A" ∷ []) (codes "B") is_plain_add

low_address_truncated_example :
    (canonical_address (2 ^ 60 + 2 ^ 44 + 8) ≡ (2 ^ 60 + 2 ^ 44 + 8) % 2 ^ 43)
    × (is_canonical (canonical_address (2 ^ 60 + 2 ^ 44 + 8)) ≡ true)
    × ((canonical_address (2 ^ 60 + 2 ^ 44 + 8) == (2 ^ 60 + 2 ^ 44 + 8) % 2 ^ 47)
        ≡ ((2 ^ 60 + 2 ^ 44 + 8) / 2 ^ 43 % 16 == 0))
low_address_truncated_example = low_address_truncated (2 ^ 60 + 2 ^ 44 + 8) refl

-- One register, which holds its value: a non-canonical address.
abbrev one_register : Canonical.Registers ℕ
one_register = record {
  reg_read = λ reg r. r;
  reg_write = λ reg n r. n;
  reg_str_to_constant = λ name. if text_eq name (codes "rbx") then some 37 else none;
}

abbrev at_load : CanonicalSpeculator ℕ ℕ
at_load = record {
  fault = record faulty {
    spec = record at_rest { registers = 2 ^ 60 + 8; in_speculation = true };
    errno_that_trigger = 6 ∷ 7 ∷ [];
  };
  faulty_instruction_addr = some 108;
  address_register = none;
  register_value = 0;
}

abbrev after_load : CanonicalSpeculator ℕ ℕ
after_load = record {
  fault = record faulty {
    spec = record at_rest { registers = 8; in_speculation = true };
    errno_that_trigger = 6 ∷ 7 ∷ [];
  };
  faulty_instruction_addr = some 108;
  address_register = some 37;
  register_value = 2 ^ 60 + 8;
}

is_fixed : canonical_instruction one_register load_and_add 108 at_load ≡ some after_load
unfolding canonical_instruction text_eq
is_fixed = refl

-- The fixed instruction leaves 77 in its register, and the hook behind it restores the address.
canonical_instruction-restores_example :
    (is_canonical (2 ^ 60 + 8) ≡ false)
    × (8 ≡ canonical_address (2 ^ 60 + 8))
    × (c2 : CanonicalSpeculator ℕ ℕ) × (canonical_instruction one_register load_and_add 112
          (executed one_register 77 after_load)
        ≡ some c2)
    × (c2.fault.spec.registers ≡ 2 ^ 60 + 8)
    × (c2.address_register ≡ none)
canonical_instruction-restores_example =
    canonical_instruction-restores one_register load_and_add load_and_add 108 112 37 at_load
      after_load 77 refl refl is_fixed refl
