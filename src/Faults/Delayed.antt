-- ===== src/Faults/Delayed.antt =====
-- rvzr/model_unicorn/speculators_fault.py, UnicornDEH and X86UnicornDEH: after a fault, the instructions that depend on the faulting one are
-- skipped. A set of register and flag names is a list without repetition.
use side_channel_fuzzer.Prelude.{
  ℕ, ◌+◌, Bool, true, false, not, ◌&&◌, ◌||◌, Option, none, some, List, [], ◌∷◌, ◌++◌, map, ◌==◌,
  if◌then◌else◌, ◌>>=◌, ◌>>◌, guard, any, filter, length,
}
use side_channel_fuzzer.Prelude.Texts.{Text, codes, has_part, text_eq, is_one_of}
use side_channel_fuzzer.Operands.{
  Operand, reg_op, mem_op, flags_op, op_value, is_mem, get_flags_by_type, read, write,
}
use side_channel_fuzzer.Instruction.{
  Instruction, get_all_operands, get_dest_operands, get_flags_operand, has_mem_operand,
}
use side_channel_fuzzer.TaintTracker.Labels.{text_key, is_in, add, update}
use side_channel_fuzzer.TaintTracker.Propagation.{split_address}
use side_channel_fuzzer.Speculator.{Services, rollback, uncons}
use side_channel_fuzzer.Faults.{
  FaultSpeculator, fault_triggers_speculation, fault_checkpoint, note_instruction,
}

-- UnicornDEH
pub record DehSpeculator (R T : Type 0) : Type 0 where
  pub fault : FaultSpeculator R T
  pub dependencies : List Text
  pub dependency_checkpoints : List (List Text)
  pub next_instruction_addr : ℕ

-- The operands of an instruction, as _speculate_instruction collects them.
pub record Registers : Type 0 where
  pub srcs : List Text
  pub dests : List Text
  pub address : List Text

-- s.remove(x) on a set; a missing element is a KeyError
unfoldable pub remove : Text → List Text → Option (List Text)
unfolding is_in
remove x s = do guard (is_in x s); some (filter (λ y. not (text_eq y x)) s)

-- one of the registers is dependent
unfoldable pub is_dependent : List Text → List Text → Bool
unfolding is_in
is_dependent regs dependencies = any (λ r. is_in r dependencies) regs

-- the loop that removes overwritten values
unfoldable pub remove_overwritten : List Text → List Text → List Text → List Text
unfolding is_in
remove_overwritten srcs [] dependencies = dependencies
remove_overwritten srcs (r ∷ dests) dependencies = remove_overwritten srcs dests (
    if not (is_in r srcs) && is_in r dependencies
    then filter (λ y. not (text_eq y r)) dependencies
    else dependencies)

-- l.remove for each element of a list
unfoldable pub remove_all : List Text → List Text → Option (List Text)
unfolding remove
remove_all [] s = some s
remove_all (x ∷ xs) s = remove x s >>= remove_all xs

-- the instructions of which two equal operands give zero
abbrev pub reset_names : List Text
reset_names = map codes ("sub" ∷ "lock sub" ∷ "sbb" ∷ "lock sbb" ∷ "xor" ∷ "lock xor" ∷ "cmp" ∷ [])

-- The dependencies after an instruction, and if the end of the handler, which writes the program
-- counter, is reached. `corner` are the corner cases of the architecture.
unfoldable pub follow :
    (List Text → List Text → List Text → Option (List Text))
    → Registers
    → Bool
    → List Text
    → Option (List Text × Bool)
unfolding is_dependent remove_overwritten update
follow corner r has_memory dependencies =
    let kept = remove_overwritten r.srcs r.dests dependencies in
    if is_dependent r.srcs dependencies
    then (do
      d ← corner dependencies r.dests (update kept r.dests)
      some (d, not (has_memory && not (is_dependent r.address dependencies))))
    else some (kept, false)

module _ (reg_normalized : Text → Option Text) where
  -- the registers of an address, normalised
  unfoldable pub address_registers : List Text → List Text
  address_registers [] = []
  address_registers ([] ∷ tokens) = address_registers tokens
  address_registers ((c ∷ t) ∷ tokens) =
      let rest = address_registers tokens in
      elim (reg_normalized (c ∷ t)) [ none ↦ rest | some r ↦ r ∷ rest ]

  -- the loop over the operands
  unfoldable pub collect_registers : List Operand → Registers → Option Registers
  unfolding address_registers split_address get_flags_by_type
  collect_registers [] r = some r
  collect_registers (reg_op value width src dest ∷ ops) r = reg_normalized value >>= λ n.
      collect_registers ops (record r {
        srcs = if src then r.srcs ++ n ∷ [] else r.srcs;
        dests = if dest then r.dests ++ n ∷ [] else r.dests;
      })
  collect_registers (mem_op value width src dest ∷ ops) r =
      let regs = address_registers (split_address [] value) in
      collect_registers ops (record r { srcs = r.srcs ++ regs; address = r.address ++ regs })
  collect_registers (flags_op flag_values ∷ ops) r = collect_registers ops (record r {
    srcs = r.srcs ++ get_flags_by_type read flag_values;
    dests = r.dests ++ get_flags_by_type write flag_values;
  })
  collect_registers (_ ∷ ops) r = collect_registers ops r

  -- the case of cmpxchg
  unfoldable pub cmpxchg_case : Operand → List Text → List Text → Instruction → Option (List Text)
  unfolding is_in remove remove_all get_flags_operand get_flags_by_type op_value
  cmpxchg_case dest old dependencies instruction = do
    n ← (if is_mem dest then some (codes "") else reg_normalized (op_value dest))
    if is_mem dest || not (is_in n old)
        then (do
          rax ← reg_normalized (codes "rax")
          d ← remove rax dependencies
          elim (get_flags_operand instruction) [
            | some (flags_op flag_values) ↦ remove_all (get_flags_by_type write flag_values) d
            | _ ↦ none
          ])
        else some dependencies

  -- the case of xchg
  unfoldable pub xchg_case : Operand → Operand → List Text → List Text → Option (List Text)
  unfolding is_in remove op_value
  xchg_case op1 op2 old dependencies = do
    op2_val ← reg_normalized (op_value op2)
    elim op1 [
      | reg_op value width src dest ↦ reg_normalized value >>= λ op1_val.
          if is_in op1_val old && not (is_in op2_val old)
          then remove op1_val dependencies
          else if not (is_in op1_val old) && is_in op2_val old
          then remove op2_val dependencies
          else some dependencies
      | _ ↦ if is_in op2_val old then remove op2_val dependencies else some dependencies
    ]

  -- the case of xadd
  unfoldable pub xadd_case : Operand → Operand → List Text → List Text → Option (List Text)
  unfolding is_in remove op_value
  xadd_case op1 op2 old dependencies = do
    n ← (if is_mem op1 then some (codes "") else reg_normalized (op_value op1))
    if is_mem op1 || not (is_in n old)
        then (reg_normalized (op_value op2) >>= λ op2_val. remove op2_val dependencies)
        else some dependencies

  -- X86UnicornDEH._handle_isa_specific_corner_cases; `none` is a KeyError or an AssertionError
  unfoldable pub corner_cases : Instruction → List Text → List Text → List Text → Option (List Text)
  unfolding has_part text_eq is_one_of cmpxchg_case xchg_case xadd_case remove_all op_value
  corner_cases instruction old dests dependencies =
      if has_part (codes "cmpxchg") instruction.name
      then (elim instruction.operands [
        | dest ∷ _ ↦ cmpxchg_case dest old dependencies instruction
        | [] ↦ none
      ])
      else if has_part (codes "xchg") instruction.name
      then (elim instruction.operands [
        | op1 ∷ op2 ∷ [] ↦ xchg_case op1 op2 old dependencies
        | _ ↦ none
      ])
      else if has_part (codes "xadd") instruction.name
      then (elim instruction.operands [
        | op1 ∷ op2 ∷ [] ↦ xadd_case op1 op2 old dependencies
        | _ ↦ none
      ])
      else if is_one_of instruction.name reset_names
      then (elim instruction.operands [
        | op1 ∷ op2 ∷ [] ↦
            if text_eq (op_value op1) (op_value op2)
            then remove_all dests dependencies
            else some dependencies
        | _ ↦ none
      ])
      else some dependencies

module _ {R T : Type 0} (reg_normalized : Text → Option Text) where
  module _ (v : Services R T) where
    -- UnicornDEH._checkpoint
    unfoldable pub deh_checkpoint : ℕ → DehSpeculator R T → DehSpeculator R T
    unfolding fault_checkpoint
    deh_checkpoint address d = record d {
      dependency_checkpoints = d.dependencies ∷ d.dependency_checkpoints;
      fault = fault_checkpoint v address d.fault;
    }

    -- UnicornDEH.rollback
    unfoldable pub deh_rollback : DehSpeculator R T → Option (ℕ × DehSpeculator R T)
    unfolding rollback
    deh_rollback d = do
      (dependencies, checkpoints) ← uncons d.dependency_checkpoints
      (next, s) ← rollback v d.fault.spec
      let f = d.fault
      some (
        next,
        record d {
          dependencies = dependencies;
          dependency_checkpoints = checkpoints;
          fault = record f { spec = s };
        },
      )

    -- the loop over the destinations of the faulting instruction
    unfoldable pub add_dests : List Operand → List Text → Option (List Text)
    unfolding add update get_flags_by_type
    add_dests [] s = some s
    add_dests (reg_op value width src dest ∷ ops) s =
        reg_normalized value >>= λ r. add_dests ops (add r s)
    add_dests (flags_op flag_values ∷ ops) s =
        add_dests ops (update s (get_flags_by_type write flag_values))
    add_dests (_ ∷ ops) s = add_dests ops s

    -- UnicornDEH._speculate_fault on x86; `is_exit` is ModelExecutionState.is_exit_addr
    unfoldable pub deh_fault :
        (ℕ → Bool) → Instruction → ℕ → DehSpeculator R T → Option (ℕ × DehSpeculator R T)
    unfolding fault_triggers_speculation deh_checkpoint add_dests get_dest_operands
    deh_fault is_exit instruction errno d =
        if fault_triggers_speculation errno d.fault
        then (do
          let d1 = deh_checkpoint d.fault.fault_handler_addr d
          dependencies ← add_dests (get_dest_operands true instruction) d1.dependencies
          some (
            if is_exit d1.next_instruction_addr then 0 else d1.next_instruction_addr,
            record d1 { dependencies = dependencies },
          ))
        else some (0, d)

  -- UnicornDEH._speculate_instruction: `inst_size` is the size of the instruction in the binary. The
  -- second result is the value that is written to UC_X86_REG_RIP, if there is a write; this is the
  -- program counter on x86 only.
  unfoldable pub deh_instruction :
      (List Text → List Text → List Text → Option (List Text))
      → Instruction
      → ℕ
      → ℕ
      → ℕ
      → DehSpeculator R T
      → Option (DehSpeculator R T × Option ℕ)
  unfolding note_instruction collect_registers get_all_operands has_mem_operand follow
  deh_instruction corner instruction inst_size address size d =
      let size' = if inst_size == 0 || inst_size == size then size else inst_size in
      let d1 = record d {
        fault = note_instruction address d.fault;
        next_instruction_addr = address + size';
      } in
      if not d.fault.spec.in_speculation || length d.dependencies == 0 then some (d1, none) else (do
        r ←
            collect_registers reg_normalized (get_all_operands instruction)
              record { srcs = []; dests = []; address = [] }
        (dependencies, skipped) ← follow corner r (has_mem_operand true instruction) d.dependencies
        some (
          record d1 { dependencies = dependencies },
          if skipped then some (address + size') else none,
        ))
