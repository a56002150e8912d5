-- ===== src/Tests/InstructionAtWork.antt =====
-- The instruction `adc rax, [rbx]`, with its flags.
use side_channel_fuzzer.Prelude.{◌≡◌, refl, true, false, none, some, List, [], ◌∷◌, map, ◌>>=◌}
use side_channel_fuzzer.Prelude.Texts.{Text, codes}
use side_channel_fuzzer.Operands.{
  OperandType, reg_op, mem_op, flags_op, get_flags_by_type, read, overwrite, from_fixed_spec,
}
use side_channel_fuzzer.Operands.BaseRegister.{get_base_register}
use side_channel_fuzzer.Instruction.{
  Instruction, instruction_init, assign_line_num, assign_binary_properties,
  copy_inst_with_modification,
}
use side_channel_fuzzer.Instruction.Assigning.{assigned_once}

abbrev flag_values : List Text
flag_values = map codes ("r/w" ∷ "w" ∷ "undef" ∷ "w" ∷ "w" ∷ "" ∷ "" ∷ "r" ∷ "w" ∷ [])

abbrev add_with_carry : Instruction
add_with_carry = record (instruction_init (codes "adc") (codes "BASE-BINARY") false false false) {
  operands = reg_op (codes "rax") 64 true true ∷ mem_op (codes "rbx + 8") 64 true false ∷ [];
  implicit_operands = flags_op flag_values ∷ [];
}

overwritten_flags :
    get_flags_by_type overwrite flag_values ≡ map codes ("PF" ∷ "ZF" ∷ "SF" ∷ "OF" ∷ [])
unfolding get_flags_by_type
overwritten_flags = refl

read_flags : get_flags_by_type read flag_values ≡ map codes ("CF" ∷ "DF" ∷ [])
unfolding get_flags_by_type
read_flags = refl

base_register :
    get_base_register (codes " 0x40 + rbx - 8") 64
    ≡ some (some (reg_op (codes "rbx") 64 true false))
unfolding get_base_register
base_register = refl

-- A number with a letter among its hexadecimal digits is taken for a register.
hexadecimal_register :
    get_base_register (codes "0xff + rbx") 64 ≡ some (some (reg_op (codes "0xff") 64 true false))
unfolding get_base_register
hexadecimal_register = refl

-- a width that no register has is an AssertionError
odd_register :
    from_fixed_spec record {
      values = codes "RAX" ∷ [];
      type_ = OperandType.reg;
      width = 48;
      src = true;
      dest = false;
    }
    ≡ none
unfolding from_fixed_spec
odd_register = refl

abbrev assembled : Instruction
assembled = record add_with_carry { section_id = some 0; section_offset = some 64; size = some 4 }

is_assembled : assign_binary_properties 0 64 4 add_with_carry ≡ some assembled
unfolding assign_binary_properties
is_assembled = refl

assigned_once_example :
    let k =
      copy_inst_with_modification
        (some (codes ".byte 0x48"))
        none
        none
        (some true)
        none
        assembled in
    (k.section_id ≡ some 0)
    × (k.section_offset ≡ some 64)
    × (k.size ≡ some 4)
    × (assign_binary_properties 1 0 2 k ≡ none)
    × ((assign_line_num 7 k >>= assign_line_num 8) ≡ none)
assigned_once_example =
    assigned_once add_with_carry assembled 0 64 4 1 0 2 7 8 (some (codes ".byte 0x48")) none none
      (some true) none is_assembled
