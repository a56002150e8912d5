-- ===== src/Instruction.antt =====
-- rvzr/tc_components/instruction.py: instructions, their operands, and the properties that are
-- assigned once. `none` is an AssertionError; a property that is not assigned (-1 in the source) is
-- `none` in its field.
pub mod Accessors
pub mod Assigning
use side_channel_fuzzer.Prelude.{
  ℕ, Bool, true, false, ◌&&◌, ◌||◌, Option, none, some, List, [], ◌∷◌, ◌++◌, if◌then◌else◌, ◌>>=◌,
  ◌>>◌, guard, filter, any,
}
use side_channel_fuzzer.Prelude.Texts.{Text}
use side_channel_fuzzer.Operands.{
  Operand, op_src, op_dest, is_reg, is_mem, is_imm, is_label, is_agen, is_flags, is_cond, given,
}

-- Instruction
pub record Instruction : Type 0 where
  pub name : Text
  pub category : Text
  pub is_control_flow : Bool
  pub is_instrumentation : Bool
  pub is_noremove : Bool
  pub is_from_template : Bool
  pub is_macro_placeholder : Bool
  pub operands : List Operand
  pub implicit_operands : List Operand
  pub line_num : Option ℕ
  pub section_id : Option ℕ
  pub section_offset : Option ℕ
  pub size : Option ℕ

-- the fields of InstructionSpec that Instruction.from_spec reads
pub record InstructionSpec : Type 0 where
  pub name : Text
  pub category : Text
  pub is_control_flow : Bool

-- Instruction.__init__
abbrev pub instruction_init : Text → Text → Bool → Bool → Bool → Instruction
instruction_init name category is_control_flow is_instrumentation is_noremove = record {
  name = name;
  category = category;
  is_control_flow = is_control_flow;
  is_instrumentation = is_instrumentation;
  is_noremove = is_noremove;
  is_from_template = false;
  is_macro_placeholder = false;
  operands = [];
  implicit_operands = [];
  line_num = none;
  section_id = none;
  section_offset = none;
  size = none;
}

-- Instruction.from_spec
unfoldable pub from_spec : InstructionSpec → Bool → Bool → Instruction
from_spec sp is_instrumentation is_noremove =
    instruction_init sp.name sp.category sp.is_control_flow is_instrumentation is_noremove

-- Instruction.add_op
unfoldable pub add_op : Operand → Bool → Instruction → Instruction
add_op op implicit i =
    if implicit
    then record i { implicit_operands = i.implicit_operands ++ op ∷ [] }
    else record i { operands = i.operands ++ op ∷ [] }

-- the two loops of a search: over the explicit operands, then over the implicit ones if asked
abbrev pub found : (Operand → Bool) → Bool → Instruction → Bool
found p include_implicit i =
    if any p i.operands then true else if include_implicit then any p i.implicit_operands else false

-- Instruction.has_mem_operand
unfoldable pub has_mem_operand : Bool → Instruction → Bool
has_mem_operand = found is_mem

-- Instruction.has_write
unfoldable pub has_write : Bool → Instruction → Bool
unfolding op_dest
has_write = found (λ o. is_mem o && op_dest o)

-- Instruction.has_read
unfoldable pub has_read : Bool → Instruction → Bool
unfolding op_src
has_read = found (λ o. is_mem o && op_src o)

-- Instruction.get_all_operands
unfoldable pub get_all_operands : Instruction → List Operand
get_all_operands i = i.operands ++ i.implicit_operands

-- the two loops of a collection
abbrev pub collected : (Operand → Bool) → Bool → Instruction → List Operand
collected p include_implicit i =
    filter p i.operands ++ (if include_implicit then filter p i.implicit_operands else [])

-- Instruction.get_src_operands
unfoldable pub get_src_operands : Bool → Instruction → List Operand
unfolding op_src
get_src_operands = collected op_src

-- Instruction.get_dest_operands
unfoldable pub get_dest_operands : Bool → Instruction → List Operand
unfolding op_dest
get_dest_operands = collected op_dest

-- Instruction.get_mem_operands
unfoldable pub get_mem_operands : Bool → Bool → Instruction → Option (List Operand)
get_mem_operands include_explicit include_implicit i = do
  guard (include_explicit || include_implicit)
  let explicit = if include_explicit then filter is_mem i.operands else []
  some (explicit ++ (if include_implicit then filter is_mem i.implicit_operands else []))

-- the first operand that passes a test
unfoldable pub first : (Operand → Bool) → List Operand → Option Operand
first p [] = none
first p (o ∷ os) = let rest = first p os in if p o then some o else rest

-- Instruction.get_flags_operand: the implicit operands come first
unfoldable pub get_flags_operand : Instruction → Option Operand
unfolding first
get_flags_operand i = elim (first is_flags i.implicit_operands) [
  | some o ↦ some o
  | none ↦ first is_flags i.operands
]

-- Instruction.get_reg_operands
unfoldable pub get_reg_operands : Bool → Instruction → List Operand
get_reg_operands = collected is_reg

-- Instruction.get_cond_operand
unfoldable pub get_cond_operand : Instruction → Option Operand
unfolding first
get_cond_operand i = first is_cond i.operands

-- Instruction.get_label_operand
unfoldable pub get_label_operand : Instruction → Option Operand
unfolding first
get_label_operand i = first is_label i.operands

-- Instruction.get_imm_operands
unfoldable pub get_imm_operands : Bool → Instruction → List Operand
get_imm_operands = collected is_imm

-- Instruction.get_agen_operands
unfoldable pub get_agen_operands : Instruction → List Operand
get_agen_operands i = filter is_agen i.operands

abbrev pub is_none {ℓ} : {A : Type ℓ} → Option A → Bool
is_none none = true
is_none (some a) = false

-- Instruction.assign_line_num
unfoldable pub assign_line_num : ℕ → Instruction → Option Instruction
assign_line_num line_num i = do
  guard (is_none i.line_num)
  some (record i { line_num = some line_num })

-- Instruction.assign_binary_properties
unfoldable pub assign_binary_properties : ℕ → ℕ → ℕ → Instruction → Option Instruction
assign_binary_properties section_id offset size i = do
  guard (is_none i.section_id)
  some (record i { section_id = some section_id; section_offset = some offset; size = some size })

-- copy_inst_with_modification
unfoldable pub copy_inst_with_modification :
    Option Text → Option Text → Option Bool → Option Bool → Option Bool → Instruction → Instruction
copy_inst_with_modification name category is_control_flow is_instrumentation is_noremove i =
    let new_inst =
      instruction_init (given name i.name) (given category i.category)
        (given is_control_flow i.is_control_flow) (given is_instrumentation i.is_instrumentation)
        (given is_noremove i.is_noremove) in
    record new_inst {
      is_from_template = i.is_from_template;
      is_macro_placeholder = i.is_macro_placeholder;
      operands = i.operands;
      implicit_operands = i.implicit_operands;
      section_id = i.section_id;
      section_offset = i.section_offset;
      size = i.size;
      line_num = i.line_num;
    }
