-- ===== src/Operands.antt =====
-- rvzr/tc_components/instruction.py and rvzr/instruction_spec.py: the operands of an instruction,
-- made from a specification, with their flags and their modified copies. `none` is an
-- AssertionError.
pub mod Flags
pub mod BaseRegister
use side_channel_fuzzer.Prelude.{
  ℕ, ◌+◌, Bool, true, false, ◌||◌, Option, none, some, List, [], ◌∷◌, map, ◌==◌, leb, length,
  if◌then◌else◌, ◌>>=◌, ◌>>◌, guard, any,
}
use side_channel_fuzzer.Prelude.Texts.{Text, codes, lower, is_one_of, text_eq}

-- OT
pub data OperandType : Type 0 where
  reg mem imm label agen flags cond : OperandType

-- the fields of OperandSpec that make an operand
pub record OperandSpec : Type 0 where
  pub values : List Text
  pub type_ : OperandType
  pub width : ℕ
  pub src : Bool
  pub dest : Bool

-- Operand, with a constructor for each class
pub data Operand : Type 0 where
  reg_op : (value : Text) (width : ℕ) (src dest : Bool) → Operand
  mem_op : (value : Text) (width : ℕ) (src dest : Bool) → Operand
  imm_op : (value : Text) (width : ℕ) → Operand
  label_op : (value : Text) → Operand
  agen_op : (value : Text) (width : ℕ) → Operand
  flags_op : (flag_values : List Text) → Operand
  cond_op : (value : Text) → Operand

-- Operand.value, .src and .dest
unfoldable pub op_value : Operand → Text
op_value (reg_op value width src dest) = value
op_value (mem_op value width src dest) = value
op_value (imm_op value width) = value
op_value (label_op value) = value
op_value (agen_op value width) = value
op_value (flags_op flag_values) = codes "flags"
op_value (cond_op value) = value

unfoldable pub op_src : Operand → Bool
op_src (reg_op value width src dest) = src
op_src (mem_op value width src dest) = src
op_src (flags_op flag_values) = false
op_src _ = true

unfoldable pub op_dest : Operand → Bool
op_dest (reg_op value width src dest) = dest
op_dest (mem_op value width src dest) = dest
op_dest _ = false

-- isinstance(o, C)
abbrev pub is_reg : Operand → Bool
is_reg (reg_op value width src dest) = true
is_reg _ = false

abbrev pub is_mem : Operand → Bool
is_mem (mem_op value width src dest) = true
is_mem _ = false

abbrev pub is_imm : Operand → Bool
is_imm (imm_op value width) = true
is_imm _ = false

abbrev pub is_label : Operand → Bool
is_label (label_op value) = true
is_label _ = false

abbrev pub is_agen : Operand → Bool
is_agen (agen_op value width) = true
is_agen _ = false

abbrev pub is_flags : Operand → Bool
is_flags (flags_op flag_values) = true
is_flags _ = false

abbrev pub is_cond : Operand → Bool
is_cond (cond_op value) = true
is_cond _ = false

-- RegSize
unfoldable pub is_reg_size : ℕ → Bool
is_reg_size width = any (λ n. n == width) (8 ∷ 16 ∷ 32 ∷ 64 ∷ 128 ∷ 256 ∷ [])

-- RegisterOp.__init__
unfoldable pub register_init : Text → ℕ → Bool → Bool → Option Operand
unfolding is_reg_size lower
register_init value width src dest = do
  guard (is_reg_size width)
  some (reg_op (lower value) width src dest)

-- FlagsOp._flag_names
abbrev pub flag_names : List Text
flag_names = map codes ("CF" ∷ "PF" ∷ "AF" ∷ "ZF" ∷ "SF" ∷ "TF" ∷ "IF" ∷ "DF" ∷ "OF" ∷ [])

-- FlagsOp.__init__
unfoldable pub flags_init : List Text → Option Operand
flags_init value = do guard (length value == length flag_names); some (flags_op value)

-- spec.values[0] if spec.values else ""
abbrev pub first_value : List Text → Text
first_value [] = []
first_value (v ∷ values) = v

-- Operand.from_fixed_spec
unfoldable pub from_fixed_spec : OperandSpec → Option Operand
unfolding register_init flags_init lower
from_fixed_spec spec = do
  guard (leb (length spec.values) 1 || elim spec.type_ [ OperandType.flags ↦ true | _ ↦ false ])
  let value = lower (first_value spec.values)
  elim spec.type_ [
    | OperandType.reg ↦ register_init (first_value spec.values) spec.width spec.src spec.dest
    | OperandType.mem ↦ some (mem_op value spec.width spec.src spec.dest)
    | OperandType.imm ↦ some (imm_op value spec.width)
    | OperandType.label ↦ some (label_op value)
    | OperandType.agen ↦ some (agen_op value spec.width)
    | OperandType.flags ↦ flags_init spec.values
    | OperandType.cond ↦ some (cond_op value)
  ]

-- FlagsOp._get_flag_list
unfoldable pub get_flag_list : List Text → List Text → List Text → List Text
unfolding is_one_of
get_flag_list types (name ∷ names) (type_ ∷ values) =
    let rest = get_flag_list types names values in
    if is_one_of type_ types then name ∷ rest else rest
get_flag_list types _ _ = []

-- the argument of FlagsOp.get_flags_by_type, and the types that it stands for
pub data FlagUse : Type 0 where
  read write overwrite undef : FlagUse

unfoldable pub flag_types : FlagUse → List Text
flag_types read = map codes ("r" ∷ "r/w" ∷ "r/cw" ∷ [])
flag_types write = map codes ("w" ∷ "r/w" ∷ "r/cw" ∷ [])
flag_types overwrite = map codes ("w" ∷ [])
flag_types undef = map codes ("undef" ∷ [])

-- FlagsOp.get_flags_by_type
unfoldable pub get_flags_by_type : FlagUse → List Text → List Text
unfolding flag_types get_flag_list
get_flags_by_type use_ flag_values = get_flag_list (flag_types use_) flag_names flag_values

-- copy_op_with_value_modification; it is not called on flags, where its assert_never raises
unfoldable pub copy_op_with_value_modification : Text → Operand → Option Operand
unfolding register_init lower
copy_op_with_value_modification v (reg_op value width src dest) = register_init v width src dest
copy_op_with_value_modification v (mem_op value width src dest) =
    some (mem_op (lower v) width src dest)
copy_op_with_value_modification v (imm_op value width) = some (imm_op (lower v) width)
copy_op_with_value_modification v (label_op value) = some (label_op (lower v))
copy_op_with_value_modification v (agen_op value width) = some (agen_op (lower v) width)
copy_op_with_value_modification v (cond_op value) = some (cond_op (lower v))
copy_op_with_value_modification v (flags_op flag_values) = none

-- `old if new is None else new`
abbrev pub given {ℓ} : {A : Type ℓ} → Option A → A → A
given none old = old
given (some new) old = new

-- copy_op_with_flow_modification
unfoldable pub copy_op_with_flow_modification : Option Bool → Option Bool → Operand → Option Operand
unfolding register_init lower
copy_op_with_flow_modification src' dest' (reg_op value width src dest) =
    register_init value width (given src' src) (given dest' dest)
copy_op_with_flow_modification src' dest' (mem_op value width src dest) =
    some (mem_op (lower value) width (given src' src) (given dest' dest))
copy_op_with_flow_modification src' dest' _ = none
