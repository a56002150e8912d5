-- ===== src/TaintTracker/Propagation.antt =====
-- _TrackedInstruction and _Dependencies of rvzr/model_unicorn/taint_tracker.py: the operands of the
-- instruction that is tracked, and what every register, flag and memory word depends on.
use side_channel_fuzzer.Prelude.{
  ℕ, Bool, true, false, ◌&&◌, ◌||◌, Option, none, some, List, [], ◌∷◌, ◌++◌, ◌==◌, if◌then◌else◌,
  ◌>>=◌, filter, length,
}
use side_channel_fuzzer.Prelude.Texts.{Text, codes, starts_with, text_eq, lower}
use side_channel_fuzzer.Operands.{
  Operand, reg_op, mem_op, agen_op, flags_op, op_value, get_flags_by_type, read, write, undef,
}
use side_channel_fuzzer.Instruction.{Instruction, get_all_operands, get_reg_operands}
use side_channel_fuzzer.TaintTracker.Labels.{
  Label, mem, name, Key, text_key, number_key, label_key, is_in, add, update, find, put,
}

-- The registers of a target: the normalised name of each name (a missing one is a KeyError), and
-- register_sizes.get(reg, 0).
pub record TargetDesc : Type 0 where
  pub reg_normalized : Text → Option Text
  pub register_sizes : Text → ℕ

-- _TrackedInstruction
pub record TrackedInstruction : Type 0 where
  pub inst : Instruction
  pub src_regs : List Text
  pub dest_regs : List Text
  pub src_flags : List Text
  pub dest_flags : List Text
  pub src_mems : List ℕ
  pub dest_mems : List ℕ
  pub mem_address_regs : List Text

-- _TrackedInstruction.__init__
abbrev pub tracked_init : Instruction → TrackedInstruction
tracked_init instruction = record {
  inst = instruction;
  src_regs = [];
  dest_regs = [];
  src_flags = [];
  dest_flags = [];
  src_mems = [];
  dest_mems = [];
  mem_address_regs = [];
}

-- re.split(r'\+|-|\*| ', value): `token` is what was read of the current token
unfoldable pub split_address : Text → Text → List Text
split_address token [] = token ∷ []
split_address token (c ∷ s) =
    let next = token ∷ split_address [] s in
    let same = split_address (token ++ c ∷ []) s in
    if c == b'+' || c == b'-' || c == b'*' || c == b' ' then next else same

-- the registers among the tokens of an address, normalised
unfoldable pub add_address_regs : (Text → Option Text) → List Text → List Text → List Text
unfolding add
add_address_regs normalized [] regs = regs
add_address_regs normalized ([] ∷ tokens) regs = add_address_regs normalized tokens regs
add_address_regs normalized ((c ∷ t) ∷ tokens) regs =
    add_address_regs normalized tokens
      (elim (normalized (c ∷ t)) [ none ↦ regs | some r ↦ add r regs ])

-- the body of the loop of _TrackedInstruction.parse_static_operands
unfoldable pub parse_operand :
    (Text → Option Text) → Operand → TrackedInstruction → Option TrackedInstruction
unfolding add update split_address add_address_regs get_flags_by_type
parse_operand normalized (reg_op value width src dest) t = do
  v ← normalized value
  some (record t {
    src_regs = if src then add v t.src_regs else t.src_regs;
    dest_regs = if dest then add v t.dest_regs else t.dest_regs;
  })
parse_operand normalized (flags_op flag_values) t = some (record t {
  src_flags =
      update (update [] (get_flags_by_type read flag_values)) (get_flags_by_type undef flag_values);
  dest_flags = update [] (get_flags_by_type write flag_values);
})
parse_operand normalized (mem_op value width src dest) t = some (record t {
  mem_address_regs = add_address_regs normalized (split_address [] value) t.mem_address_regs;
})
parse_operand normalized (agen_op value width) t =
    some (record t { src_regs = add_address_regs normalized (split_address [] value) t.src_regs })
parse_operand normalized _ t = some t

-- the loop of _TrackedInstruction.parse_static_operands
unfoldable pub parse_operands :
    (Text → Option Text) → List Operand → TrackedInstruction → Option TrackedInstruction
unfolding parse_operand
parse_operands normalized [] t = some t
parse_operands normalized (op ∷ ops) t = do
  t' ← parse_operand normalized op t
  parse_operands normalized ops t'

-- _TrackedInstruction.parse_static_operands
unfoldable pub parse_static_operands :
    (Text → Option Text) → TrackedInstruction → Option TrackedInstruction
unfolding parse_operands get_all_operands
parse_static_operands normalized t = parse_operands normalized (get_all_operands t.inst) t

-- _Dependencies
pub record Dependencies : Type 0 where
  pub reg : List (Text × List Label)
  pub flag : List (Text × List Label)
  pub memory : List (ℕ × List Label)

abbrev pub no_dependencies : Dependencies
no_dependencies = record { reg = []; flag = []; memory = [] }

-- d.get(key, {label})
abbrev pub get_or_self : Label → Option (List Label) → List Label
get_or_self label none = label ∷ []
get_or_self label (some deps) = deps

-- Dependencies of one register, flag or word.
unfoldable pub reg_deps : Dependencies → Text → List Label
unfolding find
reg_deps d r = get_or_self (name r) (find r d.reg)

unfoldable pub flag_deps : Dependencies → Text → List Label
unfolding find
flag_deps d f = get_or_self (name f) (find f d.flag)

unfoldable pub mem_deps : Dependencies → ℕ → List Label
unfolding find
mem_deps d a = get_or_self (mem a) (find a d.memory)

-- The union over a list, added to a set.
unfoldable pub update_all : {K : Type 0} → (K → List Label) → List K → List Label → List Label
unfolding update
update_all deps [] s = s
update_all deps (k ∷ ks) s = update_all deps ks (update s (deps k))

-- the first part of _Dependencies.add_dependencies
unfoldable pub src_dependencies : Dependencies → TrackedInstruction → List Label
unfolding update_all reg_deps flag_deps mem_deps
src_dependencies d t =
    update_all (mem_deps d) t.src_mems
      (update_all (flag_deps d) t.src_flags (update_all (reg_deps d) t.src_regs []))

-- the body of the loops over the destinations
abbrev pub propagated : Label → List Label → Option (List Label) → List Label
propagated label src none = add label src
propagated label src (some deps) = update deps src

module _ {K : Type 0} ⦃e : Key K⦄ (label : K → Label) where
  -- the loops over the destinations
  unfoldable pub propagate : List Label → List K → List (K × List Label) → List (K × List Label)
  unfolding add update find put
  propagate src [] d = d
  propagate src (k ∷ ks) d = propagate src ks (put k (propagated (label k) src (find k d)) d)

-- _Dependencies.add_dependencies
unfoldable pub add_dependencies : TrackedInstruction → Dependencies → Dependencies
unfolding src_dependencies propagate
add_dependencies t d =
    let src = src_dependencies d t in
    record {
      reg = propagate name src t.dest_regs d.reg;
      flag = propagate name src t.dest_flags d.flag;
      memory = propagate mem src t.dest_mems d.memory;
    }

module _ (desc : TargetDesc) where
  -- the test of _Dependencies.remove_overwritten_dependencies; a destination register comes from a
  -- register operand, so the list of these is not empty there
  unfoldable pub overrides : TrackedInstruction → Bool
  unfolding lower starts_with text_eq get_reg_operands
  overrides t =
      let inst_name = lower t.inst.name in
      (starts_with inst_name (codes "mov") || text_eq inst_name (codes "lea"))
      && length t.dest_regs == 1
      && elim (get_reg_operands true t.inst) [
        | [] ↦ false
        | op ∷ _ ↦ desc.register_sizes (op_value op) == 64
      ]

  -- the removal from what the dictionary holds; after add_dependencies it holds the register
  abbrev pub keep_sources :
      List Label → Text → Option (List Label) → List (Text × List Label) → List (Text × List Label)
  keep_sources src r none d = d
  keep_sources src r (some deps) d = put r (filter (λ dep. is_in dep src) deps) d

  -- the removal from the only destination register
  abbrev pub keep_only :
      List Label → List Text → List (Text × List Label) → List (Text × List Label)
  keep_only src (r ∷ []) d = keep_sources src r (find r d) d
  keep_only src _ d = d

  -- _Dependencies.remove_overwritten_dependencies, with the source dependencies that
  -- add_dependencies has cached
  unfoldable pub remove_overwritten_dependencies :
      List Label → TrackedInstruction → Dependencies → Dependencies
  unfolding overrides find put is_in
  remove_overwritten_dependencies src t d =
      if overrides t then record d { reg = keep_only src t.dest_regs d.reg } else d
