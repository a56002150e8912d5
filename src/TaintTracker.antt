-- ===== src/TaintTracker.antt =====
-- rvzr/model_unicorn/taint_tracker.py: the tracker of the input data that a contract trace depends
-- on. `none` is an AssertionError, a KeyError or an IndexError.
pub mod Labels
pub mod Propagation
pub mod Flow
pub mod Finalizing
pub mod Tracking
pub mod Pending
pub mod Machine
pub mod Soundness
pub mod Runs
pub mod Output
pub mod Marking
pub mod Entries
pub mod Loading
pub mod Inputs
pub mod Speculation
use side_channel_fuzzer.Prelude.{
  ℕ, zero, suc, ◌+◌, ◌-◌, ◌*◌, ◌/◌, ◌^◌, bit_and, Bool, true, false, not, ◌&&◌, Option, none, some,
  List, [], ◌∷◌, ◌++◌, map, ◌==◌, if◌then◌else◌, ◌>>=◌, ◌>>◌, guard, leb, ltb, filter,
}
use side_channel_fuzzer.Prelude.Texts.{Text, codes, lower, has_part}
use side_channel_fuzzer.Grouping.Members.{is_nonempty}
use side_channel_fuzzer.Operands.{Operand, flags_op, get_flags_by_type, FlagUse, overwrite}
use side_channel_fuzzer.Instruction.{Instruction, get_flags_operand}
use side_channel_fuzzer.Tracer.{TaintedValueType}
use side_channel_fuzzer.Sandbox.{DataArea, data_size_per_actor, data_area_offset}
use side_channel_fuzzer.InputData.{
  InputTaint, taint_new, taint_actor_offsets, taint_offset_from_sandbox_address, entries_per_actor,
}
use side_channel_fuzzer.TaintTracker.Labels.{
  Label, mem, name, text_key, number_key, label_key, is_in, add, update, put,
}
use side_channel_fuzzer.TaintTracker.Propagation.{
  TargetDesc, TrackedInstruction, tracked_init, parse_static_operands, Dependencies,
  no_dependencies, reg_deps, mem_deps, update_all, src_dependencies, add_dependencies,
  remove_overwritten_dependencies,
}

-- UnicornTaintTracker
pub record TaintTracker : Type 0 where
  pub enable_tracking : Bool
  pub tracking_in_progress : Bool
  pub initial_observations : List Text
  pub data_start : ℕ
  pub checkpoints : List Dependencies
  pub tainted_labels : List Label
  pub pending_taint : List Label
  pub instruction : Option TrackedInstruction
  pub dependencies : Dependencies

-- _ARCH_INITIAL_OBSERVATIONS_X86_64, _ARCH_INITIAL_OBSERVATIONS_ARM64
abbrev pub arch_initial_observations_x86_64 : List Text
arch_initial_observations_x86_64 = map codes (
    "A" ∷ "B" ∷ "C" ∷ "D" ∷ "SI" ∷ "DI" ∷ "RSP" ∷ "CF" ∷ "PF" ∷ "AF" ∷ "ZF" ∷ "SF" ∷ "TF" ∷ "IF"
    ∷ "DF" ∷ "OF" ∷ "AC" ∷ [])

abbrev pub arch_initial_observations_arm64 : List Text
arch_initial_observations_arm64 =
    map codes ("R0" ∷ "R1" ∷ "R2" ∷ "R3" ∷ "R4" ∷ "R5" ∷ "N" ∷ "Z" ∷ "C" ∷ "V" ∷ [])

-- UnicornTaintTracker.reset
unfoldable pub reset : TaintTracker → TaintTracker
unfolding update
reset t = record t {
  checkpoints = [];
  tainted_labels = update [] (map name t.initial_observations);
  pending_taint = [];
  instruction = none;
  dependencies = no_dependencies;
  tracking_in_progress = true;
}

-- UnicornTaintTracker.__init__: `arch_clause` tells if the observation clause is 'ctr' or 'arch'
unfoldable pub tracker_init : (arch_clause is_x86 : Bool) → ℕ → TaintTracker
unfolding reset
tracker_init arch_clause is_x86 base =
    record (reset record {
      enable_tracking = true;
      tracking_in_progress = false;
      initial_observations =
          if arch_clause
          then if is_x86 then arch_initial_observations_x86_64 else arch_initial_observations_arm64
          else [];
      data_start = base;
      checkpoints = [];
      tainted_labels = [];
      pending_taint = [];
      instruction = none;
      dependencies = no_dependencies;
    }) { tracking_in_progress = false }

-- UnicornTaintTracker.set_enable_tracking
unfoldable pub set_enable_tracking : Bool → TaintTracker → Option TaintTracker
set_enable_tracking enable t = do
  guard (not t.tracking_in_progress)
  some (record t { enable_tracking = enable })

-- the values that a pending label taints
unfoldable pub tainted_values : Dependencies → Label → List Label
unfolding reg_deps mem_deps
tainted_values d (mem a) = mem_deps d a
tainted_values d (name r) = reg_deps d r

-- the workaround for REP in UnicornTaintTracker._finalize_instruction
unfoldable pub with_rep_count : TrackedInstruction → List Label → List Label
unfolding has_part lower is_in add
with_rep_count i pending =
    if is_nonempty pending
      && has_part (codes "rep") (lower i.inst.name)
      && is_in (codes "C") i.src_regs
    then add (name (codes "C")) pending
    else pending

module _ (desc : TargetDesc) where
  -- UnicornTaintTracker._finalize_instruction
  unfoldable pub finalize_instruction : TrackedInstruction → TaintTracker → TaintTracker
  unfolding with_rep_count tainted_values src_dependencies add_dependencies update_all
      remove_overwritten_dependencies
  finalize_instruction i t =
      let src = src_dependencies t.dependencies i in
      let dependencies = add_dependencies i t.dependencies in
      let pending = with_rep_count i t.pending_taint in
      record t {
        pending_taint = pending;
        tainted_labels = update_all (tainted_values dependencies) pending t.tainted_labels;
        dependencies = remove_overwritten_dependencies desc src i dependencies;
        instruction = none;
      }

  -- `if self._instruction: self._finalize_instruction()`
  unfoldable pub settle : TaintTracker → TaintTracker
  unfolding finalize_instruction
  settle t = elim t.instruction [ none ↦ t | some i ↦ finalize_instruction i t ]

  -- UnicornTaintTracker.checkpoint
  unfoldable pub checkpoint : Bool → TaintTracker → TaintTracker
  unfolding settle
  checkpoint include_current_inst t =
      if t.enable_tracking
      then (let t' = if include_current_inst then settle t else t in
          record t' { checkpoints = t'.dependencies ∷ t'.checkpoints })
      else t

  -- the end of UnicornTaintTracker.rollback
  abbrev pub restore : List Dependencies → TaintTracker → Option TaintTracker
  restore [] t = none
  restore (d ∷ checkpoints) t = some (record t { dependencies = d; checkpoints = checkpoints })

  -- UnicornTaintTracker.rollback
  unfoldable pub rollback : TaintTracker → Option TaintTracker
  unfolding settle
  rollback t = if t.enable_tracking then restore t.checkpoints (settle t) else some t

  -- the loop of UnicornTaintTracker.track_instruction over the overwritten flags
  unfoldable pub overwrite_flags : List Text → Dependencies → Dependencies
  unfolding put
  overwrite_flags [] d = d
  overwrite_flags (f ∷ flags) d =
      overwrite_flags flags (record d { flag = put f (name f ∷ []) d.flag })

  -- the flags that an instruction overwrites
  abbrev pub overwritten : Instruction → List Text
  overwritten inst = elim (get_flags_operand inst) [
    | some (flags_op flag_values) ↦ get_flags_by_type overwrite flag_values
    | _ ↦ []
  ]

  -- UnicornTaintTracker.track_instruction
  unfoldable pub track_instruction : Instruction → TaintTracker → Option TaintTracker
  unfolding settle overwrite_flags parse_static_operands get_flags_operand get_flags_by_type
  track_instruction inst t =
      if t.enable_tracking
      then (do
        let t' = settle t
        i ← parse_static_operands desc.reg_normalized (tracked_init inst)
        some (record t' {
          instruction = some i;
          pending_taint = [];
          dependencies = overwrite_flags (overwritten inst) t'.dependencies;
        }))
      else some t

-- range(start, start + 8 * n, 8)
unfoldable pub words_from : ℕ → ℕ → List ℕ
words_from zero start = []
words_from (suc n) start = start ∷ words_from n (start + 8)

-- The words that an access touches. An address below `data_start` gives a negative number, whose
-- mask is that of the number in 64 bits.
unfoldable pub accessed_words : ℕ → ℕ → ℕ → List ℕ
unfolding words_from
accessed_words data_start address size =
    let offset = address + 2 ^ 64 - data_start in
    let masked_start_addr = bit_and offset 0xfffffffffffffff8 in
    let masked_end_addr = bit_and (offset + size - 1) 0xfffffffffffffff8 in
    words_from ((masked_end_addr + 1 + 7 - masked_start_addr) / 8) masked_start_addr

-- the loop of UnicornTaintTracker.track_memory_access
unfoldable pub add_words : Bool → List ℕ → TrackedInstruction → TrackedInstruction
unfolding update
add_words is_write words i =
    if is_write
    then record i { dest_mems = update i.dest_mems words }
    else record i { src_mems = update i.src_mems words }

-- UnicornTaintTracker.track_memory_access
unfoldable pub track_memory_access : ℕ → ℕ → Bool → TaintTracker → Option TaintTracker
unfolding add_words accessed_words
track_memory_access address size is_write t =
    if t.enable_tracking
    then (do
      i ← t.instruction
      some (record t {
        instruction = some (add_words is_write (accessed_words t.data_start address size) i);
      }))
    else some t

-- the labels of UnicornTaintTracker.taint
unfoldable pub observed_labels : TaintedValueType → TrackedInstruction → List Label
observed_labels TaintedValueType.pc i =
    if i.inst.is_control_flow then name (codes "RIP") ∷ [] else []
observed_labels TaintedValueType.mem i = map name i.mem_address_regs
observed_labels TaintedValueType.ld_val i = map mem i.src_mems

-- UnicornTaintTracker.taint
unfoldable pub taint : TaintedValueType → TaintTracker → TaintTracker
unfolding observed_labels update
taint value_type t =
    if t.enable_tracking
    then (elim t.instruction [
      | none ↦ t
      | some i ↦ record t { pending_taint = update t.pending_taint (observed_labels value_type i) }
    ])
    else t

-- UnicornTaintTracker.taint_actors
unfoldable pub taint_actors : List ℕ → TaintTracker → TaintTracker
unfolding update words_from
taint_actors [] t = t
taint_actors (actor_id ∷ actor_ids) t =
    let words = words_from (data_size_per_actor / 8) (actor_id * data_size_per_actor) in
    taint_actors actor_ids
      (record t { tainted_labels = update t.tainted_labels (map Label.mem words) })
