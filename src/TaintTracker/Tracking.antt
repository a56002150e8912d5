-- ===== src/TaintTracker/Tracking.antt =====
-- The calls that a model with the CT clause makes of the tracker for one instruction: the
-- instruction hook, then the hook of each memory access.
use side_channel_fuzzer.Prelude.{
  ℕ, ◌≡◌, refl, ap, ◌∙◌, Bool, true, false, Option, some, List, [], ◌∷◌, arith, Option-cases, inl,
  inr, ◌>>=◌, >>=-eq-some, map,
}
use side_channel_fuzzer.Prelude.Texts.{Text}
use side_channel_fuzzer.Tracer.{TaintedValueType}
use side_channel_fuzzer.Operands.{
  Operand, reg_op, mem_op, imm_op, label_op, agen_op, flags_op, cond_op,
}
use side_channel_fuzzer.Instruction.{Instruction, get_all_operands}
use side_channel_fuzzer.TaintTracker.Labels.{Label, name, text_key, label_key, update}
use side_channel_fuzzer.TaintTracker.Propagation.{
  TargetDesc, TrackedInstruction, Dependencies, tracked_init, parse_operand, parse_operands,
  parse_static_operands,
}
use side_channel_fuzzer.TaintTracker.{
  TaintTracker, settle, finalize_instruction, track_instruction, overwritten, overwrite_flags,
  accessed_words, add_words, track_memory_access, taint, observed_labels,
}

-- a memory access: its address, its size, and if it is a write
pub record Access : Type 0 where
  pub address : ℕ
  pub size : ℕ
  pub is_write : Bool

-- the parts of _Dispatcher.mem_access_dispatch and UnicornTracer._add_mem_address_to_trace that
-- call the tracker, for every access of an instruction
unfoldable pub track_accesses : List Access → TaintTracker → Option TaintTracker
unfolding track_memory_access taint
track_accesses [] t = some t
track_accesses (a ∷ accesses) t = do
  t' ← track_memory_access a.address a.size a.is_write t
  track_accesses accesses (taint TaintedValueType.mem t')

-- the instruction with the words of its accesses
unfoldable pub with_accesses : ℕ → List Access → TrackedInstruction → TrackedInstruction
unfolding add_words accessed_words
with_accesses data_start [] i = i
with_accesses data_start (a ∷ accesses) i =
    with_accesses data_start accesses
      (add_words a.is_write (accessed_words data_start a.address a.size) i)

-- the pending labels after the accesses
abbrev pub pending_after : List Access → List Label → List Label → List Label
pending_after [] labels pending = pending
pending_after (a ∷ accesses) labels pending = pending_after accesses labels (update pending labels)

module _ (desc : TargetDesc) where
  -- the same for an instruction: _Dispatcher.instruction_dispatch and
  -- UnicornTracer._add_pc_to_trace, then the accesses
  unfoldable pub track_step : Instruction → List Access → TaintTracker → Option TaintTracker
  unfolding track_instruction taint track_accesses
  track_step inst accesses t = do
    t' ← track_instruction desc inst t
    track_accesses accesses (taint TaintedValueType.pc t')

  -- the operands of an instruction, with those that its accesses add
  unfoldable pub tracked : ℕ → Instruction → List Access → Option TrackedInstruction
  unfolding parse_static_operands with_accesses
  tracked data_start inst accesses = do
    i ← parse_static_operands desc.reg_normalized (tracked_init inst)
    some (with_accesses data_start accesses i)

add_words-regs :
    (is_write : Bool) (words : List ℕ) (i : TrackedInstruction)
    → (add_words is_write words i).mem_address_regs ≡ i.mem_address_regs
unfolding add_words
add_words-regs true words i = refl
add_words-regs false words i = refl

add_words-inst :
    (is_write : Bool) (words : List ℕ) (i : TrackedInstruction)
    → (add_words is_write words i).inst ≡ i.inst
unfolding add_words
add_words-inst true words i = refl
add_words-inst false words i = refl

pub with_accesses-regs :
    (data_start : ℕ) (accesses : List Access) (i : TrackedInstruction)
    → (with_accesses data_start accesses i).mem_address_regs ≡ i.mem_address_regs
unfolding with_accesses
with_accesses-regs data_start [] i = refl
with_accesses-regs data_start (a ∷ accesses) i =
    let words = accessed_words data_start a.address a.size in
    with_accesses-regs data_start accesses (add_words a.is_write words i)
    ∙ add_words-regs a.is_write words i

pub with_accesses-inst :
    (data_start : ℕ) (accesses : List Access) (i : TrackedInstruction)
    → (with_accesses data_start accesses i).inst ≡ i.inst
unfolding with_accesses
with_accesses-inst data_start [] i = refl
with_accesses-inst data_start (a ∷ accesses) i =
    let words = accessed_words data_start a.address a.size in
    with_accesses-inst data_start accesses (add_words a.is_write words i)
    ∙ add_words-inst a.is_write words i

parse_operand-inst :
    (normalized : Text → Option Text) (op : Operand) (i i' : TrackedInstruction)
    → parse_operand normalized op i ≡ some i'
    → i'.inst ≡ i.inst
unfolding parse_operand
parse_operand-inst normalized (reg_op value width src dest) i i' h = ground arith
parse_operand-inst normalized (flags_op flag_values) i i' h = ground arith
parse_operand-inst normalized (mem_op value width src dest) i i' h = ground arith
parse_operand-inst normalized (agen_op value width) i i' h = ground arith
parse_operand-inst normalized (imm_op value width) i i' h = ground arith
parse_operand-inst normalized (label_op value) i i' h = ground arith
parse_operand-inst normalized (cond_op value) i i' h = ground arith

parse_operands-inst :
    (normalized : Text → Option Text) (ops : List Operand) (i i' : TrackedInstruction)
    → parse_operands normalized ops i ≡ some i'
    → i'.inst ≡ i.inst
unfolding parse_operands
parse_operands-inst normalized [] i i' h = ground arith
parse_operands-inst normalized (op ∷ ops) i i' h =
    let (i1, first, rest) =
      >>=-eq-some (parse_operand normalized op i) (parse_operands normalized ops) h in
    parse_operands-inst normalized ops i1 i' rest ∙ parse_operand-inst normalized op i i1 first

-- The operands that are parsed are those of the instruction.
pub parse_static_operands-inst :
    (normalized : Text → Option Text) (inst : Instruction) (i : TrackedInstruction)
    → parse_static_operands normalized (tracked_init inst) ≡ some i
    → i.inst ≡ inst
unfolding parse_static_operands
parse_static_operands-inst normalized inst i h =
    parse_operands-inst normalized (get_all_operands inst) (tracked_init inst) i h

-- a tracker in the course of an instruction
abbrev pub amid : TaintTracker → TrackedInstruction → List Label → TaintTracker
amid t i pending = record t {
  enable_tracking = true;
  instruction = some i;
  pending_taint = pending;
}

-- The tracker after the accesses of an instruction.
track_accesses_lem :
    (accesses : List Access) (t : TaintTracker) (i : TrackedInstruction)
    (labels pending : List Label)
    → map name i.mem_address_regs ≡ labels
    → track_accesses accesses (amid t i pending)
      ≡ some
          (amid t (with_accesses t.data_start accesses i) (pending_after accesses labels pending))
unfolding track_accesses with_accesses
track_accesses_lem [] t i labels pending same = refl
track_accesses_lem (a ∷ accesses) t i labels pending same =
    let words = accessed_words t.data_start a.address a.size in
    let i1 = add_words a.is_write words i in
    let regs = ap (map name) (add_words-regs a.is_write words i) ∙ same in
    ap (λ l. track_accesses accesses (amid t i1 (update pending l))) regs
    ∙ track_accesses_lem accesses t i1 labels (update pending labels) regs

pc_taint :
    (s : TaintTracker) (i : TrackedInstruction) (d : Dependencies)
    → s.enable_tracking ≡ true
    → taint TaintedValueType.pc
        (record s { instruction = some i; pending_taint = []; dependencies = d })
      ≡ amid (record s { dependencies = d }) i (update [] (observed_labels TaintedValueType.pc i))
unfolding taint
pc_taint s i d on = ground arith

module _ (desc : TargetDesc) where
  pub settle-enable_tracking :
      (t : TaintTracker) → (settle desc t).enable_tracking ≡ t.enable_tracking
  unfolding settle finalize_instruction
  settle-enable_tracking t = ground arith

  pub settle-data_start : (t : TaintTracker) → (settle desc t).data_start ≡ t.data_start
  unfolding settle finalize_instruction
  settle-data_start t = ground arith

  -- the tracker after an instruction whose names are known
  abbrev pub after_step :
      Instruction → List Access → TaintTracker → TrackedInstruction → TaintTracker
  after_step inst accesses t i =
      let s = settle desc t in
      amid (record s { dependencies = overwrite_flags desc (overwritten desc inst) s.dependencies })
        (with_accesses s.data_start accesses i)
        (pending_after accesses (map name i.mem_address_regs)
          (update [] (observed_labels TaintedValueType.pc i)))

  pub track_step_lem :
      (inst : Instruction) (accesses : List Access) (t t' : TaintTracker)
      → t.enable_tracking ≡ true
      → track_step desc inst accesses t ≡ some t'
      → (i : TrackedInstruction) × (parse_static_operands desc.reg_normalized (tracked_init inst)
          ≡ some i)
        × (t' ≡ after_step inst accesses t i)
  unfolding track_step track_instruction
  track_step_lem inst accesses t t' on h =
      elim (Option-cases (parse_static_operands desc.reg_normalized (tracked_init inst))) [
        | inl raised ↦ absurd (ground (arith, on, raised))
        | inr (i, parsed) ↦ (
          i,
          parsed,
          ground (
            arith,
            on,
            pc_taint (settle desc t) i
                (overwrite_flags desc (overwritten desc inst) (settle desc t).dependencies)
                (settle-enable_tracking t ∙ on),
            track_accesses_lem accesses
                (record (settle desc t) {
                  dependencies =
                      overwrite_flags desc (overwritten desc inst) (settle desc t).dependencies;
                })
                i (map name i.mem_address_regs) (update [] (observed_labels TaintedValueType.pc i))
                refl,
          ),
        )
      ]
