-- ===== src/TaintTracker/Soundness.antt =====
-- Two inputs that agree on what the tracker reports have the same contract trace.
use side_channel_fuzzer.Prelude.{
  ℕ, ◌≡◌, refl, sym, ap, ◌∙◌, subst, true, false, ◌||◌, some, List, [], ◌∷◌, ◌⊎◌, arith, Bool-cases,
  inl, inr, map,
}
use side_channel_fuzzer.Prelude.Texts.{codes, text_eq, text_eq→eq}
use side_channel_fuzzer.Instruction.{Instruction}
use side_channel_fuzzer.Tracer.{TaintedValueType}
use side_channel_fuzzer.TaintTracker.Labels.{Label, name, text_key, label_key, is_in, update}
use side_channel_fuzzer.TaintTracker.Propagation.{
  TargetDesc, TrackedInstruction, Dependencies, tracked_init, parse_static_operands,
}
use side_channel_fuzzer.TaintTracker.Flow.{
  Place, reg, flag, word, label_of, deps, is_source, is_dest, IsWithin,
}
use side_channel_fuzzer.TaintTracker.Finalizing.{
  is_replaced, finalize-sources, finalize-keeps, finalize-taints, finalize-taints_sources,
}
use side_channel_fuzzer.TaintTracker.Tracking.{
  Access, tracked, with_accesses, with_accesses-regs, after_step, settle-data_start, pending_after,
  parse_static_operands-inst,
}
use side_channel_fuzzer.TaintTracker.Pending.{
  pending_after-grows, pending_after-labels, with_rep_count-grows, with_rep_count_mono,
}
use side_channel_fuzzer.TaintTracker.Machine.{
  Values, rip, Machine, IsFetched, Lawful, SameSources, is_overwritten, is_rip,
  deps-overwrite_flags,
}
use side_channel_fuzzer.TaintTracker.{
  TaintTracker, settle, overwritten, observed_labels, with_rep_count,
}

list-cases : {A : Type 0} (xs : List A) → (xs ≡ []) ⊎ ((x : A) × (ys : List A) × (xs ≡ x ∷ ys))
list-cases [] = inl refl
list-cases (x ∷ xs) = inr (x, xs, refl)

-- The initial states agree on the places of the labels.
abbrev pub Agree : (v0 v0' : Values) → List Label → Type 0
Agree v0 v0' labels = (l : Place) → is_in (label_of l) labels ≡ true → v0 l ≡ v0' l

-- Where the initial states agree on the labels of a place, it has the same value in both runs.
abbrev pub Tracks : (v0 v0' : Values) → Dependencies → (v v' : Values) → Type 0
Tracks v0 v0' d v v' = (l : Place) → Agree v0 v0' (deps d l) → v l ≡ v' l

is_rip→eq : (l : Place) → is_rip l ≡ true → l ≡ rip
is_rip→eq (reg r) h = ap reg (text_eq→eq r (codes "RIP") h)
is_rip→eq (flag f) h = cc
is_rip→eq (word a) h = cc

module _ (desc : TargetDesc) (m : Machine) (base : ℕ) (laws : Lawful desc m base)
    (v0 v0' : Values) where
  -- One instruction in both runs, from trackers that are settled.
  module _ (inst : Instruction) (v v' : Values) (t : TaintTracker) (i0 : TrackedInstruction)
      (runs : IsFetched m inst)
      (parsed : parse_static_operands desc.reg_normalized (tracked_init inst) ≡ some i0)
      (start : t.data_start ≡ base) (tracks : Tracks v0 v0' (settle desc t).dependencies v v') where
    i : TrackedInstruction
    i = with_accesses (settle desc t).data_start (m.accesses inst v) i0

    s : TaintTracker
    unfolding i
    s = after_step desc inst (m.accesses inst v) t i0

    is_tracked : tracked desc base inst (m.accesses inst v) ≡ some i
    unfolding tracked i
    is_tracked = rw parsed (
        ap (λ b. some (with_accesses b (m.accesses inst v) i0))
          (sym (settle-data_start desc t ∙ start)))

    -- What is not overwritten has its labels still.
    deps_same :
        (l : Place)
        → is_overwritten (overwritten desc inst) l ≡ false
        → deps s.dependencies l ≡ deps (settle desc t).dependencies l
    unfolding s
    deps_same l h =
        deps-overwrite_flags desc (overwritten desc inst) (settle desc t).dependencies l h

    place_same :
        (l : Place) (labels : List Label)
        → is_overwritten (overwritten desc inst) l ≡ false
        → IsWithin (deps s.dependencies l) labels
        → Agree v0 v0' labels
        → v l ≡ v' l
    place_same l labels h within a = tracks l (λ k q.
        a k (
          within (label_of k) (subst (λ ds. is_in (label_of k) ds ≡ true) (sym (deps_same l h)) q)))

    source-is_overwritten :
        (l : Place) → is_source i l ≡ true → is_overwritten (overwritten desc inst) l ≡ false
    source-is_overwritten l source = elim (Bool-cases (is_overwritten (overwritten desc inst) l)) [
      | inl bad ↦ absurd (ground (arith, laws.overwritten_flags inst v i l runs is_tracked bad))
      | inr good ↦ good
    ]

    sources_same :
        (labels : List Label)
        → ((l : Place) → is_source i l ≡ true → IsWithin (deps s.dependencies l) labels)
        → Agree v0 v0' labels
        → SameSources i v v'
    sources_same labels within a l source =
        place_same l labels (source-is_overwritten l source) (within l source) a

    at_once :
        IsWithin
          (pending_after
            (m.accesses inst v)
            (map name i0.mem_address_regs)
            (update [] (observed_labels TaintedValueType.pc i0)))
          (with_rep_count i s.pending_taint)
    unfolding s
    at_once x h =
        with_rep_count-grows i
          (pending_after (m.accesses inst v) (map name i0.mem_address_regs)
            (update [] (observed_labels TaintedValueType.pc i0)))
          x h

    -- With an access, the registers of its address are pending.
    pending_registers :
        (a : Access) (rest : List Access)
        → m.accesses inst v ≡ a ∷ rest
        → IsWithin (map name i.mem_address_regs) s.pending_taint
    unfolding s i
    pending_registers a rest some_ x h =
        subst
          (λ accesses.
            is_in x (
              pending_after accesses (map name i0.mem_address_regs)
                (update [] (observed_labels TaintedValueType.pc i0)))
            ≡ true)
          (sym some_)
          (pending_after-labels a rest (map name i0.mem_address_regs)
            (update [] (observed_labels TaintedValueType.pc i0)) x
            (subst (λ regs. is_in x (map name regs) ≡ true)
              (with_accesses-regs (settle desc t).data_start (m.accesses inst v) i0) h))

    -- The program counter of a jump is pending.
    rip_pending :
        inst.is_control_flow ≡ true
        → is_in (name (codes "RIP")) (
            pending_after
              (m.accesses inst v)
              (map name i0.mem_address_regs)
              (update [] (observed_labels TaintedValueType.pc i0)))
          ≡ true
    rip_pending jump =
        pending_after-grows (m.accesses inst v) (map name i0.mem_address_regs)
          (update [] (observed_labels TaintedValueType.pc i0)) (name (codes "RIP"))
          (of_jump (
            ap (λ (k : Instruction). k.is_control_flow)
              (parse_static_operands-inst desc.reg_normalized inst i0 parsed)
            ∙ jump))
      where
        of_jump :
            i0.inst.is_control_flow ≡ true
            → is_in (name (codes "RIP")) (update [] (observed_labels TaintedValueType.pc i0)) ≡ true
        of_jump h = unfold observed_labels update is_in text_eq in rw h

    module _ (agree : Agree v0 v0' (settle desc s).tainted_labels) where
      -- The accesses are the same in both runs.
      same_accesses : m.accesses inst v ≡ m.accesses inst v'
      unfolding settle s
      same_accesses = elim (list-cases (m.accesses inst v)) [
        | inl nothing ↦ nothing ∙ sym (laws.none_or_all inst v v' runs nothing)
        | inr (a, rest, some_) ↦ laws.same_addresses inst v v' i runs is_tracked (λ r h.
            place_same (reg r) (settle desc s).tainted_labels refl
              (finalize-taints desc i s r (
                with_rep_count_mono i (map name i.mem_address_regs) s.pending_taint
                  (pending_registers a rest some_) (name r) h))
              agree)
      ]

      -- The program counter is the same after the instruction.
      next_pc_same : v rip ≡ v' rip → m.next inst v rip ≡ m.next inst v' rip
      unfolding settle s
      next_pc_same same_pc = elim (Bool-cases inst.is_control_flow) [
        | inr straight ↦ laws.moves_on inst v v' runs straight same_pc
        | inl jump ↦
            let dest = laws.jumps inst v i runs is_tracked jump in
            laws.flow inst v v' i rip runs is_tracked same_accesses
              (sources_same (settle desc s).tainted_labels
                (λ l source.
                  finalize-taints_sources desc i s (codes "RIP") l
                    (at_once (name (codes "RIP")) (rip_pending jump)) dest source)
                agree)
              dest same_pc
      ]

      -- Every other place has the same value after it, where the states agree on its labels.
      next_same :
          (l : Place)
          → is_rip l ≡ false
          → Agree v0 v0' (deps (settle desc s).dependencies l)
          → m.next inst v l ≡ m.next inst v' l
      unfolding settle s
      next_same l other a = elim (Bool-cases (is_dest i l)) [
        | inr kept ↦
            laws.frame inst v i l runs is_tracked kept other
            ∙ place_same l (deps (settle desc s).dependencies l) (dest-is_overwritten l kept)
                (finalize-keeps desc i s l (dest-is_replaced l kept)) a
            ∙ sym (laws.frame inst v' i l runs also_tracked kept other)
        | inl dest ↦
            let sources =
              sources_same (deps (settle desc s).dependencies l)
                (λ k source. finalize-sources desc i s l k dest source) a in
            elim (Bool-cases (is_overwritten (overwritten desc inst) l || is_replaced desc i l)) [
              | inl over ↦
                  laws.overwrite inst v v' i l runs is_tracked same_accesses sources dest over
              | inr partly ↦ laws.flow inst v v' i l runs is_tracked same_accesses sources dest (
                  place_same l (deps (settle desc s).dependencies l) (ground arith)
                    (finalize-keeps desc i s l (ground arith)) a)
            ]
      ]
        where
          also_tracked : tracked desc base inst (m.accesses inst v') ≡ some i
          also_tracked =
              subst (λ accesses. tracked desc base inst accesses ≡ some i) same_accesses is_tracked

          dest-is_replaced : (l : Place) → is_dest i l ≡ false → is_replaced desc i l ≡ false
          dest-is_replaced (reg r) h = ground arith
          dest-is_replaced (flag f) h = refl
          dest-is_replaced (word b) h = refl

          dest-is_overwritten :
              (l : Place) → is_dest i l ≡ false → is_overwritten (overwritten desc inst) l ≡ false
          dest-is_overwritten l h = elim (Bool-cases (is_overwritten (overwritten desc inst) l)) [
            | inl bad ↦
                absurd (ground (arith, laws.overwritten_flags inst v i l runs is_tracked bad))
            | inr good ↦ good
          ]

    -- One instruction has the same accesses in both runs, goes on to the same address, and keeps
    -- what the labels of each place mean, if the initial states agree on what is tainted after it.
    pub step_same :
        Agree v0 v0' (settle desc (after_step desc inst (m.accesses inst v) t i0)).tainted_labels
        → v rip ≡ v' rip
        → (m.accesses inst v ≡ m.accesses inst v')
          × (m.next inst v rip ≡ m.next inst v' rip)
          × Tracks v0 v0'
              (settle desc (after_step desc inst (m.accesses inst v) t i0)).dependencies
              (m.next inst v)
              (m.next inst v')
    unfolding s i
    step_same agree same_pc = (
      same_accesses agree,
      next_pc_same agree same_pc,
      λ l a. elim (Bool-cases (is_rip l)) [
        | inl here ↦
            subst (λ k. m.next inst v k ≡ m.next inst v' k) (sym (is_rip→eq l here))
              (next_pc_same agree same_pc)
        | inr other ↦ next_same agree l other a
      ],
    )
