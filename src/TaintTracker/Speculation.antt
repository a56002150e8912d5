-- ===== src/TaintTracker/Speculation.antt =====
-- A speculation as the tracker sees it: from a checkpoint to its rollback.
use side_channel_fuzzer.Prelude.{
  ℕ, ◌≡◌, refl, ◌∙◌, subst, Bool, true, false, not, ◌||◌, some, ◌∷◌, arith, if◌then◌else◌,
  Option-cases, inl, inr,
}
use side_channel_fuzzer.Instruction.{Instruction}
use side_channel_fuzzer.Tracer.{TaintedValueType}
use side_channel_fuzzer.TaintTracker.Labels.{Label, label_key, is_in}
use side_channel_fuzzer.TaintTracker.Propagation.{
  TargetDesc, Dependencies, tracked_init, parse_static_operands,
}
use side_channel_fuzzer.TaintTracker.Flow.{IsWithin}
use side_channel_fuzzer.TaintTracker.Finalizing.{finalize-grows}
use side_channel_fuzzer.TaintTracker.{
  TaintTracker, settle, finalize_instruction, checkpoint, rollback, track_instruction,
  track_memory_access, taint,
}

module _ (desc : TargetDesc) where
  -- The calls of an enabled tracker between two points, whole speculations included.
  pub data Calls : TaintTracker → TaintTracker → Type 0 where
    nothing : (t : TaintTracker) → Calls t t
    tracks :
        (t t1 t2 : TaintTracker) (inst : Instruction)
        → Calls t t1
        → track_instruction desc inst t1 ≡ some t2
        → Calls t t2
    accesses :
        (t t1 t2 : TaintTracker) (address size : ℕ) (is_write : Bool)
        → Calls t t1
        → track_memory_access address size is_write t1 ≡ some t2
        → Calls t t2
    taints :
        (t t1 : TaintTracker) (value_type : TaintedValueType)
        → Calls t t1
        → Calls t (taint value_type t1)
    speculates :
        (t t1 t2 t3 : TaintTracker) (include_current_inst : Bool)
        → Calls t t1
        → Calls (checkpoint desc include_current_inst t1) t2
        → rollback desc t2 ≡ some t3
        → Calls t t3

  -- the checkpoints stay, tracking stays enabled, and the tainted labels grow
  pub record Kept (t t' : TaintTracker) : Type 0 where
    pub same_checkpoints : t'.checkpoints ≡ t.checkpoints
    pub on : t'.enable_tracking ≡ true
    pub grows : IsWithin t.tainted_labels t'.tainted_labels

  Kept-trans : (t1 t2 t3 : TaintTracker) → Kept t1 t2 → Kept t2 t3 → Kept t1 t3
  Kept-trans t1 t2 t3 k l = record {
    same_checkpoints = l.same_checkpoints ∙ k.same_checkpoints;
    on = l.on;
    grows = λ x h. l.grows x (k.grows x h);
  }

  settle-Kept : (t : TaintTracker) → t.enable_tracking ≡ true → Kept t (settle desc t)
  unfolding settle
  settle-Kept t on = elim (Option-cases t.instruction) [
    | inl idle ↦ rw idle record { same_checkpoints = refl; on = on; grows = λ x h. h }
    | inr (i, now) ↦ rw now record {
      same_checkpoints = unfold finalize_instruction in refl;
      on = unfold finalize_instruction in on;
      grows = finalize-grows desc i t;
    }
  ]

  track-Kept :
      (inst : Instruction) (t t' : TaintTracker)
      → t.enable_tracking ≡ true
      → track_instruction desc inst t ≡ some t'
      → Kept t t'
  unfolding track_instruction
  track-Kept inst t t' on h =
      elim (Option-cases (parse_static_operands desc.reg_normalized (tracked_init inst))) [
        | inl raised ↦ absurd (ground (arith, on, raised))
        | inr (i, parsed) ↦
            let k = settle-Kept t on in
            record {
              same_checkpoints = ground (arith, on, parsed, k.same_checkpoints);
              on = ground (arith, on, parsed, k.on);
              grows = λ x q. ground (arith, on, parsed, k.grows x q);
            }
      ]

  access-Kept :
      (address size : ℕ) (is_write : Bool) (t t' : TaintTracker)
      → t.enable_tracking ≡ true
      → track_memory_access address size is_write t ≡ some t'
      → Kept t t'
  unfolding track_memory_access
  access-Kept address size is_write t t' on h = record {
    same_checkpoints = ground (arith, on);
    on = ground (arith, on);
    grows = λ x q. ground (arith, on);
  }

  taint-Kept :
      (value_type : TaintedValueType) (t : TaintTracker)
      → t.enable_tracking ≡ true
      → Kept t (taint value_type t)
  unfolding taint
  taint-Kept value_type t on = record {
    same_checkpoints = ground (arith, on);
    on = ground (arith, on);
    grows = λ x q. ground (arith, on);
  }

  -- the dependencies that a checkpoint saves
  abbrev pub saved : Bool → TaintTracker → Dependencies
  saved include_current_inst t =
      if include_current_inst then (settle desc t).dependencies else t.dependencies

  checkpoint-grows :
      (include_current_inst : Bool) (t : TaintTracker)
      → t.enable_tracking ≡ true
      → IsWithin t.tainted_labels (checkpoint desc include_current_inst t).tainted_labels
  unfolding checkpoint
  checkpoint-grows true t on x h = ground (arith, on, (settle-Kept t on).grows x h)
  checkpoint-grows false t on x h = ground (arith, on)

  checkpoint-checkpoints :
      (include_current_inst : Bool) (t : TaintTracker)
      → t.enable_tracking ≡ true
      → ((checkpoint desc include_current_inst t).checkpoints
          ≡ saved include_current_inst t ∷ t.checkpoints)
        × ((checkpoint desc include_current_inst t).enable_tracking ≡ true)
  unfolding checkpoint
  checkpoint-checkpoints true t on =
      let k = settle-Kept t on in (ground (arith, on, k.same_checkpoints), ground (arith, on, k.on))
  checkpoint-checkpoints false t on = (ground (arith, on), ground (arith, on))

  -- A rollback after the calls of a speculation.
  rolled_back :
      (include_current_inst : Bool) (t t2 : TaintTracker)
      → t.enable_tracking ≡ true
      → Kept (checkpoint desc include_current_inst t) t2
      → (t3 : TaintTracker) × (rollback desc t2 ≡ some t3)
        × (t3.dependencies ≡ saved include_current_inst t)
        × Kept t t3
  unfolding rollback
  rolled_back include_current_inst t t2 on k =
      let c = checkpoint-checkpoints include_current_inst t on in
      let s = settle-Kept t2 k.on in
      let top = k.same_checkpoints ∙ c.0 in
      (
        record (settle desc t2) {
          dependencies = saved include_current_inst t;
          checkpoints = t.checkpoints;
        },
        ground (arith, k.on, top),
        refl,
        record {
          same_checkpoints = refl;
          on = s.on;
          grows = λ x h. s.grows x (k.grows x (checkpoint-grows include_current_inst t on x h));
        },
      )

  pub Calls-Kept : {t t' : TaintTracker} → t.enable_tracking ≡ true → Calls t t' → Kept t t'
  Calls-Kept on (nothing t) = record { same_checkpoints = refl; on = on; grows = λ x h. h }
  Calls-Kept on (tracks t t1 t2 inst calls h) =
      let k = Calls-Kept on calls in Kept-trans t t1 t2 k (track-Kept inst t1 t2 k.on h)
  Calls-Kept on (accesses t t1 t2 address size is_write calls h) =
      let k = Calls-Kept on calls in
      Kept-trans t t1 t2 k (access-Kept address size is_write t1 t2 k.on h)
  Calls-Kept on (taints t t1 value_type calls) =
      let k = Calls-Kept on calls in
      Kept-trans t t1 (taint value_type t1) k (taint-Kept value_type t1 k.on)
  Calls-Kept on (speculates t t1 t2 t3 include_current_inst calls inner rolled) =
      let k = Calls-Kept on calls in
      let c = checkpoint-checkpoints include_current_inst t1 k.on in
      let k2 = Calls-Kept {t = checkpoint desc include_current_inst t1} {t' = t2} (c.1) inner in
      let (t3', run, same, kept) = rolled_back include_current_inst t1 t2 k.on k2 in
      let equal : t3' ≡ t3 = ground (arith, run, rolled) in
      subst (Kept t) equal (Kept-trans t t1 t3' k kept)

  -- If tracking is enabled, then after any calls of a speculation, whole speculations included, a
  -- rollback succeeds; it brings back the dependencies at the checkpoint (with those of the current
  -- instruction, if it was included) and the older checkpoints, and a label that was tainted at the
  -- checkpoint or in the speculation stays tainted.
  pub rollback-dependencies :
      (include_current_inst : Bool) (t t2 : TaintTracker) (x : Label)
      → t.enable_tracking ≡ true
      → Calls (checkpoint desc include_current_inst t) t2
      → (t3 : TaintTracker) × (rollback desc t2 ≡ some t3)
        × (t3.dependencies ≡ saved include_current_inst t)
        × (t3.checkpoints ≡ t.checkpoints)
        × ((not (is_in x t.tainted_labels || is_in x t2.tainted_labels)
              || is_in x t3.tainted_labels)
            ≡ true)
  unfolding rollback
  rollback-dependencies include_current_inst t t2 x on calls =
      let c = checkpoint-checkpoints include_current_inst t on in
      let k = Calls-Kept {t = checkpoint desc include_current_inst t} {t' = t2} (c.1) calls in
      let s = settle-Kept t2 k.on in
      let top = k.same_checkpoints ∙ c.0 in
      (
        record (settle desc t2) {
          dependencies = saved include_current_inst t;
          checkpoints = t.checkpoints;
        },
        ground (arith, k.on, top),
        refl,
        refl,
        stays (is_in x t.tainted_labels) (is_in x t2.tainted_labels)
            (is_in x (settle desc t2).tainted_labels)
            (λ h. s.grows x (k.grows x (checkpoint-grows include_current_inst t on x h)))
            (s.grows x),
      )
    where
      stays :
          (a b c : Bool)
          → (a ≡ true → c ≡ true)
          → (b ≡ true → c ≡ true)
          → (not (a || b) || c) ≡ true
      stays true b c f g = ground (arith, f refl)
      stays false true c f g = ground (arith, g refl)
      stays false false c f g = refl
