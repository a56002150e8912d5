-- ===== src/TaintTracker/Finalizing.antt =====
-- What _finalize_instruction keeps of every place, and what it adds to the tainted labels.
use side_channel_fuzzer.Prelude.{
  ◌≡◌, refl, ap, Bool, true, false, ◌&&◌, List, [], ◌∷◌, arith, Bool-cases, Option-cases, inl, inr,
  filter,
}
use side_channel_fuzzer.Prelude.Texts.{Text}
use side_channel_fuzzer.TaintTracker.Labels.{
  Label, name, text_key, label_key, is_in, find, is_in-filter, find-put,
}
use side_channel_fuzzer.TaintTracker.Propagation.{
  TargetDesc, TrackedInstruction, Dependencies, get_or_self, reg_deps, flag_deps, mem_deps,
  src_dependencies, add_dependencies, overrides, keep_only, remove_overwritten_dependencies,
}
use side_channel_fuzzer.TaintTracker.Flow.{
  Place, reg, flag, word, deps, is_source, is_dest, IsWithin, is_in-update_all, update_all-IsWithin,
  deps-add_dependencies, source-IsWithin,
}
use side_channel_fuzzer.TaintTracker.{
  TaintTracker, tainted_values, with_rep_count, finalize_instruction,
}

module _ (desc : TargetDesc) where
  -- a register that a move overwrites
  abbrev pub is_replaced : TrackedInstruction → Place → Bool
  is_replaced i (reg r) = overrides desc i && is_in r i.dest_regs
  is_replaced i (flag f) = false
  is_replaced i (word a) = false

  keep_only-keeps :
      (x : Label) (r : Text) (src : List Label) (ks : List Text) (d : List (Text × List Label))
      → is_in x (get_or_self (name r) (find r d)) ≡ true
      → is_in x src ≡ true
      → is_in x (get_or_self (name r) (find r (keep_only desc src ks d))) ≡ true
  keep_only-keeps x r src [] d h q = h
  keep_only-keeps x r src (k ∷ j ∷ ks) d h q = h
  keep_only-keeps x r src (k ∷ []) d h q = elim (Option-cases (find k d)) [
    | inl absent ↦ rw absent h
    | inr (s, present) ↦
        rw (present, find-put k r (filter (λ dep. is_in dep src) s) d)
          (elim (Bool-cases (text_key.same k r)) [
            | inl same ↦
                rw (same, is_in-filter x (λ dep. is_in dep src) s)
                  (ground (
                    arith,
                    ap (λ z. is_in x (get_or_self (name z) (find z d))) (text_key.same→eq k r same),
                  ))
            | inr other ↦ rw other h
          ])
  ]

  keep_only-elsewhere :
      (r : Text) (src : List Label) (ks : List Text) (d : List (Text × List Label))
      → is_in r ks ≡ false
      → find r (keep_only desc src ks d) ≡ find r d
  unfolding is_in
  keep_only-elsewhere r src [] d h = refl
  keep_only-elsewhere r src (k ∷ j ∷ ks) d h = refl
  keep_only-elsewhere r src (k ∷ []) d h = elim (Option-cases (find k d)) [
    | inl absent ↦ rw absent
    | inr (s, present) ↦
        rw (present, find-put k r (filter (λ dep. is_in dep src) s) d) (ground arith)
  ]

  -- The labels that are among those of the sources stay with every place.
  sources-stay :
      (x : Label) (src : List Label) (i : TrackedInstruction) (d : Dependencies) (l : Place)
      → is_in x (deps d l) ≡ true
      → is_in x src ≡ true
      → is_in x (deps (remove_overwritten_dependencies desc src i d) l) ≡ true
  unfolding remove_overwritten_dependencies reg_deps flag_deps mem_deps
  sources-stay x src i d (reg r) h q = elim (Bool-cases (overrides desc i)) [
    | inl yes_ ↦ rw yes_ (keep_only-keeps x r src i.dest_regs d.reg h q)
    | inr no_ ↦ rw no_ h
  ]
  sources-stay x src i d (flag f) h q = ground arith
  sources-stay x src i d (word a) h q = ground arith

  -- All labels stay with a place that is not replaced.
  others-stay :
      (x : Label) (src : List Label) (i : TrackedInstruction) (d : Dependencies) (l : Place)
      → is_replaced i l ≡ false
      → is_in x (deps d l) ≡ true
      → is_in x (deps (remove_overwritten_dependencies desc src i d) l) ≡ true
  unfolding remove_overwritten_dependencies reg_deps flag_deps mem_deps
  others-stay x src i d (reg r) h q = elim (Bool-cases (overrides desc i)) [
    | inl yes_ ↦ rw (yes_, keep_only-elsewhere r src i.dest_regs d.reg (ground arith)) q
    | inr no_ ↦ rw no_ q
  ]
  others-stay x src i d (flag f) h q = ground arith
  others-stay x src i d (word a) h q = ground arith

  module _ (i : TrackedInstruction) (t : TaintTracker) where
    -- A destination has the labels of every source.
    pub finalize-sources :
        (l m : Place)
        → is_dest i l ≡ true
        → is_source i m ≡ true
        → IsWithin (deps t.dependencies m) (deps (finalize_instruction desc i t).dependencies l)
    unfolding finalize_instruction
    finalize-sources l m dest source x h =
        sources-stay x (src_dependencies t.dependencies i) i (add_dependencies i t.dependencies) l
          (ground (
            arith,
            deps-add_dependencies x i t.dependencies l,
            source-IsWithin i t.dependencies m source x h,
          ))
          (source-IsWithin i t.dependencies m source x h)

    -- A place that is not replaced keeps its labels.
    pub finalize-keeps :
        (l : Place)
        → is_replaced i l ≡ false
        → IsWithin (deps t.dependencies l) (deps (finalize_instruction desc i t).dependencies l)
    unfolding finalize_instruction
    finalize-keeps l other x h =
        others-stay x (src_dependencies t.dependencies i) i (add_dependencies i t.dependencies) l
          other (ground (arith, deps-add_dependencies x i t.dependencies l))

    -- The tainted labels grow.
    pub finalize-grows : IsWithin t.tainted_labels (finalize_instruction desc i t).tainted_labels
    unfolding finalize_instruction
    finalize-grows x h = ground (
      arith,
      is_in-update_all x (tainted_values (add_dependencies i t.dependencies))
          (with_rep_count i t.pending_taint) t.tainted_labels,
    )

    -- The labels of a register that is observed are tainted, those of before the instruction and,
    -- if no move replaces it, those of after it.
    pub finalize-taints :
        (r : Text)
        → is_in (name r) (with_rep_count i t.pending_taint) ≡ true
        → IsWithin (deps t.dependencies (reg r)) (finalize_instruction desc i t).tainted_labels
    unfolding finalize_instruction
    finalize-taints r pending x h =
        update_all-IsWithin (tainted_values (add_dependencies i t.dependencies))
          (with_rep_count i t.pending_taint) t.tainted_labels (name r) pending x
          (unfold tainted_values in
            ground (arith, deps-add_dependencies x i t.dependencies (reg r)))

    pub finalize-taints_sources :
        (r : Text) (m : Place)
        → is_in (name r) (with_rep_count i t.pending_taint) ≡ true
        → is_in r i.dest_regs ≡ true
        → is_source i m ≡ true
        → IsWithin (deps t.dependencies m) (finalize_instruction desc i t).tainted_labels
    unfolding finalize_instruction
    finalize-taints_sources r m pending dest source x h =
        update_all-IsWithin (tainted_values (add_dependencies i t.dependencies))
          (with_rep_count i t.pending_taint) t.tainted_labels (name r) pending x
          (unfold tainted_values in
            ground (
              arith,
              deps-add_dependencies x i t.dependencies (reg r),
              source-IsWithin i t.dependencies m source x h,
            ))
