-- ===== src/Traces/Classes/HwSplit.antt =====
-- The loop of `build_hw_classes`, with its dictionary keyed by hashes, against the plain grouping
-- by the first equivalent representative.
use side_channel_fuzzer.Prelude.{
  ℕ, ◌≡◌, refl, Bool, true, none, some, List, [], ◌∷◌, ◌++◌, map, arith, inl, inr, All,
  Option-cases,
}
use side_channel_fuzzer.Prelude.Dict.{hash_key, put, put-append, values}
use side_channel_fuzzer.Grouping.{
  Group, reps, keyed, insert, group_from, find, Separate, Separate-insert, AllValid-insert,
  keyed-insert_new, append_to-insert, has_of_find-none,
}
use side_channel_fuzzer.Grouping.Members.{Headed, Headed-group_from}
use side_channel_fuzzer.Traces.Hardware.{HTrace}
use side_channel_fuzzer.Traces.Classes.{
  Comparison, TraceBundle, HardwareEqClass, traverse, hw_init, find_equivalent, hw_step, hw_loop,
  build_hw_classes,
}

abbrev pub htrace_of : {I : Type 0} → TraceBundle I → HTrace
htrace_of m = m.htrace

-- the key of a trace in the dictionary
abbrev pub htrace_key : HTrace → ℕ
htrace_key t = hash_key t.hash

abbrev pub HwGroup : Type 0 → Type 0
HwGroup I = Group HTrace (TraceBundle I)

abbrev pub hw_class_of : {I : Type 0} → HwGroup I → HardwareEqClass I
hw_class_of g = record { htrace = g.0; measurements = g.1 }

module _ {I : Type 0} (eqv : HTrace → HTrace → Bool) where
  -- Each measurement joins the first class whose hardware trace is equivalent to its own.
  abbrev pub hw_grouping : List (TraceBundle I) → List (HwGroup I)
  hw_grouping ms = group_from htrace_of eqv [] ms

traverse-hw_init :
    {I : Type 0} (gs : List (HwGroup I))
    → Headed htrace_of gs
    → traverse hw_init (values (keyed htrace_key gs)) ≡ some (map hw_class_of gs)
unfolding traverse hw_init
traverse-hw_init [] h = refl
traverse-hw_init ((r, []) ∷ gs) h = absurd h
traverse-hw_init ((r, m ∷ ms) ∷ gs) h = rw (traverse-hw_init gs h.1, h.0)

module _ {I : Type 0} (eqv : HTrace → HTrace → Bool) where
  reps-insert_new :
      (m : TraceBundle I) (gs : List (HwGroup I))
      → find eqv m.htrace (reps gs) ≡ none
      → reps (insert htrace_of eqv m gs) ≡ reps gs ++ m.htrace ∷ []
  unfolding find insert
  reps-insert_new m [] h = refl
  reps-insert_new m ((r, ms) ∷ gs) h = ground (arith, reps-insert_new m gs)

  reps-insert_old :
      (m : TraceBundle I) (d : HTrace) (gs : List (HwGroup I))
      → find eqv m.htrace (reps gs) ≡ some d
      → reps (insert htrace_of eqv m gs) ≡ reps gs
  unfolding find insert
  reps-insert_old m d [] h = cc
  reps-insert_old m d ((r, ms) ∷ gs) h = ground (arith, reps-insert_old m d gs)

  module _ (compare : Comparison) (Valid : HTrace → Type 0)
      (decided : (x y : HTrace) → Valid x → Valid y → compare x y ≡ some (eqv x y))
      (congruent : (x y : HTrace)
        → Valid x
        → Valid y
        → htrace_key x ≡ htrace_key y
        → eqv x y ≡ true) where
    find_equivalent-find :
        (t : HTrace) (gs : List (HwGroup I))
        → Valid t
        → All (λ g. Valid g.0) gs
        → find_equivalent compare t (reps gs) ≡ some (find eqv t (reps gs))
    unfolding find_equivalent find
    find_equivalent-find t [] v w = refl
    find_equivalent-find t ((d, ms) ∷ gs) v w =
        ground (arith, decided t d v w.0, find_equivalent-find t gs v w.1)

    abbrev state : List (HwGroup I) → List (ℕ × List (TraceBundle I)) × List HTrace
    state gs = (keyed htrace_key gs, reps gs)

    hw_step-insert :
        (m : TraceBundle I) (gs : List (HwGroup I))
        → Valid m.htrace
        → All (λ g. Valid g.0) gs
        → Separate htrace_key gs
        → hw_step compare (state gs) m ≡ some (state (insert htrace_of eqv m gs))
    unfolding hw_step
    hw_step-insert m [] v w s = unfold put insert in refl
    hw_step-insert m (g ∷ gs) v w s = elim (Option-cases (find eqv m.htrace (reps (g ∷ gs)))) [
      | inl new ↦ ground (
        arith,
        find_equivalent-find m.htrace (g ∷ gs) v w,
        keyed-insert_new htrace_key htrace_of eqv m (g ∷ gs) new,
        reps-insert_new m (g ∷ gs) new,
        put-append (htrace_key m.htrace) (m ∷ []) (keyed htrace_key (g ∷ gs)),
        has_of_find-none htrace_key htrace_of eqv Valid congruent m.htrace (g ∷ gs) v w new,
      )
      | inr (d, old) ↦ ground (
        arith,
        find_equivalent-find m.htrace (g ∷ gs) v w,
        append_to-insert htrace_key htrace_of eqv m d (g ∷ gs) s old,
        reps-insert_old m d (g ∷ gs) old,
      )
    ]

    abbrev pub AllMeasured : List (TraceBundle I) → Type 0
    AllMeasured ms = All (λ m. Valid m.htrace) ms

    hw_loop-group_from :
        (gs : List (HwGroup I)) (ms : List (TraceBundle I))
        → AllMeasured ms
        → All (λ g. Valid g.0) gs
        → Separate htrace_key gs
        → hw_loop compare (state gs) ms ≡ some (state (group_from htrace_of eqv gs ms))
    unfolding hw_loop group_from
    hw_loop-group_from gs [] v w s = refl
    hw_loop-group_from gs (m ∷ ms) v w s = rw (hw_step-insert m gs v.0 w s) (
        hw_loop-group_from (insert htrace_of eqv m gs) ms v.1
          (AllValid-insert htrace_key htrace_of eqv Valid congruent m gs v.0 w)
          (Separate-insert htrace_key htrace_of eqv Valid congruent m gs v.0 w s))

    -- On traces that the comparison decides, and takes as equivalent when they have one key in the
    -- dictionary, the loop loses nothing: it does not raise, and the classes are the groups by the
    -- first equivalent hardware trace.
    pub build_hw_classes_lem :
        (ms : List (TraceBundle I))
        → AllMeasured ms
        → build_hw_classes compare ms ≡ some (map hw_class_of (hw_grouping eqv ms))
    unfolding build_hw_classes
    build_hw_classes_lem ms v =
        rw (hw_loop-group_from [] ms v tt tt)
          (traverse-hw_init (hw_grouping eqv ms) (Headed-group_from htrace_of eqv [] ms tt))
