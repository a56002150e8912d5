-- ===== src/Analyser.antt =====
-- `EquivalenceAnalyserCommon.filter_violations` of rvzr/analyser.py, over the method
-- `htraces_are_equivalent` that each analyser brings.
pub mod Refinement
pub mod Detection
pub mod Pairs
pub mod Packaging
pub mod Bitmap
pub mod Sets
pub mod Counting
use side_channel_fuzzer.Prelude.{
  ℕ, suc, ◌+◌, ◌-◌, Bool, true, false, ◌||◌, Option, none, some, List, [], ◌∷◌, if◌then◌else◌,
  ◌>>=◌, leb, length, filter, get_elem?,
}
use side_channel_fuzzer.Stats.{FuzzingStats}
use side_channel_fuzzer.Traces.Contract.{CTrace, ctrace_lt}
use side_channel_fuzzer.Traces.Hardware.{HTrace, htrace_is_empty, is_corrupted_or_ignored}
use side_channel_fuzzer.Traces.Classes.{
  Comparison, TraceBundle, ContractEqClass, Violation, traverse, build_hw_classes,
  build_contract_classes, set_hw_classes, get_hw_classes, from_contract_eq_class,
}

module _ {I : Type 0} where
  -- The loop that packages the measurements; `i` is the counter of `enumerate`. A list that is too
  -- short is an IndexError.
  unfoldable pub package_from :
      List CTrace → List I → ℕ → List HTrace → Option (List (TraceBundle I))
  unfolding htrace_is_empty is_corrupted_or_ignored
  package_from ctraces inputs i [] = some []
  package_from ctraces inputs i (htrace ∷ htraces) =
      let rest = package_from ctraces inputs (suc i) htraces in
      if htrace_is_empty htrace || is_corrupted_or_ignored htrace then rest else (do
        input ← get_elem? inputs i
        ctrace ← get_elem? ctraces i
        ms ← rest
        some (record { input_id = i; input = input; ctrace = ctrace; htrace = htrace } ∷ ms))

  -- len(eq_cls.measurements) >= 2
  abbrev pub is_effective : ContractEqClass I → Bool
  is_effective c = leb 2 (length c.measurements)

  -- effective_classes.sort(key=lambda x: x.ctrace), a stable sort
  unfoldable pub sort_insert :
      ContractEqClass I → List (ContractEqClass I) → List (ContractEqClass I)
  unfolding ctrace_lt
  sort_insert c [] = c ∷ []
  sort_insert c (d ∷ ds) =
      let rest = sort_insert c ds in if ctrace_lt d.ctrace c.ctrace then d ∷ rest else c ∷ d ∷ ds

  unfoldable pub sort_by_ctrace : List (ContractEqClass I) → List (ContractEqClass I)
  sort_by_ctrace [] = []
  sort_by_ctrace (c ∷ cs) = sort_insert c (sort_by_ctrace cs)

  -- the counters, if `stats_` is set
  abbrev pub count_classes :
      Bool → List (ContractEqClass I) → List (ContractEqClass I) → FuzzingStats → FuzzingStats
  count_classes stats_ all_classes effective s =
      if stats_
      then record s {
        eff_classes = s.eff_classes + length effective;
        single_entry_classes = s.single_entry_classes + (length all_classes - length effective);
        analysed_test_cases = s.analysed_test_cases + 1;
      }
      else s

  module _ (compare : Comparison) where
    -- the loop that computes the hardware equivalence classes
    unfoldable pub assign_hw_classes : ContractEqClass I → Option (ContractEqClass I)
    unfolding set_hw_classes
    assign_hw_classes c = do hw ← build_hw_classes compare c.measurements; set_hw_classes hw c

    module _ {P : Type 0} (test_case_code : P) (inputs : List I) where
      -- the loop that collects the counterexamples
      unfoldable pub collect_violations : List (ContractEqClass I) → Option (List (Violation I P))
      unfolding get_hw_classes
      collect_violations [] = some []
      collect_violations (c ∷ cs) =
          let rest = collect_violations cs in
          do
            hw_classes ← get_hw_classes c
            if leb 2 (length hw_classes)
                then (do
                  v ← from_contract_eq_class c inputs test_case_code
                  vs ← rest
                  some (v ∷ vs))
                else rest

      -- the body behind the early returns
      unfoldable pub analyse :
          Bool → List (TraceBundle I) → FuzzingStats → Option (List (Violation I P) × FuzzingStats)
      analyse stats_ measurements stat = do
        all_classes ← build_contract_classes measurements
        let effective = sort_by_ctrace (filter is_effective all_classes)
        classes ← traverse assign_hw_classes effective
        violations ← collect_violations classes
        some (violations, count_classes stats_ all_classes effective stat)

      unfoldable pub analyse_nonempty :
          Bool → List (TraceBundle I) → FuzzingStats → Option (List (Violation I P) × FuzzingStats)
      analyse_nonempty stats_ [] stat = some ([], stat)
      analyse_nonempty stats_ (m ∷ ms) stat = analyse stats_ (m ∷ ms) stat

    -- EquivalenceAnalyserCommon.filter_violations
    unfoldable pub filter_violations :
        {P : Type 0}
        → List CTrace
        → List HTrace
        → P
        → List I
        → Bool
        → FuzzingStats
        → Option (List (Violation I P) × FuzzingStats)
    unfolding analyse_nonempty
    filter_violations ctraces [] test_case_code inputs stats_ stat = some ([], stat)
    filter_violations ctraces (h ∷ hs) test_case_code inputs stats_ stat = do
      measurements ← package_from ctraces inputs 0 (h ∷ hs)
      analyse_nonempty test_case_code inputs stats_ measurements stat
