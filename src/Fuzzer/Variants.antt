-- ===== src/Fuzzer/Variants.antt =====
-- The classes of fuzzers: the standard one for x86 and ARM64, and `ArchitecturalFuzzer` and
-- `ArchDiffFuzzer` of rvzr/fuzzer.py, with the pseudo-violation of rvzr/traces.py.
pub mod Laws
use side_channel_fuzzer.Prelude.{
  ℕ, suc, Bool, true, false, Option, none, some, List, [], ◌∷◌, map, ◌>>=◌,
}
use side_channel_fuzzer.Stats.{FuzzingStats}
use side_channel_fuzzer.Traces.Contract.{ctrace_init, empty_ctrace}
use side_channel_fuzzer.Traces.Hardware.{HTrace, RawHTraceSample, cache, empty_trace}
use side_channel_fuzzer.Traces.Classes.{
  TraceBundle, HardwareEqClass, Violation, traverse, hw_init, violation_init, set_hw_classes,
}
use side_channel_fuzzer.Fuzzer.{FuzzConf, Modules, RoundManager, round_manager_init}
use side_channel_fuzzer.Fuzzer.Priming.{head?}
use side_channel_fuzzer.Fuzzer.Mismatch.{list_eq, check_for_architectural_mismatch}
use side_channel_fuzzer.Fuzzer.Round.{arch_mismatch, execute_stage, fuzzing_round}
use side_channel_fuzzer.Fuzzer.Campaign.{Hooks}
use side_channel_fuzzer.Fuzzer.Filtering.{FilterConf, FilterModules, filter_x86, filter_arm64}

module _ {I : Type 0} (digest : List ℕ → ℕ) where
  unfoldable pub pseudo_bundles : ℕ → List I → List (TraceBundle I)
  unfolding empty_trace ctrace_init
  pseudo_bundles i [] = []
  pseudo_bundles i (input ∷ rest) =
      record {
        input_id = i;
        input = input;
        ctrace = empty_ctrace digest;
        htrace = empty_trace digest cache;
      }
      ∷ pseudo_bundles (suc i) rest

  -- Violation.pseudo_violation_from_inputs
  unfoldable pub pseudo_violation_from_inputs : {P : Type 0} → List I → P → Option (Violation I P)
  unfolding pseudo_bundles hw_init traverse violation_init set_hw_classes
  pseudo_violation_from_inputs inputs p = do
    let measurements : List (TraceBundle I) = pseudo_bundles 0 inputs
    hw ← traverse (λ b. hw_init (b ∷ [])) measurements
    v ← violation_init measurements inputs p
    c ← set_hw_classes hw v.eq_class
    some (record v { eq_class = c })

-- htrace.get_raw_readings()[0].tolist()
unfoldable pub first_reading : HTrace → Option (List ℕ)
first_reading t = do
  s ← head? t.raw
  some (s.trace ∷ s.pfc0 ∷ s.pfc1 ∷ s.pfc2 ∷ s.pfc3 ∷ s.pfc4 ∷ [])

module _ {I T P W : Type 0} (m : Modules I T P W) (conf : FuzzConf) where
  -- Fuzzer.fuzzing_round as the loop calls it
  unfoldable pub standard_round :
      Bool → P → List I → W → FuzzingStats → Option (Option (Violation I P) × W × FuzzingStats)
  standard_round is_speculative p inputs w s = do
    (v, r) ← fuzzing_round m conf is_speculative p inputs [] w s
    some (v, r.world, r.stat)

  -- X86Fuzzer and ARM64Fuzzer
  abbrev pub fuzzer_x86 : FilterModules I P W → FilterConf → Bool → Hooks I P W
  fuzzer_x86 f filter_conf is_speculative = record {
    is_filtered = filter_x86 f filter_conf;
    run_round = standard_round is_speculative;
  }

  abbrev pub fuzzer_arm64 : FilterModules I P W → FilterConf → Bool → Hooks I P W
  fuzzer_arm64 f filter_conf is_speculative = record {
    is_filtered = filter_arm64 f filter_conf;
    run_round = standard_round is_speculative;
  }

  -- Fuzzer._filter
  abbrev pub no_filter : P → List I → W → FuzzingStats → Option (Bool × W × FuzzingStats)
  no_filter p inputs w s = some (false, w, s)

  -- ArchitecturalFuzzer.fuzzing_round
  unfoldable pub architectural_round :
      Bool → P → List I → W → FuzzingStats → Option (Option (Violation I P) × W × FuzzingStats)
  unfolding execute_stage
  architectural_round is_speculative p inputs w s = do
    r ← round_manager_init m conf is_speculative p inputs w s
    r1 ← execute_stage m conf arch_mismatch r
    some (head? r1.arch_violations, r1.world, r1.stat)

  abbrev pub architectural_fuzzer : Bool → Hooks I P W
  architectural_fuzzer is_speculative = record {
    is_filtered = no_filter;
    run_round = architectural_round is_speculative;
  }

  -- `arch_executor.load_test_case`, and the fenced program
  module _ (arch_executor_load : P → W → W) (create_fenced_test_case : P → W → Option (P × W)) where
    -- the loop that compares the readings; a missing one raises
    unfoldable pub first_difference :
        P → List I → List (List ℕ) → List (List ℕ) → Option (Option (Violation I P))
    unfolding list_eq
    first_difference p [] fenced plain = some none
    first_difference p (input ∷ inputs) (f ∷ fenced) (r ∷ plain) =
        let rest = first_difference p inputs fenced plain in
        elim (list_eq f r) [
          | true ↦ rest
          | false ↦ do v ← pseudo_violation_from_inputs m.digest (input ∷ []) p; some (some v)
        ]
    first_difference p (input ∷ inputs) _ _ = none

    -- behind the measurement with fences
    unfoldable pub compare_readings :
        P
        → List I
        → List (List ℕ)
        → Option (List HTrace)
        → W
        → FuzzingStats
        → Option (Option (Violation I P) × W × FuzzingStats)
    unfolding first_reading traverse
    compare_readings p inputs plain none w s = some (none, w, s)
    compare_readings p inputs plain (some htraces) w s = do
      fenced ← traverse first_reading htraces
      v ← first_difference p inputs fenced plain
      some (v, w, s)

    -- behind the measurement without fences
    unfoldable pub measure_fenced :
        P
        → List I
        → Option (List HTrace)
        → W
        → FuzzingStats
        → Option (Option (Violation I P) × W × FuzzingStats)
    unfolding first_reading traverse
    measure_fenced p inputs none w s = some (none, w, s)
    measure_fenced p inputs (some htraces) w s = do
      plain ← traverse first_reading htraces
      (fenced, w1) ← create_fenced_test_case p w
      let (traced, w2) = m.arch_trace_hardware inputs 1 (arch_executor_load fenced w1)
      compare_readings p inputs plain traced w2 s

    -- ArchDiffFuzzer.fuzzing_round
    unfoldable pub arch_diff_round :
        P → List I → W → FuzzingStats → Option (Option (Violation I P) × W × FuzzingStats)
    arch_diff_round p inputs w s =
        let (traced, w1) = m.arch_trace_hardware inputs 1 (arch_executor_load p w) in
        measure_fenced p inputs traced w1 s

    abbrev pub arch_diff_fuzzer : Hooks I P W
    arch_diff_fuzzer = record { is_filtered = no_filter; run_round = arch_diff_round }
