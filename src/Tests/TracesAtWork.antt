-- ===== src/Tests/TracesAtWork.antt =====
-- Classes, the analysers and their caches at concrete traces.
use side_channel_fuzzer.Prelude.{
  ℕ, ◌≡◌, ◌≢◌, ◌<◌, ◌^◌, refl, ap, sym, ◌∙◌, true, false, none, some, List, [], ◌∷◌, map, filter,
  any, All, arith, eq→==, replicate,
}
use side_channel_fuzzer.Prelude.Dict.{Dict, get, hash_key, hash_key_small}
use side_channel_fuzzer.Stats.{FuzzingStats, zero_stats}
use side_channel_fuzzer.Traces.Contract.{CTrace, ctrace_init}
use side_channel_fuzzer.Traces.Hardware.{
  HTrace, htrace_init, htrace_eq, get_raw_traces, sample_size, htrace_is_empty,
  is_corrupted_or_ignored,
}
use side_channel_fuzzer.Traces.Classes.{
  TraceBundle, Violation, default_eq_function, build_hw_classes, build_contract_classes,
}
use side_channel_fuzzer.Traces.Classes.HwSplit.{
  htrace_key, build_hw_classes_lem, hw_class_of, hw_grouping,
}
use side_channel_fuzzer.Traces.Classes.CtSplit.{
  ctrace_key, build_contract_classes_lem, ct_class_of, ct_grouping,
}
use side_channel_fuzzer.Traces.Classes.Collision.{contract_collision}
use side_channel_fuzzer.Analyser.{package_from, filter_violations, analyse, count_classes}
use side_channel_fuzzer.Analyser.Refinement.{
  is_exposed, analyse_lem, effective_classes, is_counterexample, violation_of,
}
use side_channel_fuzzer.Analyser.Detection.{with_digest, has_digest, filter_violations-reports}
use side_channel_fuzzer.Analyser.Pairs.{IsEquivalence, has_different_pair, filter_violations-pairs}
use side_channel_fuzzer.Analyser.Bitmap.{
  AnalyserConf, IsCoherent, bitmap, bitmaps_are_equivalent, same_bitmap, bitmaps_are_equivalent_lem,
}
use side_channel_fuzzer.Analyser.Sets.{same_set, small_values_are_lost}
use side_channel_fuzzer.Tests.{
  test_digest, test_digest_injective, hw, two_contracts, two_traces, three_inputs, three_bundles,
}

-- traces whose digest is a key of its own
abbrev IsSmall : HTrace → Type 0
IsSmall t = t.hash < 2 ^ 63

htrace_eq-congruent :
    (x y : HTrace) → IsSmall x → IsSmall y → htrace_key x ≡ htrace_key y → htrace_eq x y ≡ true
unfolding htrace_eq
htrace_eq-congruent x y u v h =
    eq→== x.hash y.hash (sym (hash_key_small x.hash u) ∙ h ∙ hash_key_small y.hash v)

decided : (x y : HTrace) → IsSmall x → IsSmall y → default_eq_function x y ≡ some (htrace_eq x y)
unfolding default_eq_function
decided x y u v = refl

htrace_eq-IsEquivalence : IsEquivalence IsSmall htrace_eq
unfolding htrace_eq
htrace_eq-IsEquivalence = record {
  congruent = htrace_eq-congruent;
  symmetric = λ x y u v h. ground arith;
  transitive = λ x y z u v w h k. ground arith;
}

abbrev IsSound : CTrace → Type 0
IsSound t = t.hash < 2 ^ 63

injective : (x y : CTrace) → IsSound x → IsSound y → ctrace_key x ≡ ctrace_key y → x.hash ≡ y.hash
injective x y u v h = sym (hash_key_small x.hash u) ∙ h ∙ hash_key_small y.hash v

All-IsSound : All (λ (m : TraceBundle ℕ). IsSound m.ctrace) three_bundles
unfolding ctrace_init
All-IsSound = (omega arith, (omega arith, (omega arith, tt)))

All-valid : All (λ (m : TraceBundle ℕ). IsSmall m.htrace) three_bundles
unfolding htrace_init
All-valid = (omega arith, (omega arith, (omega arith, tt)))

abbrev program : ℕ
program = 7

packaged : package_from two_contracts three_inputs 0 two_traces ≡ some three_bundles
unfolding package_from ctrace_init htrace_init htrace_is_empty is_corrupted_or_ignored
packaged = refl

filter_violations-pairs_example :
    (vs : List (Violation ℕ ℕ)) × (stat' : FuzzingStats) × (filter_violations default_eq_function
        two_contracts two_traces program three_inputs true zero_stats
      ≡ some (vs, stat'))
    × ((h : ℕ) → any (has_digest h) vs ≡ has_different_pair htrace_eq (with_digest h three_bundles))
filter_violations-pairs_example =
    filter_violations-pairs htrace_eq IsSmall htrace_eq-IsEquivalence default_eq_function decided
      IsSound injective program two_contracts two_traces three_inputs true zero_stats three_bundles
      packaged All-valid All-IsSound

filter_violations-reports_example :
    (vs : List (Violation ℕ ℕ)) × (stat' : FuzzingStats) × (filter_violations default_eq_function
        two_contracts two_traces program three_inputs true zero_stats
      ≡ some (vs, stat'))
    × ((h : ℕ) → any (has_digest h) vs ≡ is_exposed htrace_eq (with_digest h three_bundles))
filter_violations-reports_example =
    filter_violations-reports htrace_eq default_eq_function IsSmall decided htrace_eq-congruent
      IsSound injective program two_contracts two_traces three_inputs true zero_stats three_bundles
      packaged All-valid All-IsSound

build_hw_classes_example :
    build_hw_classes default_eq_function three_bundles
    ≡ some (map hw_class_of (hw_grouping htrace_eq three_bundles))
build_hw_classes_example =
    build_hw_classes_lem htrace_eq default_eq_function IsSmall decided htrace_eq-congruent
      three_bundles All-valid

build_contract_classes_example :
    build_contract_classes three_bundles ≡ some (map ct_class_of (ct_grouping three_bundles))
build_contract_classes_example =
    build_contract_classes_lem IsSound injective three_bundles All-IsSound

-- a measurement whose contract trace has the digest
abbrev with_contract : ℕ → TraceBundle ℕ
with_contract h = record {
  input_id = 0;
  input = 0;
  ctrace = record { trace = []; untyped = []; hash = h; printed_as_l1d_map = false };
  htrace = hw (5 ∷ []);
}

abbrev colliding : List (TraceBundle ℕ)
colliding = with_contract 4 ∷ with_contract 7 ∷ with_contract (2 ^ 63) ∷ []

digests_differ : 4 ≢ 2 ^ 63
digests_differ h = omega arith

contract_collision_example : build_contract_classes colliding ≡ none
unfolding hash_key
contract_collision_example = contract_collision colliding 4 (2 ^ 63) refl refl refl digests_differ

analyse_example :
    analyse default_eq_function program three_inputs true three_bundles zero_stats
    ≡ some (
      map
          (violation_of htrace_eq program three_inputs)
          (filter (is_counterexample htrace_eq) (effective_classes three_bundles)),
      count_classes true
          (map ct_class_of (ct_grouping three_bundles))
          (effective_classes three_bundles)
          zero_stats,
    )
analyse_example =
    analyse_lem htrace_eq default_eq_function IsSmall decided htrace_eq-congruent IsSound injective
      program three_inputs true three_bundles zero_stats All-valid All-IsSound

abbrev strict : AnalyserConf
strict = record { outliers_num = 1; outliers_den = 10; subsets_is_violation = true }

-- traces with the digest of their samples, which is a key of its own
abbrev IsKnown : HTrace → Type 0
IsKnown t = (t.hash ≡ test_digest (get_raw_traces t)) × (t.hash < 2 ^ 63)

no_collision :
    (x y : HTrace)
    → IsKnown x
    → IsKnown y
    → hash_key x.hash ≡ hash_key y.hash
    → bitmap strict (get_raw_traces x) ≡ bitmap strict (get_raw_traces y)
no_collision x y u v h =
    let same : x.hash ≡ y.hash = sym (hash_key_small x.hash u.1) ∙ h ∙ hash_key_small y.hash v.1 in
    ap (bitmap strict)
      (test_digest_injective (get_raw_traces x) (get_raw_traces y) (sym u.0 ∙ same ∙ v.0))

empty_cache : IsCoherent strict IsKnown []
empty_cache = record { entry = λ t b k h. absurd (unfold get in cc) }

bitmaps_are_equivalent_example :
    (cache' : Dict ℕ) × (bitmaps_are_equivalent strict [] (hw (5 ∷ 6 ∷ [])) (hw (5 ∷ 5 ∷ []))
      ≡ some (same_bitmap strict (hw (5 ∷ 6 ∷ [])) (hw (5 ∷ 5 ∷ [])), cache'))
    × IsCoherent strict IsKnown cache'
unfolding htrace_init get_raw_traces sample_size
bitmaps_are_equivalent_example =
    bitmaps_are_equivalent_lem strict IsKnown no_collision [] (hw (5 ∷ 6 ∷ [])) (hw (5 ∷ 5 ∷ []))
      empty_cache (refl, omega arith) (refl, omega arith) refl

-- With a threshold of 1/2 and six samples, 1 and 2 lie below it.
abbrev half : AnalyserConf
half = record { outliers_num = 1; outliers_den = 2; subsets_is_violation = true }

small_values_are_lost_example : same_set half (hw (replicate 6 1)) (hw (replicate 6 2)) ≡ true
unfolding htrace_init get_raw_traces
small_values_are_lost_example =
    small_values_are_lost half 6 1 2 (hw (replicate 6 1)) (hw (replicate 6 2)) refl refl
      (omega arith) (omega arith)
