-- ===== src/Tests/RoundAtWork.antt =====
-- A fuzzing round at work, with a machine that leaks, and the analyser of the development.
use side_channel_fuzzer.Prelude.{
  ℕ, ◌+◌, ◌≤◌, ◌≡◌, refl, Bool, true, false, Option, none, some, List, [], ◌∷◌, ◌++◌, map, arith,
  if◌then◌else◌, ◌⊎◌, ◌==◌,
}
use side_channel_fuzzer.Stats.{zero_stats}
use side_channel_fuzzer.Traces.Contract.{ctrace_init}
use side_channel_fuzzer.Traces.Hardware.{HTrace, htrace_init, htrace_eq}
use side_channel_fuzzer.Traces.Classes.{
  default_eq_function, TraceBundle, HardwareEqClass, ContractEqClass, Violation,
}
use side_channel_fuzzer.Analyser.{filter_violations}
use side_channel_fuzzer.Analyser.Counting.{filter_violations-CountedOnce}
use side_channel_fuzzer.Fuzzer.{
  FuzzConf, Modules, RoundState, RoundManager, round_manager_init, round_state_init,
}
use side_channel_fuzzer.Fuzzer.Priming.{priming_check, prime_violation}
use side_channel_fuzzer.Fuzzer.Priming.LastOnly.{priming_check-last}
use side_channel_fuzzer.Fuzzer.Round.{
  Verdict, fuzzing_round, run_stages, stage_then, mismatch_then, execute_stage, fast_stage,
  nesting_stage, taint_mistake_stage, priming_stage, noise_stage, priming_large_stage,
}
use side_channel_fuzzer.Fuzzer.Mismatch.{check_for_architectural_mismatch}
use side_channel_fuzzer.Fuzzer.Stages.{
  normal_stage, boost_inputs, collect_ctraces, traced_stage, store_htraces, check_stage,
  check_violations, update_ignore_list,
}
use side_channel_fuzzer.Fuzzer.Round.Tally.{discarded, outer, CountsOnce}
use side_channel_fuzzer.Fuzzer.Round.Ending.{Ending, fuzzing_round-Ending}
use side_channel_fuzzer.Tests.{test_digest, hw, two_contracts, two_traces, three_inputs, bundle}

-- The hardware trace shows whether the input is 11.
abbrev trace_of : ℕ → HTrace
trace_of input = if input == 11 then hw (6 ∷ []) else hw (5 ∷ [])

-- The world counts the measurements.
abbrev pub machine : Modules ℕ ℕ ℕ ℕ
machine = record {
  load_test_case = λ p w. w;
  trace_test_case = λ inputs nesting w. (two_contracts, w);
  trace_test_case_with_taints = λ inputs nesting w. ((two_contracts, []), w);
  generate_boosted = λ inputs taints n w. (inputs, w);
  trace_hardware = λ inputs n_reps w. (some (map trace_of inputs), w + 1);
  set_ignore_list = λ l w. w;
  extend_ignore_list = λ l w. w;
  filter_violations = λ ctraces htraces p inputs stats_ s.
      filter_violations default_eq_function ctraces htraces p inputs stats_ s;
  htraces_are_equivalent = htrace_eq;
  digest = test_digest;
  arch_load_test_case = λ p w. w;
  arch_trace_hardware = λ inputs n_reps w. (none, w);
  arch_trace_test_case = λ inputs nesting w. ([], w);
}

abbrev pub conf : FuzzConf
conf = record {
  first_sample_size = 1;
  more_sample_sizes = [];
  inputs_per_class = 1;
  enable_priming = true;
  enable_fast_path_model = true;
  model_min_nesting = 1;
  model_max_nesting = 2;
}

pub machine-CountsOnce : CountsOnce machine
machine-CountsOnce = record {
  counted = λ ctraces htraces p inputs stats_ s s' vs h.
      let c =
        filter_violations-CountedOnce default_eq_function p inputs ctraces htraces stats_ s s' vs
          h in
      (c.same_discarded, c.analysed, c.same_outer);
}

-- what the round returns on this machine
abbrev result : Option (Verdict ℕ ℕ ℕ)
result = fuzzing_round machine conf true 7 three_inputs [] 0 zero_stats

abbrev pub is_some : {A : Type 0} → Option A → Bool
is_some none = false
is_some (some a) = true

pub from_nothing : {A : Type 0} → false ≡ true → A
from_nothing h = absurd (cc)

abbrev pub get_some : {A : Type 0} (o : Option A) → is_some o ≡ true → A
get_some none h = from_nothing h
get_some (some a) h = a

pub some-get_some : {A : Type 0} (o : Option A) (h : is_some o ≡ true) → o ≡ some (get_some o h)
some-get_some none h = absurd (ground arith)
some-get_some (some a) h = refl

returns : is_some result ≡ true
unfolding fuzzing_round round_manager_init round_state_init run_stages stage_then mismatch_then
    execute_stage fast_stage nesting_stage taint_mistake_stage priming_stage noise_stage
    priming_large_stage normal_stage boost_inputs collect_ctraces traced_stage store_htraces
    check_stage check_violations update_ignore_list filter_violations
    side_channel_fuzzer.Traces.Classes.default_eq_function side_channel_fuzzer.Prelude.Dict.hash_key
    htrace_eq htrace_init ctrace_init check_for_architectural_mismatch priming_check prime_violation
    side_channel_fuzzer.Analyser.package_from side_channel_fuzzer.Analyser.analyse
    side_channel_fuzzer.Traces.Classes.build_contract_classes side_channel_fuzzer.Prelude.Dict.has
    side_channel_fuzzer.Prelude.Dict.put side_channel_fuzzer.Grouping.append_to
    side_channel_fuzzer.Prelude.Dict.get side_channel_fuzzer.Traces.Classes.same_ctrace
    side_channel_fuzzer.Analyser.sort_by_ctrace side_channel_fuzzer.Analyser.sort_insert
    side_channel_fuzzer.Analyser.assign_hw_classes
    side_channel_fuzzer.Traces.Classes.build_hw_classes
    side_channel_fuzzer.Traces.Classes.find_equivalent
    side_channel_fuzzer.Analyser.collect_violations
    side_channel_fuzzer.Traces.Classes.from_contract_eq_class
returns = refl

abbrev final : Verdict ℕ ℕ ℕ
final = get_some result returns

fuzzing_round-Ending_example :
    Ending (discarded zero_stats) final.0 final.1
    × (final.1.stat.analysed_test_cases ≤ zero_stats.analysed_test_cases + 1)
    × (outer final.1.stat ≡ outer zero_stats)
fuzzing_round-Ending_example =
    fuzzing_round-Ending machine conf machine-CountsOnce true 7 three_inputs [] 0 zero_stats final.0
      final.1 (some-get_some result returns)

abbrev hw_class : TraceBundle ℕ → HardwareEqClass ℕ
hw_class b = record { htrace = b.htrace; measurements = b ∷ [] }

-- a violation of two inputs
abbrev violation_between : TraceBundle ℕ → TraceBundle ℕ → Violation ℕ ℕ
violation_between a b = record {
  eq_class = record {
    ctrace = a.ctrace;
    measurements = a ∷ b ∷ [];
    hw_classes = some (hw_class a ∷ hw_class b ∷ []);
  };
  input_sequence = three_inputs;
  test_case_code = 7;
}

-- one that the machine shows, and one that it does not
abbrev genuine_one : Violation ℕ ℕ
genuine_one = violation_between (bundle 0 10 (1 ∷ []) (5 ∷ [])) (bundle 1 11 (1 ∷ []) (6 ∷ []))

abbrev spurious_one : Violation ℕ ℕ
spurious_one = violation_between (bundle 0 10 (1 ∷ []) (5 ∷ [])) (bundle 2 12 (1 ∷ []) (5 ∷ []))

abbrev round_state : RoundState
round_state = record {
  executor_n_reps = 1;
  max_nesting = 1;
  model_nesting = 1;
  enable_fast_contract_tracing = true;
  enable_priming = true;
  record_stats = false;
  update_ignore_list = false;
  reuse_boosts = false;
  reuse_ctraces = false;
  extend_htraces = false;
  is_initial = false;
}

abbrev manager : RoundManager ℕ ℕ ℕ
manager = record {
  test_case = 7;
  org_inputs = three_inputs;
  boosted_inputs = three_inputs;
  htraces = two_traces;
  reference_htraces = [];
  ctraces = two_contracts;
  non_boosted_ctraces = [];
  violations = [];
  arch_violations = [];
  conf = round_state;
  world = 0;
  stat = zero_stats;
}

-- The genuine violation comes first, so it is not looked at.
abbrev checked : Option (RoundManager ℕ ℕ ℕ)
checked =
    priming_check machine (record manager { violations = (genuine_one ∷ []) ++ spurious_one ∷ [] })

check_returns : is_some checked ≡ true
unfolding priming_check prime_violation htrace_init htrace_eq
check_returns = refl

abbrev primed : RoundManager ℕ ℕ ℕ
primed = get_some checked check_returns

priming_check-last_example :
    (priming_check machine (record manager { violations = spurious_one ∷ [] }) ≡ some primed)
    × ((primed.violations ≡ []) ⊎ (primed.violations ≡ spurious_one ∷ []))
priming_check-last_example =
    priming_check-last machine manager primed (genuine_one ∷ []) spurious_one
      (some-get_some checked check_returns)
