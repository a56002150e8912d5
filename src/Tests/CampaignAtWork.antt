-- ===== src/Tests/CampaignAtWork.antt =====
-- The loop over test cases on the machine that leaks: one test case is filtered, and the next one
-- shows a violation.
use side_channel_fuzzer.Prelude.{
  ℕ, ◌+◌, ◌≤◌, ◌≡◌, refl, Bool, true, false, Option, none, some, List, [], ◌∷◌, ◌++◌, map, arith,
  if◌then◌else◌, ◌⊎◌, ltb, leb, filter, all, any, inl, inr, Bool-cases,
}
use side_channel_fuzzer.Prelude.Texts.{Text, codes, text_eq, has_part, lower}
use side_channel_fuzzer.Stats.{FuzzingStats, zero_stats}
use side_channel_fuzzer.Traces.Contract.{ctrace_init}
use side_channel_fuzzer.Traces.Hardware.{HTrace, htrace_init, htrace_eq, get_max_pfc, cache}
use side_channel_fuzzer.Analyser.{filter_violations}
use side_channel_fuzzer.Fuzzer.{round_manager_init, round_state_init}
use side_channel_fuzzer.Fuzzer.Stages.{
  normal_stage, boost_inputs, collect_ctraces, traced_stage, store_htraces, check_stage,
  check_violations, update_ignore_list,
}
use side_channel_fuzzer.Fuzzer.Priming.{priming_check, prime_violation}
use side_channel_fuzzer.Fuzzer.Mismatch.{check_for_architectural_mismatch}
use side_channel_fuzzer.Fuzzer.Round.{
  fuzzing_round, run_stages, stage_then, mismatch_then, execute_stage, fast_stage, nesting_stage,
  taint_mistake_stage, priming_stage, noise_stage, priming_large_stage,
}
use side_channel_fuzzer.Fuzzer.Campaign.{
  random, Campaign, Workshop, Hooks, generation_function, prepare_inputs, check_timeout,
  record_violation, after_round, fuzz_unfiltered, fuzz_test_case, fuzz_from, start_fuzzing,
}
use side_channel_fuzzer.Fuzzer.Campaign.Accounts.{
  accounted, start_fuzzing-accounts, start_fuzzing-exhausts,
}
use side_channel_fuzzer.Fuzzer.Campaign.Overtime.{ThrowsAll, overtime}
use side_channel_fuzzer.Fuzzer.Filtering.{
  FilterConf, FilterModules, shows_no_speculation, speculation_filter, measure, observation_filter,
  filter_traces_x86, in_quick_and_dirty_mode, filter_x86,
}
use side_channel_fuzzer.Fuzzer.Fencing.{
  kind_of, plain, lfence, fence_lines, line_kind, strip, strip_start, strip_end,
}
use side_channel_fuzzer.Fuzzer.Fencing.Erasing.{
  is_other, is_exit, upto_exit, fences_right, fence_lines_lem, last_line_raises,
}
use side_channel_fuzzer.Fuzzer.Variants.{fuzzer_x86, standard_round}
use side_channel_fuzzer.Fuzzer.Variants.Laws.{fuzzer_x86-CountsApart}
use side_channel_fuzzer.Tests.{test_digest, three_inputs}
use side_channel_fuzzer.Tests.RoundAtWork.{
  machine, conf, machine-CountsOnce, is_some, get_some, some-get_some,
}

abbrev workshop : Workshop ℕ ℕ ℕ
workshop = record {
  create_test_case = λ t w. some (7, w + 1);
  create_test_case_from_template = λ t w. none;
  parse_file = λ t w. none;
  n_actors = λ p. 1;
  load = λ paths w. none;
  generate = λ n actors w. some (three_inputs, w);
  report_violations = λ v s w. w;
  store_violation_artifact = λ v s w. some w;
  today = λ w. (w, w + 2000000);
}

-- A trace of which two out of `issued` instructions retired.
abbrev with_pfc : ℕ → HTrace
with_pfc issued =
    htrace_init test_digest
      (record { trace = 5; pfc0 = issued; pfc1 = 2; pfc2 = 0; pfc3 = 0; pfc4 = 0 } ∷ []) cache

-- The first test case has no misprediction.
abbrev filter_modules : FilterModules ℕ ℕ ℕ
filter_modules = record {
  executor_load = λ p w. (true, w);
  trace_hardware =
      λ inputs n_reps w. (some (map (λ i. with_pfc (if leb w 2000001 then 2 else 3)) inputs), w);
  set_quick_and_dirty = λ on w. w;
  read_lines = λ p w. [];
  fence = fence_lines;
  parse_lines = λ lines w. none;
  htraces_are_equivalent = htrace_eq;
}

abbrev filter_conf : FilterConf
filter_conf = record {
  enable_speculation_filter = true;
  enable_observation_filter = false;
  executor_filtering_repetitions = 1;
}

abbrev fuzzer : Hooks ℕ ℕ ℕ
fuzzer = fuzzer_x86 machine conf filter_modules filter_conf true

abbrev campaign : Campaign
campaign = record {
  num_test_cases = 5;
  num_inputs = 3;
  timeout = 0;
  nonstop = false;
  save_violations = true;
  mode = random;
  existing_test_case = [];
  input_paths = [];
  inputs_per_class = 1;
}

abbrev outcome : Option (Bool × ℕ × FuzzingStats)
outcome = start_fuzzing workshop fuzzer campaign 0 zero_stats

campaign_returns : is_some outcome ≡ true
unfolding start_fuzzing fuzz_from fuzz_test_case generation_function prepare_inputs filter_x86
    in_quick_and_dirty_mode filter_traces_x86 measure speculation_filter fuzz_unfiltered
    observation_filter standard_round after_round check_timeout record_violation
    shows_no_speculation get_max_pfc side_channel_fuzzer.Traces.Classes.default_eq_function
    side_channel_fuzzer.Prelude.Dict.hash_key fuzzing_round round_manager_init round_state_init
    run_stages stage_then mismatch_then execute_stage fast_stage nesting_stage taint_mistake_stage
    priming_stage noise_stage priming_large_stage normal_stage boost_inputs collect_ctraces
    traced_stage store_htraces check_stage check_violations update_ignore_list filter_violations
    htrace_eq htrace_init ctrace_init check_for_architectural_mismatch priming_check prime_violation
    side_channel_fuzzer.Analyser.package_from side_channel_fuzzer.Analyser.analyse
    side_channel_fuzzer.Traces.Classes.build_contract_classes side_channel_fuzzer.Prelude.Dict.has
    side_channel_fuzzer.Prelude.Dict.put side_channel_fuzzer.Grouping.append_to
    side_channel_fuzzer.Prelude.Dict.get side_channel_fuzzer.Traces.Classes.same_ctrace
    side_channel_fuzzer.Analyser.sort_by_ctrace side_channel_fuzzer.Analyser.sort_insert
    side_channel_fuzzer.Analyser.assign_hw_classes
    side_channel_fuzzer.Traces.Classes.build_hw_classes
    side_channel_fuzzer.Traces.Classes.find_equivalent
    side_channel_fuzzer.Analyser.collect_violations
    side_channel_fuzzer.Traces.Classes.from_contract_eq_class
campaign_returns = refl

abbrev ended : Bool × ℕ × FuzzingStats
ended = get_some outcome campaign_returns

start_fuzzing-accounts_example :
    (ended.0 ≡ ltb 0 ended.2.violations)
    × (accounted ended.2 + zero_stats.test_cases ≤ accounted zero_stats + ended.2.test_cases)
    × (ended.2.test_cases ≤ zero_stats.test_cases + 5)
    × (ended.2.violations ≤ zero_stats.violations + 1)
start_fuzzing-accounts_example =
    start_fuzzing-accounts workshop fuzzer campaign
      (fuzzer_x86-CountsApart machine conf machine-CountsOnce filter_modules filter_conf true) 0
      ended.1 zero_stats ended.2 ended.0 (some-get_some outcome campaign_returns)

start_fuzzing-exhausts_example :
    (ended.2.test_cases ≡ zero_stats.test_cases + 5)
    ⊎ ((false ≡ false) × (ended.2.violations ≡ zero_stats.violations + 1) × (ended.0 ≡ true))
start_fuzzing-exhausts_example =
    start_fuzzing-exhausts workshop fuzzer campaign
      (fuzzer_x86-CountsApart machine conf machine-CountsOnce filter_modules filter_conf true) 0
      ended.1 zero_stats ended.2 ended.0 refl (some-get_some outcome campaign_returns)

-- the second test case was reported
stopped_at_two :
    (ended.0 ≡ true)
    × (ended.2.test_cases ≡ 2)
    × (ended.2.spec_filter ≡ 1)
    × (ended.2.violations ≡ 1)
unfolding start_fuzzing fuzz_from fuzz_test_case generation_function prepare_inputs filter_x86
    in_quick_and_dirty_mode filter_traces_x86 measure speculation_filter fuzz_unfiltered
    observation_filter standard_round after_round check_timeout record_violation
    shows_no_speculation get_max_pfc side_channel_fuzzer.Traces.Classes.default_eq_function
    side_channel_fuzzer.Prelude.Dict.hash_key fuzzing_round round_manager_init round_state_init
    run_stages stage_then mismatch_then execute_stage fast_stage nesting_stage taint_mistake_stage
    priming_stage noise_stage priming_large_stage normal_stage boost_inputs collect_ctraces
    traced_stage store_htraces check_stage check_violations update_ignore_list filter_violations
    htrace_eq htrace_init ctrace_init check_for_architectural_mismatch priming_check prime_violation
    side_channel_fuzzer.Analyser.package_from side_channel_fuzzer.Analyser.analyse
    side_channel_fuzzer.Traces.Classes.build_contract_classes side_channel_fuzzer.Prelude.Dict.has
    side_channel_fuzzer.Prelude.Dict.put side_channel_fuzzer.Grouping.append_to
    side_channel_fuzzer.Prelude.Dict.get side_channel_fuzzer.Traces.Classes.same_ctrace
    side_channel_fuzzer.Analyser.sort_by_ctrace side_channel_fuzzer.Analyser.sort_insert
    side_channel_fuzzer.Analyser.assign_hw_classes
    side_channel_fuzzer.Traces.Classes.build_hw_classes
    side_channel_fuzzer.Traces.Classes.find_equivalent
    side_channel_fuzzer.Analyser.collect_violations
    side_channel_fuzzer.Traces.Classes.from_contract_eq_class
stopped_at_two = (refl, refl, refl, refl)

-- An executor that never works: every test case is filtered.
abbrev deaf_modules : FilterModules ℕ ℕ ℕ
deaf_modules = record filter_modules { executor_load = λ p w. (false, w) }

abbrev deaf : Hooks ℕ ℕ ℕ
deaf = fuzzer_x86 machine conf deaf_modules filter_conf true

deaf-ThrowsAll : ThrowsAll deaf
unfolding filter_x86 in_quick_and_dirty_mode filter_traces_x86 measure
deaf-ThrowsAll p inputs w w' s s' b h = ground arith

abbrev short_campaign : Campaign
short_campaign = record campaign { timeout = 1 }

abbrev late : Option (Bool × ℕ × FuzzingStats)
late = start_fuzzing workshop deaf short_campaign 0 zero_stats

late_returns : is_some late ≡ true
unfolding start_fuzzing fuzz_from fuzz_test_case generation_function prepare_inputs filter_x86
    in_quick_and_dirty_mode filter_traces_x86 measure fuzz_unfiltered
late_returns = refl

overtime_example : (get_some late late_returns).2.test_cases ≡ 0 + 5
overtime_example =
    overtime workshop deaf short_campaign
      (fuzzer_x86-CountsApart machine conf machine-CountsOnce deaf_modules filter_conf true)
      deaf-ThrowsAll 0 (get_some late late_returns).1 zero_stats (get_some late late_returns).2
      (get_some late late_returns).0 (some-get_some late late_returns)

abbrev program : List Text
program = codes ".function_0:\n" ∷ codes "add rax, 1\n" ∷ codes ".test_case_exit:\n" ∷ []

abbrev unfinished : List Text
unfinished = codes ".function_0:\n" ∷ []

abbrev last_line : Text
last_line = codes "add rax, 1\n"

has_exit : any is_exit program ≡ true
unfolding kind_of line_kind strip strip_start strip_end has_part lower text_eq
has_exit = refl

unfenced : all (is_other lfence) program ≡ true
unfolding kind_of line_kind strip strip_start strip_end has_part lower text_eq
unfenced = refl

no_exit : any is_exit unfinished ≡ false
unfolding kind_of line_kind strip strip_start strip_end has_part lower text_eq
no_exit = refl

is_plain : kind_of last_line ≡ plain
unfolding kind_of line_kind strip strip_start strip_end has_part lower text_eq
is_plain = refl

fence_lines_lem_example :
    (written : List Text) × (fence_lines program ≡ some written)
    × (filter (is_other lfence) written ≡ upto_exit program)
    × (fences_right written ≡ true)
fence_lines_lem_example = fence_lines_lem program has_exit unfenced

last_line_raises_example : fence_lines (unfinished ++ last_line ∷ []) ≡ none
last_line_raises_example = last_line_raises unfinished last_line no_exit is_plain
