-- ===== src/Fuzzer/Round/Tally.antt =====
-- The counters of a fuzzing round, across the steps of a stage.
use side_channel_fuzzer.Prelude.{
  ℕ, ◌+◌, ◌≤◌, ◌≡◌, ◌∙◌, Bool, Option, none, some, List, arith, if◌then◌else◌, inl, inr,
  Option-cases, Bool-cases,
}
use side_channel_fuzzer.Stats.{FuzzingStats}
use side_channel_fuzzer.Grouping.Members.{is_nonempty}
use side_channel_fuzzer.Traces.Contract.{CTrace}
use side_channel_fuzzer.Traces.Hardware.{HTrace}
use side_channel_fuzzer.Traces.Classes.{Violation}
use side_channel_fuzzer.Fuzzer.{FuzzConf, Modules, RoundManager}
use side_channel_fuzzer.Fuzzer.Stages.{
  boost_inputs, collect_ctraces, store_htraces, check_violations, update_ignore_list, check_stage,
  traced_stage, normal_stage,
}

-- the counters of discarded test cases
abbrev pub discarded : FuzzingStats → ℕ
discarded s = s.fast_path + s.fp_nesting + s.fp_taint_mistakes + s.fp_priming + s.fp_large_sample

-- the counters of the loop around the rounds, and of its filter
abbrev pub outer : FuzzingStats → ℕ × ℕ × ℕ × ℕ × ℕ
outer s = (s.test_cases, s.num_inputs, s.violations, s.spec_filter, s.observ_filter)

-- What a round relies on in the analyser: it counts the test case at most once, and only if it is
-- told to, and leaves the other counters of a round and of the loop around it alone.
pub record CountsOnce {I T P W : Type 0} (m : Modules I T P W) : Type 0 where
  pub counted :
      (ctraces : List CTrace) (htraces : List HTrace) (p : P) (inputs : List I) (stats_ : Bool)
      (s s' : FuzzingStats) (vs : List (Violation I P))
      → m.filter_violations ctraces htraces p inputs stats_ s ≡ some (vs, s')
      → (discarded s' ≡ discarded s)
        × (s'.analysed_test_cases ≤ s.analysed_test_cases + (if stats_ then 1 else 0))
        × (outer s' ≡ outer s)

-- From `r` to `r'` no option changed, and the analyser counted at most once.
pub record Keeps {I P W : Type 0} (r r' : RoundManager I P W) : Type 0 where
  pub same_conf : r'.conf ≡ r.conf
  pub same_discarded : discarded r'.stat ≡ discarded r.stat
  pub analysed :
      r'.stat.analysed_test_cases
      ≤ r.stat.analysed_test_cases + (if r.conf.record_stats then 1 else 0)
  pub same_outer : outer r'.stat ≡ outer r.stat

module _ {I T P W : Type 0} (m : Modules I T P W) (conf : FuzzConf) where
  -- neither an option nor a counter changed
  abbrev Same : RoundManager I P W → RoundManager I P W → Type 0
  Same r r' = (r'.conf ≡ r.conf) × (r'.stat ≡ r.stat)

  boost_inputs-Same : (r : RoundManager I P W) → Same r (boost_inputs m conf r)
  unfolding boost_inputs
  boost_inputs-Same r = ground arith

  collect_ctraces-Same :
      (r r' : RoundManager I P W) → collect_ctraces m conf r ≡ some r' → Same r r'
  unfolding collect_ctraces
  collect_ctraces-Same r r' h = ground arith

  store_htraces-Same :
      (ts : List HTrace) (r r' : RoundManager I P W)
      → store_htraces m conf ts r ≡ some r'
      → Same r r'
  unfolding store_htraces
  store_htraces-Same ts r r' h = ground arith

  module _ (c : CountsOnce m) where
    check_violations-Keeps :
        (r r' : RoundManager I P W) → check_violations m conf r ≡ some r' → Keeps r r'
    unfolding check_violations
    check_violations-Keeps r r' h =
        let analysis : Option (List (Violation I P) × FuzzingStats) =
          m.filter_violations r.ctraces r.htraces r.test_case r.boosted_inputs r.conf.record_stats
            r.stat in
        elim (Option-cases analysis) [
          | inl raised ↦ absurd (ground arith)
          | inr ((vs, s'), found) ↦
              let (d, a, o) =
                c.counted r.ctraces r.htraces r.test_case r.boosted_inputs r.conf.record_stats
                  r.stat s' vs found in
              record {
                same_conf = ground arith;
                same_discarded = ground arith;
                analysed = ground arith;
                same_outer = ground arith;
              }
        ]

    update_ignore_list-Same : (r : RoundManager I P W) → Same r (update_ignore_list m conf r)
    unfolding update_ignore_list
    update_ignore_list-Same r = ground arith

    Keeps-of_Same : (r r' : RoundManager I P W) → Same r r' → Keeps r r'
    Keeps-of_Same r r' s = record {
      same_conf = s.0;
      same_discarded = ground arith;
      analysed = ground arith;
      same_outer = ground arith;
    }

    Keeps-Same : (r r' r'' : RoundManager I P W) → Keeps r r' → Same r' r'' → Keeps r r''
    Keeps-Same r r' r'' k s = record {
      same_conf = s.0 ∙ k.same_conf;
      same_discarded = ground arith;
      analysed = ground arith;
      same_outer = ground arith;
    }

    Same-Keeps : (r r' r'' : RoundManager I P W) → Same r r' → Keeps r' r'' → Keeps r r''
    Same-Keeps r r' r'' s k = record {
      same_conf = k.same_conf ∙ s.0;
      same_discarded = ground arith;
      analysed = ground arith;
      same_outer = ground arith;
    }

    check_stage-Keeps : (r r' : RoundManager I P W) → check_stage m conf r ≡ some r' → Keeps r r'
    unfolding check_stage
    check_stage-Keeps r r' h = elim (Bool-cases (is_nonempty r.org_inputs)) [
      | inr empty ↦ Keeps-of_Same r r' (ground arith)
      | inl full ↦ elim (Option-cases (check_violations m conf r)) [
        | inl raised ↦ absurd (ground arith)
        | inr (r1, checked) ↦
            Keeps-Same r r1 r' (check_violations-Keeps r r1 checked)
              (ground (arith, update_ignore_list-Same r1))
      ]
    ]

    traced :
        (r r1 r' : RoundManager I P W) (t : Option (List HTrace) × W)
        → Same r r1
        → traced_stage m conf r1 t ≡ some r'
        → Keeps r r'
    unfolding traced_stage
    traced r r1 r' (none, w) s h = Keeps-of_Same r r' (ground arith)
    traced r r1 r' (some htraces, w) s h =
        elim (Option-cases (store_htraces m conf htraces (record r1 { world = w }))) [
          | inl raised ↦ absurd (ground arith)
          | inr (r2, stored) ↦
              let (s_conf, s_stat) =
                store_htraces-Same htraces (record r1 { world = w }) r2 stored in
              Same-Keeps r r2 r' (s_conf ∙ s.0, s_stat ∙ s.1)
                (check_stage-Keeps r2 r' (ground arith))
        ]

    pub normal_stage-Keeps :
        (r r' : RoundManager I P W) → normal_stage m conf r ≡ some r' → Keeps r r'
    unfolding normal_stage
    normal_stage-Keeps r r' h =
        elim (Option-cases (collect_ctraces m conf (boost_inputs m conf r))) [
          | inl raised ↦ absurd (ground arith)
          | inr (r1, collected) ↦
              let (b_conf, b_stat) = boost_inputs-Same r in
              let (c_conf, c_stat) = collect_ctraces-Same (boost_inputs m conf r) r1 collected in
              let after : Same r r1 = (c_conf ∙ b_conf, c_stat ∙ b_stat) in
              traced r r1 r' (m.trace_hardware r1.boosted_inputs r1.conf.executor_n_reps r1.world)
                after (rw collected at h)
        ]
