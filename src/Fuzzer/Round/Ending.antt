-- ===== src/Fuzzer/Round/Ending.antt =====
-- How a fuzzing round can end, and what it counts on the way.
use side_channel_fuzzer.Prelude.{
  ℕ, ◌+◌, ◌≤◌, ◌≡◌, refl, ◌∙◌, ap, subst, Bool, true, false, Option, none, some, List, [], ◌∷◌,
  arith, if◌then◌else◌, inl, inr, Option-cases, >>=-eq-some, ◌≢◌, Bool-cases,
}
use side_channel_fuzzer.Stats.{FuzzingStats}
use side_channel_fuzzer.Grouping.Members.{is_nonempty}
use side_channel_fuzzer.Traces.Classes.{Violation}
use side_channel_fuzzer.Fuzzer.{
  FuzzConf, Modules, RoundManager, round_state_init, round_manager_init,
}
use side_channel_fuzzer.Fuzzer.Priming.{head?}
use side_channel_fuzzer.Fuzzer.Mismatch.{check_for_architectural_mismatch}
use side_channel_fuzzer.Fuzzer.Round.{
  RoundStage, fast, nesting, taint_mistake, priming, noise, priming_large, execute_stage, Verdict,
  stage_then, mismatch_then, run_stages, fuzzing_round,
}
use side_channel_fuzzer.Fuzzer.Round.Tally.{discarded, outer, CountsOnce}
use side_channel_fuzzer.Fuzzer.Round.Quiet.{
  Quiet, check_for_architectural_mismatch-Quiet, execute_stage-Quiet, fast_stage_lem,
}

-- The three ends of a round that leaves the manager `r`, with `n` discarded test cases before it.
pub data Ending {I P W : Type 0} (n : ℕ) (result : Option (Violation I P)) (r : RoundManager I P W)
    : Type 0 where
  nothing_left : result ≡ none → r.violations ≡ [] → discarded r.stat ≡ n + 1 → Ending n result r
  model_differs :
      result ≡ none
      → is_nonempty r.arch_violations ≡ true
      → discarded r.stat ≡ n
      → Ending n result r
  reports :
      (v : Violation I P)
      → result ≡ some v
      → head? r.violations ≡ some v
      → r.arch_violations ≡ []
      → discarded r.stat ≡ n
      → Ending n result r

empty_of_test : {A : Type 0} (l : List A) → is_nonempty l ≡ false → l ≡ []
empty_of_test [] h = refl
empty_of_test (x ∷ l) h = cc

module _ {I T P W : Type 0} (m : Modules I T P W) (conf : FuzzConf) where
  module _ (c : CountsOnce m) where
    -- what is known of a continuation from a manager that is silent
    abbrev Closes : (RoundManager I P W → Option (Verdict I P W)) → Type 0
    Closes next =
        (r r' : RoundManager I P W) (v : Option (Violation I P))
        → r.conf.record_stats ≡ false
        → next r ≡ some (v, r')
        → Ending (discarded r.stat) v r'
          × (r'.stat.analysed_test_cases ≤ r.stat.analysed_test_cases)
          × (outer r'.stat ≡ outer r.stat)

    -- a tally adds one discarded test case
    abbrev IsTally : (FuzzingStats → FuzzingStats) → Type 0
    IsTally tally =
        (s : FuzzingStats)
        → (discarded (tally s) ≡ discarded s + 1)
          × ((tally s).analysed_test_cases ≡ s.analysed_test_cases)
          × (outer (tally s) ≡ outer s)

    -- behind a stage: the round goes on, or ends with a tally
    abbrev branch :
        (FuzzingStats → FuzzingStats)
        → (RoundManager I P W → Option (Verdict I P W))
        → RoundManager I P W
        → Option (Verdict I P W)
    branch tally next r1 = elim (is_nonempty r1.violations) [
      | true ↦ next r1
      | false ↦ some (none, record r1 { stat = tally r1.stat })
    ]

    branch-Closes :
        (tally : FuzzingStats → FuzzingStats) (next : RoundManager I P W → Option (Verdict I P W))
        → IsTally tally
        → Closes next
        → Closes (branch tally next)
    branch-Closes tally next t k r r' v off h = elim (Bool-cases (is_nonempty r.violations)) [
      | inl more ↦ k r r' v off (ground arith)
      | inr done ↦ (
        Ending.nothing_left (ground arith) (ground (arith, empty_of_test r.violations done))
            (ground (arith, t r.stat)),
        ground (arith, t r.stat),
        ground (arith, t r.stat),
      )
    ]

    stage_then-Closes :
        (stage : RoundStage) (tally : FuzzingStats → FuzzingStats)
        (next : RoundManager I P W → Option (Verdict I P W))
        → stage ≢ fast
        → IsTally tally
        → Closes next
        → Closes (stage_then m conf stage tally next)
    unfolding stage_then
    stage_then-Closes stage tally next slow t k r r' v off h =
        let (r1, run, h1) = >>=-eq-some (execute_stage m conf stage r) (branch tally next) h in
        let q : Quiet r r1 = execute_stage-Quiet m conf c stage r r1 slow off run in
        let (ending, a, o) = branch-Closes tally next t k r1 r' v q.silent h1 in
        (
          subst (λ n. Ending n v r') q.same_discarded ending,
          omega (arith, q.analysed),
          o ∙ q.same_outer,
        )

    mismatch_then-Closes : Closes (mismatch_then m conf)
    unfolding mismatch_then execute_stage
    mismatch_then-Closes r r' v off h =
        let (r1, run, h1) = >>=-eq-some (check_for_architectural_mismatch m conf r) _ h in
        let q : Quiet r r1 = (check_for_architectural_mismatch-Quiet m conf c r r1 off run).0 in
        elim (Bool-cases (is_nonempty r1.arch_violations)) [
          | inl differs ↦ (
            Ending.model_differs (ground arith) (ground arith) (ground (arith, q.same_discarded)),
            ground (arith, q.analysed),
            ground (arith, q.same_outer),
          )
          | inr agrees ↦ elim (Option-cases (head? r1.violations)) [
            | inl none_left ↦ absurd (ground arith)
            | inr (w, first) ↦ (
              Ending.reports w (ground arith) (ground arith)
                  (ground (arith, empty_of_test r1.arch_violations agrees))
                  (ground (arith, q.same_discarded)),
              ground (arith, q.analysed),
              ground (arith, q.same_outer),
            )
          ]
        ]

    slow_path-Closes : Closes (
        stage_then m conf nesting
          (λ s. record s { fp_nesting = s.fp_nesting + 1 })
          (stage_then m conf taint_mistake
            (λ s. record s { fp_taint_mistakes = s.fp_taint_mistakes + 1 })
            (stage_then m conf priming
              (λ s. record s { fp_priming = s.fp_priming + 1 })
              (stage_then m conf noise
                (λ s. record s { fp_large_sample = s.fp_large_sample + 1 })
                (stage_then m conf priming_large
                  (λ s. record s { fp_priming = s.fp_priming + 1 })
                  (mismatch_then m conf))))))
    slow_path-Closes =
        stage_then-Closes nesting _ _ (λ e. cc) (λ s. (omega arith, refl, refl))
          (stage_then-Closes taint_mistake _ _ (λ e. cc) (λ s. (omega arith, refl, refl))
            (stage_then-Closes priming _ _ (λ e. cc) (λ s. (omega arith, refl, refl))
              (stage_then-Closes noise _ _ (λ e. cc) (λ s. (omega arith, refl, refl))
                (stage_then-Closes priming_large _ _ (λ e. cc) (λ s. (omega arith, refl, refl))
                  mismatch_then-Closes))))

    init_stat :
        (is_speculative : Bool) (test_case : P) (inputs : List I) (w : W) (s : FuzzingStats)
        (r0 : RoundManager I P W)
        → round_manager_init m conf is_speculative test_case inputs w s ≡ some r0
        → r0.stat ≡ s
    unfolding round_manager_init
    init_stat is_speculative test_case inputs w s r0 h =
        let (c0, made, h1) = >>=-eq-some (round_state_init conf is_speculative) _ h in ground arith

    -- With an analyser that counts a test case at most once, and only if told to, and no discarded
    -- one, a round that does not raise ends in one of three ways: nothing is left of the violations and
    -- exactly one counter of discarded test cases went up by one; or the model and the hardware
    -- differ architecturally, nothing is returned and none went up; or the first violation that is
    -- left is returned, no architectural mismatch was found and none went up. The analyser counted
    -- the test case at most once, and the counters of the loop around the rounds stay.
    pub fuzzing_round-Ending :
        (is_speculative : Bool) (test_case : P) (inputs : List I) (ignored : List ℕ) (w : W)
        (s : FuzzingStats) (v : Option (Violation I P)) (r : RoundManager I P W)
        → fuzzing_round m conf is_speculative test_case inputs ignored w s ≡ some (v, r)
        → Ending (discarded s) v r
          × (r.stat.analysed_test_cases ≤ s.analysed_test_cases + 1)
          × (outer r.stat ≡ outer s)
    unfolding fuzzing_round run_stages stage_then
    fuzzing_round-Ending is_speculative test_case inputs ignored w s v r h =
        let (r0, made, h1) =
          >>=-eq-some (round_manager_init m conf is_speculative test_case inputs w s) _ h in
        let start : RoundManager I P W = record r0 {
          world = if is_nonempty ignored then m.set_ignore_list ignored r0.world else r0.world;
        } in
        let (r1, run, h2) = >>=-eq-some (execute_stage m conf fast start) _ h1 in
        let (off, d, a, o) = fast_stage_lem m conf c start r1 run in
        let same : start.stat ≡ s = init_stat is_speculative test_case inputs w s r0 made in
        let (ending, a', o') =
          branch-Closes (λ s. record s { fast_path = s.fast_path + 1 }) _
            (λ s. (omega arith, refl, refl)) slow_path-Closes r1 r v off h2 in
        (
          subst (λ n. Ending n v r) (d ∙ ap discarded same) ending,
          omega (arith, a, a', ap (λ (s : FuzzingStats). s.analysed_test_cases) same),
          o' ∙ o ∙ ap outer same,
        )
