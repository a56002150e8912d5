-- ===== src/Fuzzer/Round/Quiet.antt =====
-- What the stages of a round leave of its options and counters.
use side_channel_fuzzer.Prelude.{
  ℕ, ◌+◌, ◌-◌, ◌≤◌, ◌≡◌, refl, Bool, true, false, not, some, List, [], ◌∷◌, arith, if◌then◌else◌,
  guard, inl, inr, >>=-eq-some, ◌≢◌, Bool-cases, ◌==◌, length, leb,
}
use side_channel_fuzzer.Grouping.Members.{is_nonempty}
use side_channel_fuzzer.Fuzzer.{FuzzConf, Modules, RoundManager}
use side_channel_fuzzer.Fuzzer.Stages.{normal_stage}
use side_channel_fuzzer.Fuzzer.Priming.{priming_check, head?}
use side_channel_fuzzer.Fuzzer.Mismatch.{check_for_architectural_mismatch}
use side_channel_fuzzer.Fuzzer.Round.{
  RoundStage, fast, nesting, taint_mistake, priming, noise, priming_large, arch_mismatch, last_or,
  fast_stage, nesting_stage, taint_mistake_stage, noise_loop, noise_stage, priming_stage,
  priming_large_stage, execute_stage,
}
use side_channel_fuzzer.Fuzzer.Round.Tally.{discarded, outer, CountsOnce, Keeps, normal_stage-Keeps}

-- A stage behind the fast one: no counter of the analyser moves.
pub record Quiet {I P W : Type 0} (r r' : RoundManager I P W) : Type 0 where
  pub silent : r'.conf.record_stats ≡ false
  pub same_discarded : discarded r'.stat ≡ discarded r.stat
  pub analysed : r'.stat.analysed_test_cases ≤ r.stat.analysed_test_cases
  pub same_outer : outer r'.stat ≡ outer r.stat

Quiet-trans :
    {I P W : Type 0} (r r' r'' : RoundManager I P W) → Quiet r r' → Quiet r' r'' → Quiet r r''
Quiet-trans r r' r'' p q = ground arith

module _ {I T P W : Type 0} (m : Modules I T P W) (conf : FuzzConf) where
  module _ (c : CountsOnce m) where
    normal_stage-Quiet :
        (r r' : RoundManager I P W)
        → r.conf.record_stats ≡ false
        → normal_stage m conf r ≡ some r'
        → Quiet r r'
    normal_stage-Quiet r r' off h =
        let k : Keeps r r' = normal_stage-Keeps m conf c r r' h in
        record {
          silent = ground (arith, k.same_conf);
          same_discarded = k.same_discarded;
          analysed = ground (arith, k.analysed);
          same_outer = k.same_outer;
        }

    -- a run of the stage that depends on an option
    optional-Quiet :
        (b : Bool) (r r0 r1 : RoundManager I P W)
        → r.conf.record_stats ≡ false
        → r0.conf.record_stats ≡ false
        → r0.stat ≡ r.stat
        → (if b then normal_stage m conf r0 else some r) ≡ some r1
        → Quiet r r1
    optional-Quiet true r r0 r1 off off0 same h = ground (arith, normal_stage-Quiet r0 r1 off0 h)
    optional-Quiet false r r0 r1 off off0 same h = ground arith

    nesting_stage-Quiet :
        (r r' : RoundManager I P W)
        → r.conf.record_stats ≡ false
        → nesting_stage m conf r ≡ some r'
        → Quiet r r'
    unfolding nesting_stage
    nesting_stage-Quiet r r' off h =
        let r0 : RoundManager I P W = record r {
          conf = record (r.conf) { model_nesting = r.conf.max_nesting };
        } in
        let deeper : Bool = not (r.conf.model_nesting == r.conf.max_nesting) in
        let (r1, run, rest) = >>=-eq-some (if deeper then normal_stage m conf r0 else some r) _ h in
        ground (arith, optional-Quiet deeper r r0 r1 off off refl run)

    taint_mistake_stage-Quiet :
        (r r' : RoundManager I P W)
        → r.conf.record_stats ≡ false
        → taint_mistake_stage m conf r ≡ some r'
        → Quiet r r'
    unfolding taint_mistake_stage
    taint_mistake_stage-Quiet r r' off h =
        let r0 : RoundManager I P W = record r {
          conf = record (r.conf) { enable_fast_contract_tracing = false };
        } in
        let again : Bool = r.conf.enable_fast_contract_tracing in
        let (r1, run, rest) = >>=-eq-some (if again then normal_stage m conf r0 else some r) _ h in
        ground (arith, optional-Quiet again r r0 r1 off off refl run)

    noise_loop-Quiet :
        (sizes : List ℕ) (r r' : RoundManager I P W)
        → r.conf.record_stats ≡ false
        → noise_loop m conf sizes r ≡ some r'
        → Quiet r r'
    unfolding noise_loop
    noise_loop-Quiet [] r r' off h = ground arith
    noise_loop-Quiet (size ∷ sizes) r r' off h =
        let (t, first, h1) = >>=-eq-some (head? r.htraces) _ h in
        let (_, enough, h2) = >>=-eq-some (guard (leb (length t.raw) size)) _ h1 in
        let (r1, run, h3) = >>=-eq-some _ _ h2 in
        let r0 : RoundManager I P W = record r {
          conf = record (r.conf) { executor_n_reps = size - length t.raw };
        } in
        let q : Quiet r0 r1 = normal_stage-Quiet r0 r1 off run in
        elim (Bool-cases (is_nonempty r1.violations)) [
          | inl more ↦ ground (arith, noise_loop-Quiet sizes r1 r' q.silent (rw more at h3))
          | inr done ↦ ground arith
        ]

    priming_check-Quiet :
        (r r' : RoundManager I P W)
        → r.conf.record_stats ≡ false
        → priming_check m r ≡ some r'
        → Quiet r r'
    unfolding priming_check
    priming_check-Quiet r r' off h = ground arith

    pub check_for_architectural_mismatch-Quiet :
        (r r' : RoundManager I P W)
        → r.conf.record_stats ≡ false
        → check_for_architectural_mismatch m conf r ≡ some r'
        → (Quiet r r') × (r'.violations ≡ r.violations)
    unfolding check_for_architectural_mismatch
    check_for_architectural_mismatch-Quiet r r' off h = ground arith

    pub execute_stage-Quiet :
        (stage : RoundStage) (r r' : RoundManager I P W)
        → stage ≢ fast
        → r.conf.record_stats ≡ false
        → execute_stage m conf stage r ≡ some r'
        → Quiet r r'
    unfolding execute_stage noise_stage priming_stage priming_large_stage
    execute_stage-Quiet fast r r' slow off h = absurd (slow refl)
    execute_stage-Quiet nesting r r' slow off h = nesting_stage-Quiet r r' off h
    execute_stage-Quiet taint_mistake r r' slow off h = taint_mistake_stage-Quiet r r' off h
    execute_stage-Quiet priming r r' slow off h = ground (arith, priming_check-Quiet r r' off)
    execute_stage-Quiet noise r r' slow off h =
        let r0 : RoundManager I P W = record r {
          conf = record (r.conf) { extend_htraces = true };
        } in
        ground (arith, noise_loop-Quiet conf.more_sample_sizes r0 r' off)
    execute_stage-Quiet priming_large r r' slow off h =
        let r0 : RoundManager I P W = record r {
          conf = record (r.conf) {
            executor_n_reps = last_or conf.first_sample_size conf.more_sample_sizes;
          };
        } in
        ground (arith, priming_check-Quiet r0 r' off)
    execute_stage-Quiet arch_mismatch r r' slow off h =
        (check_for_architectural_mismatch-Quiet r r' off h).0

    pub fast_stage_lem :
        (r r' : RoundManager I P W)
        → execute_stage m conf fast r ≡ some r'
        → (r'.conf.record_stats ≡ false)
          × (discarded r'.stat ≡ discarded r.stat)
          × (r'.stat.analysed_test_cases ≤ r.stat.analysed_test_cases + 1)
          × (outer r'.stat ≡ outer r.stat)
    unfolding execute_stage fast_stage
    fast_stage_lem r r' h =
        let (_, initial, h1) = >>=-eq-some (guard r.conf.is_initial) _ h in
        let (r1, run, h2) = >>=-eq-some (normal_stage m conf r) _ h1 in
        let k : Keeps r r1 = normal_stage-Keeps m conf c r r1 run in
        (ground arith, ground arith, ground arith, ground arith)
