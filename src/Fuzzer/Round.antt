-- ===== src/Fuzzer/Round.antt =====
-- `_RoundManager.execute_stage` and `Fuzzer.fuzzing_round` of rvzr/fuzzer.py.
pub mod Tally
pub mod Quiet
pub mod Ending
use side_channel_fuzzer.Prelude.{
  ℕ, ◌+◌, ◌-◌, Bool, true, false, not, ◌||◌, Option, none, some, List, [], ◌∷◌, if◌then◌else◌, ◌==◌,
  leb, ◌>>=◌, ◌>>◌, guard, length,
}
use side_channel_fuzzer.Grouping.Members.{is_nonempty}
use side_channel_fuzzer.Stats.{FuzzingStats}
use side_channel_fuzzer.Traces.Classes.{Violation}
use side_channel_fuzzer.Fuzzer.{FuzzConf, Modules, RoundManager, round_manager_init}
use side_channel_fuzzer.Fuzzer.Stages.{normal_stage}
use side_channel_fuzzer.Fuzzer.Priming.{priming_check, head?}
use side_channel_fuzzer.Fuzzer.Mismatch.{check_for_architectural_mismatch}

pub data RoundStage : Type 0 where
  fast nesting taint_mistake priming noise arch_mismatch priming_large : RoundStage

-- l[-1]
unfoldable pub last_or : ℕ → List ℕ → ℕ
last_or d [] = d
last_or d (x ∷ l) = last_or x l

-- What a round returns, with the manager that it leaves.
abbrev pub Verdict : Type 0 → Type 0 → Type 0 → Type 0
Verdict I P W = Option (Violation I P) × RoundManager I P W

module _ {I T P W : Type 0} (m : Modules I T P W) (conf : FuzzConf) where
  -- the stage "fast"
  unfoldable pub fast_stage : RoundManager I P W → Option (RoundManager I P W)
  fast_stage r = do
    guard r.conf.is_initial
    r1 ← normal_stage m conf r
    some (record r1 {
      conf = record (r1.conf) { is_initial = false; record_stats = false };
      reference_htraces = r1.htraces;
    })

  -- the stage "nesting"
  unfoldable pub nesting_stage : RoundManager I P W → Option (RoundManager I P W)
  nesting_stage r = do
    r1 ←
        (if not (r.conf.model_nesting == r.conf.max_nesting)
          then normal_stage m conf
              (record r { conf = record (r.conf) { model_nesting = r.conf.max_nesting } })
          else some r)
    some (record r1 { conf = record (r1.conf) { reuse_boosts = true; update_ignore_list = true } })

  -- the stage "taint_mistake"
  unfoldable pub taint_mistake_stage : RoundManager I P W → Option (RoundManager I P W)
  taint_mistake_stage r = do
    r1 ←
        (if r.conf.enable_fast_contract_tracing
          then normal_stage m conf
              (record r { conf = record (r.conf) { enable_fast_contract_tracing = false } })
          else some r)
    guard (r1.conf.model_nesting == r1.conf.max_nesting)
    some (record r1 { conf = record (r1.conf) { reuse_ctraces = true } })

  -- The loop of the stage "noise" over the larger sample sizes. A negative number of repetitions
  -- makes the executor raise.
  unfoldable pub noise_loop : List ℕ → RoundManager I P W → Option (RoundManager I P W)
  noise_loop [] r = some r
  noise_loop (size ∷ sizes) r = do
    h ← head? r.htraces
    guard (leb (length h.raw) size)
    r1 ←
        normal_stage m conf
          (record r { conf = record (r.conf) { executor_n_reps = size - length h.raw } })
    elim (is_nonempty r1.violations) [ true ↦ noise_loop sizes r1 | false ↦ some r1 ]

  unfoldable pub noise_stage : RoundManager I P W → Option (RoundManager I P W)
  noise_stage r =
      if is_nonempty conf.more_sample_sizes
      then noise_loop conf.more_sample_sizes
          (record r { conf = record (r.conf) { extend_htraces = true } })
      else some r

  unfoldable pub priming_stage : RoundManager I P W → Option (RoundManager I P W)
  priming_stage r = if not r.conf.enable_priming then some r else priming_check m r

  unfoldable pub priming_large_stage : RoundManager I P W → Option (RoundManager I P W)
  unfolding last_or
  priming_large_stage r =
      if not r.conf.enable_priming || not (is_nonempty conf.more_sample_sizes)
      then some r
      else priming_check m (record r {
        conf = record (r.conf) {
          executor_n_reps = last_or conf.first_sample_size conf.more_sample_sizes;
        };
      })

  -- _RoundManager.execute_stage
  unfoldable pub execute_stage : RoundStage → RoundManager I P W → Option (RoundManager I P W)
  execute_stage fast r = fast_stage r
  execute_stage nesting r = nesting_stage r
  execute_stage taint_mistake r = taint_mistake_stage r
  execute_stage priming r = priming_stage r
  execute_stage noise r = noise_stage r
  execute_stage priming_large r = priming_large_stage r
  execute_stage arch_mismatch r = check_for_architectural_mismatch m conf r

  -- A stage of the slow path: the round ends here, and counts, if no violation is left.
  unfoldable pub stage_then :
      RoundStage
      → (FuzzingStats → FuzzingStats)
      → (RoundManager I P W → Option (Verdict I P W))
      → RoundManager I P W
      → Option (Verdict I P W)
  stage_then stage tally next r = do
    r1 ← execute_stage stage r
    elim (is_nonempty r1.violations) [
      | true ↦ next r1
      | false ↦ some (none, record r1 { stat = tally r1.stat })
    ]

  -- the last stage, and the report
  unfoldable pub mismatch_then : RoundManager I P W → Option (Verdict I P W)
  mismatch_then r = do
    r1 ← execute_stage arch_mismatch r
    elim (is_nonempty r1.arch_violations) [
      | true ↦ some (none, r1)
      | false ↦ do v ← head? r1.violations; some (some v, r1)
    ]

  unfoldable pub run_stages : RoundManager I P W → Option (Verdict I P W)
  run_stages =
      stage_then fast (λ s. record s { fast_path = s.fast_path + 1 })
        (stage_then nesting (λ s. record s { fp_nesting = s.fp_nesting + 1 })
          (stage_then taint_mistake (λ s. record s { fp_taint_mistakes = s.fp_taint_mistakes + 1 })
            (stage_then priming (λ s. record s { fp_priming = s.fp_priming + 1 })
              (stage_then noise (λ s. record s { fp_large_sample = s.fp_large_sample + 1 })
                (stage_then priming_large (λ s. record s { fp_priming = s.fp_priming + 1 })
                  mismatch_then)))))

  -- Fuzzer.fuzzing_round, without the log
  unfoldable pub fuzzing_round :
      Bool → P → List I → List ℕ → W → FuzzingStats → Option (Verdict I P W)
  fuzzing_round is_speculative test_case inputs starting_ignore_list world stat = do
    r ← round_manager_init m conf is_speculative test_case inputs world stat
    let r' : RoundManager I P W = record r {
      world =
          if is_nonempty starting_ignore_list
          then m.set_ignore_list starting_ignore_list r.world
          else r.world;
    }
    run_stages r'
