-- ===== src/Fuzzer.antt =====
-- rvzr/fuzzer.py: the state of a fuzzing round, and the modules that the round calls. What the
-- model, the executor and the data generator do to the machine is the state `W`.
pub mod Stages
pub mod Priming
pub mod Mismatch
pub mod Round
pub mod Campaign
pub mod Variants
pub mod Filtering
pub mod Fencing
use side_channel_fuzzer.Prelude.{
  ℕ, Bool, true, false, Option, none, some, List, [], ◌∷◌, if◌then◌else◌, leb, ◌>>=◌, ◌>>◌, guard,
}
use side_channel_fuzzer.Stats.{FuzzingStats}
use side_channel_fuzzer.Traces.Contract.{CTrace}
use side_channel_fuzzer.Traces.Hardware.{HTrace}
use side_channel_fuzzer.Traces.Classes.{Violation}

-- The options of `CONF` that a round reads; `sample_sizes` is the head and the rest of
-- `executor_sample_sizes`.
pub record FuzzConf : Type 0 where
  pub first_sample_size : ℕ
  pub more_sample_sizes : List ℕ
  pub inputs_per_class : ℕ
  pub enable_priming : Bool
  pub enable_fast_path_model : Bool
  pub model_min_nesting : ℕ
  pub model_max_nesting : ℕ

-- What a round calls in other modules: `I` are inputs, `T` taints, `P` test cases. A hardware trace
-- that is `none` is an `IOError`; an analysis that is `none` is an exception.
pub record Modules (I T P W : Type 0) : Type 0 where
  pub load_test_case : P → W → W
  pub trace_test_case : List I → ℕ → W → List CTrace × W
  pub trace_test_case_with_taints : List I → ℕ → W → (List CTrace × List T) × W
  pub generate_boosted : List I → List T → ℕ → W → List I × W
  pub trace_hardware : List I → ℕ → W → Option (List HTrace) × W
  pub set_ignore_list : List ℕ → W → W
  pub extend_ignore_list : List ℕ → W → W
  pub filter_violations :
      List CTrace
      → List HTrace
      → P
      → List I
      → Bool
      → FuzzingStats
      → Option (List (Violation I P) × FuzzingStats)
  pub htraces_are_equivalent : HTrace → HTrace → Bool
  pub digest : List ℕ → ℕ
  pub arch_load_test_case : P → W → W
  pub arch_trace_hardware : List I → ℕ → W → Option (List HTrace) × W
  pub arch_trace_test_case : List I → ℕ → W → List CTrace × W

-- _RoundState
pub record RoundState : Type 0 where
  pub executor_n_reps : ℕ
  pub max_nesting : ℕ
  pub model_nesting : ℕ
  pub enable_fast_contract_tracing : Bool
  pub enable_priming : Bool
  pub record_stats : Bool
  pub update_ignore_list : Bool
  pub reuse_boosts : Bool
  pub reuse_ctraces : Bool
  pub extend_htraces : Bool
  pub is_initial : Bool

-- _RoundState.__init__
unfoldable pub round_state_init : FuzzConf → Bool → Option RoundState
round_state_init conf is_speculative =
    let start = if is_speculative then conf.model_min_nesting else 1 in
    let most = if is_speculative then conf.model_max_nesting else 1 in
    do
      guard (leb start most)
      some (record {
        executor_n_reps = conf.first_sample_size;
        max_nesting = most;
        model_nesting = start;
        enable_fast_contract_tracing = conf.enable_fast_path_model;
        enable_priming = conf.enable_priming;
        record_stats = true;
        update_ignore_list = false;
        reuse_boosts = false;
        reuse_ctraces = false;
        extend_htraces = false;
        is_initial = true;
      })

-- The fields of _RoundManager, with the world and the shared counters.
pub record RoundManager (I P W : Type 0) : Type 0 where
  pub test_case : P
  pub org_inputs : List I
  pub boosted_inputs : List I
  pub htraces : List HTrace
  pub reference_htraces : List HTrace
  pub ctraces : List CTrace
  pub non_boosted_ctraces : List CTrace
  pub violations : List (Violation I P)
  pub arch_violations : List (Violation I P)
  pub conf : RoundState
  pub world : W
  pub stat : FuzzingStats

-- _RoundManager.__init__
module _ {I T P W : Type 0} (m : Modules I T P W) (conf : FuzzConf) where
  unfoldable pub round_manager_init :
      Bool → P → List I → W → FuzzingStats → Option (RoundManager I P W)
  round_manager_init is_speculative test_case inputs world stat = do
    c ← round_state_init conf is_speculative
    some (record {
      test_case = test_case;
      org_inputs = inputs;
      boosted_inputs = [];
      htraces = [];
      reference_htraces = [];
      ctraces = [];
      non_boosted_ctraces = [];
      violations = [];
      arch_violations = [];
      conf = c;
      world = m.load_test_case test_case world;
      stat = stat;
    })
