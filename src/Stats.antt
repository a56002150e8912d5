-- ===== src/Stats.antt =====
-- rvzr/stats.py: the counters that the modules of the fuzzer share.
use side_channel_fuzzer.Prelude.{ℕ}

pub record FuzzingStats : Type 0 where
  pub test_cases : ℕ
  pub num_inputs : ℕ
  pub eff_classes : ℕ
  pub single_entry_classes : ℕ
  pub violations : ℕ
  pub analysed_test_cases : ℕ
  pub executor_reruns : ℕ
  pub spec_filter : ℕ
  pub observ_filter : ℕ
  pub fast_path : ℕ
  pub fp_nesting : ℕ
  pub fp_taint_mistakes : ℕ
  pub fp_early_priming : ℕ
  pub fp_large_sample : ℕ
  pub fp_priming : ℕ

abbrev pub zero_stats : FuzzingStats
zero_stats = record {
  test_cases = 0;
  num_inputs = 0;
  eff_classes = 0;
  single_entry_classes = 0;
  violations = 0;
  analysed_test_cases = 0;
  executor_reruns = 0;
  spec_filter = 0;
  observ_filter = 0;
  fast_path = 0;
  fp_nesting = 0;
  fp_taint_mistakes = 0;
  fp_early_priming = 0;
  fp_large_sample = 0;
  fp_priming = 0;
}
