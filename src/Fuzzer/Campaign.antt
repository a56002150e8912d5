-- ===== src/Fuzzer/Campaign.antt =====
-- `Fuzzer.start` of rvzr/fuzzer.py: the loop over test cases. `start_fuzzing` is `start`.
pub mod Accounts
pub mod Overtime
use side_channel_fuzzer.Prelude.{
  ℕ, zero, suc, ◌+◌, ◌*◌, Bool, true, false, Option, none, some, List, [], ◌∷◌, if◌then◌else◌, ltb,
  ◌==◌, ◌>>=◌, length,
}
use side_channel_fuzzer.Prelude.Texts.{Text}
use side_channel_fuzzer.Grouping.Members.{is_nonempty}
use side_channel_fuzzer.Stats.{FuzzingStats}
use side_channel_fuzzer.Traces.Classes.{Violation}

pub data FuzzingMode : Type 0 where
  random template asm : FuzzingMode

-- the arguments of `start` and the fields of the fuzzer that the loop reads
pub record Campaign : Type 0 where
  pub num_test_cases : ℕ
  pub num_inputs : ℕ
  pub timeout : ℕ
  pub nonstop : Bool
  pub save_violations : Bool
  pub mode : FuzzingMode
  pub existing_test_case : Text
  pub input_paths : List Text
  pub inputs_per_class : ℕ

-- What the loop calls in other modules; the clock counts microseconds. What may raise is `none`.
pub record Workshop (I P W : Type 0) : Type 0 where
  pub create_test_case : Text → W → Option (P × W)
  pub create_test_case_from_template : Text → W → Option (P × W)
  pub parse_file : Text → W → Option (P × W)
  pub n_actors : P → ℕ
  pub load : List Text → W → Option (List I × W)
  pub generate : ℕ → ℕ → W → Option (List I × W)
  pub report_violations : Violation I P → FuzzingStats → W → W
  pub store_violation_artifact : Violation I P → FuzzingStats → W → Option W
  pub today : W → ℕ × W

-- The methods that subclasses of the fuzzer override.
pub record Hooks (I P W : Type 0) : Type 0 where
  pub is_filtered : P → List I → W → FuzzingStats → Option (Bool × W × FuzzingStats)
  pub run_round : P → List I → W → FuzzingStats → Option (Option (Violation I P) × W × FuzzingStats)

module _ {I P W : Type 0} (k : Workshop I P W) (h : Hooks I P W) (o : Campaign) where
  -- Fuzzer._set_generation_function, and the call
  unfoldable pub generation_function : FuzzingMode → W → Option (P × W)
  generation_function random w = k.create_test_case o.existing_test_case w
  generation_function template w = k.create_test_case_from_template o.existing_test_case w
  generation_function asm w = k.parse_file o.existing_test_case w

  unfoldable pub prepare_inputs : P → W → Option (List I × W)
  prepare_inputs p w =
      if is_nonempty o.input_paths
      then k.load o.input_paths w
      else k.generate o.num_inputs (k.n_actors p) w

  -- the test of the timeout, at the end of an iteration
  unfoldable pub check_timeout : ℕ → W → FuzzingStats → Bool × W × FuzzingStats
  check_timeout start w s =
      if o.timeout == 0
      then (true, w, s)
      else let (now, w1) = k.today w in
        (if ltb (start + o.timeout * 1000000) now then false else true, w1, s)

  -- the report of a violation
  unfoldable pub record_violation : Violation I P → W → FuzzingStats → Option (W × FuzzingStats)
  record_violation v w s = do
    let w1 : W = k.report_violations v s w
    w2 ← (if o.save_violations then k.store_violation_artifact v s w1 else some w1)
    some (w2, record s { violations = s.violations + 1 })

  unfoldable pub after_round :
      ℕ → Option (Violation I P) → W → FuzzingStats → Option (Bool × W × FuzzingStats)
  after_round start none w s = some (check_timeout start w s)
  after_round start (some v) w s = do
    (w1, s1) ← record_violation v w s
    some (if o.nonstop then check_timeout start w1 s1 else (false, w1, s1))

  -- behind the filter
  unfoldable pub fuzz_unfiltered :
      ℕ → P → List I → Bool → W → FuzzingStats → Option (Bool × W × FuzzingStats)
  fuzz_unfiltered start p inputs true w s = some (true, w, s)
  fuzz_unfiltered start p inputs false w s = do
    (v, w1, s1) ← h.run_round p inputs w s
    after_round start v w1 s1

  -- One iteration; the Boolean tells whether the loop goes on.
  unfoldable pub fuzz_test_case : ℕ → W → FuzzingStats → Option (Bool × W × FuzzingStats)
  fuzz_test_case start w s = do
    (p, w1) ← generation_function o.mode w
    let s1 : FuzzingStats = record s { test_cases = s.test_cases + 1 }
    (inputs, w2) ← prepare_inputs p w1
    let s2 : FuzzingStats = record s1 {
      num_inputs = s1.num_inputs + length inputs * o.inputs_per_class;
    }
    (filtered, w3, s3) ← h.is_filtered p inputs w2 s2
    fuzz_unfiltered start p inputs filtered w3 s3

  unfoldable pub fuzz_from : ℕ → ℕ → W → FuzzingStats → Option (W × FuzzingStats)
  fuzz_from start zero w s = some (w, s)
  fuzz_from start (suc n) w s = do
    (more, w1, s1) ← fuzz_test_case start w s
    elim more [ true ↦ fuzz_from start n w1 s1 | false ↦ some (w1, s1) ]

  -- Fuzzer.start
  unfoldable pub start_fuzzing : W → FuzzingStats → Option (Bool × W × FuzzingStats)
  start_fuzzing w s = do
    let (start, w0) = k.today w
    (w1, s1) ← fuzz_from start o.num_test_cases w0 s
    some (ltb 0 s1.violations, w1, s1)
