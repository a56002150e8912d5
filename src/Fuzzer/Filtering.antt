-- ===== src/Fuzzer/Filtering.antt =====
-- `_filter` of rvzr/arch/x86/fuzzer.py and rvzr/arch/arm64/fuzzer.py: test cases that are thrown
-- away before they are fuzzed. A hardware trace that is `none` is an `IOError`.
-- HOO
use side_channel_fuzzer.Prelude.{
  ℕ, ◌+◌, Bool, true, false, not, ◌&&◌, ◌||◌, Option, none, some, List, [], ◌∷◌, ◌>>=◌,
  if◌then◌else◌, ltb, ◌==◌, all,
}
use side_channel_fuzzer.Prelude.Texts.{Text}
use side_channel_fuzzer.Stats.{FuzzingStats}
use side_channel_fuzzer.Traces.Hardware.{HTrace, get_max_pfc}

-- the options of `CONF` that the filters read
pub record FilterConf : Type 0 where
  pub enable_speculation_filter : Bool
  pub enable_observation_filter : Bool
  pub executor_filtering_repetitions : ℕ

-- What the filters call in other modules; `executor_load` returns whether it went without an
-- `IOError`, and `fence` is the version of the target.
pub record FilterModules (I P W : Type 0) : Type 0 where
  pub executor_load : P → W → Bool × W
  pub trace_hardware : List I → ℕ → W → Option (List HTrace) × W
  pub set_quick_and_dirty : Bool → W → W
  pub read_lines : P → W → List Text
  pub fence : List Text → Option (List Text)
  pub parse_lines : List Text → W → Option (P × W)
  pub htraces_are_equivalent : HTrace → HTrace → Bool

-- A trace whose counters are valid and show no misprediction.
unfoldable pub shows_no_speculation : HTrace → Bool
unfolding get_max_pfc
shows_no_speculation t =
    let (pfc0, pfc1, pfc2, _, _) = (get_max_pfc t).0 in
    not (pfc0 == 0) && not (ltb pfc1 pfc0 || ltb 0 pfc2)

module _ {I P W : Type 0} (m : FilterModules I P W) (conf : FilterConf) where
  -- X86Fuzzer._speculation_filter
  unfoldable pub speculation_filter : List HTrace → FuzzingStats → Bool × FuzzingStats
  unfolding shows_no_speculation
  speculation_filter htraces s =
      if conf.enable_speculation_filter && all shows_no_speculation htraces
      then (true, record s { spec_filter = s.spec_filter + 1 })
      else (false, s)

  -- the measurement of a program, in `try`
  unfoldable pub measure : P → List I → W → Option (List HTrace) × W
  measure p inputs w =
      let (loaded, w1) = m.executor_load p w in
      if loaded then m.trace_hardware inputs conf.executor_filtering_repetitions w1 else (none, w1)

  -- The loop of _observation_filter; a missing trace raises.
  unfoldable pub traces_match : List I → List HTrace → List HTrace → Option Bool
  traces_match [] fenced org = some true
  traces_match (i ∷ inputs) (f ∷ fenced) (t ∷ org) =
      let rest = traces_match inputs fenced org in
      if m.htraces_are_equivalent f t then rest else some false
  traces_match (i ∷ inputs) _ _ = none

  -- behind the measurement of the fenced program
  unfoldable pub compare_fenced :
      List I
      → List HTrace
      → Option (List HTrace)
      → W
      → FuzzingStats
      → Option (Bool × W × FuzzingStats)
  compare_fenced inputs org none w s = some (true, w, s)
  compare_fenced inputs org (some fenced) w s = do
    same ← traces_match inputs fenced org
    some (
        if same then (true, w, record s { observ_filter = s.observ_filter + 1 }) else (false, w, s))

  -- _observation_filter of both targets
  unfoldable pub observation_filter :
      P → List I → List HTrace → W → FuzzingStats → Option (Bool × W × FuzzingStats)
  observation_filter p inputs org w s =
      if conf.enable_observation_filter
      then (do
        written ← m.fence (m.read_lines p w)
        (fenced, w1) ← m.parse_lines written w
        let (traces, w2) = measure fenced inputs w1
        compare_fenced inputs org traces w2 s)
      else some (false, w, s)

  -- behind the measurement of the program: the two filters
  unfoldable pub filter_traces_x86 :
      P → List I → Option (List HTrace) → W → FuzzingStats → Option (Bool × W × FuzzingStats)
  filter_traces_x86 p inputs none w s = some (true, w, s)
  filter_traces_x86 p inputs (some org) w s =
      let (quiet, s1) = speculation_filter org s in
      if quiet then some (true, w, s1) else observation_filter p inputs org w s1

  unfoldable pub filter_traces_arm64 :
      P → List I → Option (List HTrace) → W → FuzzingStats → Option (Bool × W × FuzzingStats)
  filter_traces_arm64 p inputs none w s = some (true, w, s)
  filter_traces_arm64 p inputs (some org) w s = observation_filter p inputs org w s

  -- `with _quick_and_dirty_mode(self.executor)`
  unfoldable pub in_quick_and_dirty_mode :
      (W → Option (Bool × W × FuzzingStats)) → W → Option (Bool × W × FuzzingStats)
  in_quick_and_dirty_mode body w = do
    (b, w1, s1) ← body (m.set_quick_and_dirty true w)
    some (b, m.set_quick_and_dirty false w1, s1)

  -- X86Fuzzer._filter
  unfoldable pub filter_x86 : P → List I → W → FuzzingStats → Option (Bool × W × FuzzingStats)
  filter_x86 p inputs w s =
      if not conf.enable_speculation_filter && not conf.enable_observation_filter
      then some (false, w, s)
      else in_quick_and_dirty_mode
          (λ w1. let (org, w2) = measure p inputs w1 in filter_traces_x86 p inputs org w2 s) w

  -- ARM64Fuzzer._filter
  unfoldable pub filter_arm64 : P → List I → W → FuzzingStats → Option (Bool × W × FuzzingStats)
  filter_arm64 p inputs w s =
      if not conf.enable_observation_filter
      then some (false, w, s)
      else in_quick_and_dirty_mode
          (λ w1. let (org, w2) = measure p inputs w1 in filter_traces_arm64 p inputs org w2 s) w
