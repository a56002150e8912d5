-- ===== src/Fuzzer/Variants/Laws.antt =====
-- The hooks of the fuzzers count as the loop over test cases relies on.
use side_channel_fuzzer.Prelude.{
  ℕ, ◌+◌, ◌≤◌, ◌≡◌, Bool, true, not, ◌&&◌, Option, none, some, List, [], arith, if◌then◌else◌, inl,
  inr, Bool-cases, >>=-eq-some, all,
}
use side_channel_fuzzer.Stats.{FuzzingStats}
use side_channel_fuzzer.Traces.Hardware.{HTrace}
use side_channel_fuzzer.Traces.Classes.{Violation}
use side_channel_fuzzer.Fuzzer.{FuzzConf, Modules, RoundManager}
use side_channel_fuzzer.Fuzzer.Round.{fuzzing_round}
use side_channel_fuzzer.Fuzzer.Round.Tally.{discarded, outer, CountsOnce}
use side_channel_fuzzer.Fuzzer.Round.Ending.{Ending, fuzzing_round-Ending}
use side_channel_fuzzer.Fuzzer.Campaign.Accounts.{filtered, reported, CountsApart}
use side_channel_fuzzer.Fuzzer.Filtering.{
  FilterConf, FilterModules, shows_no_speculation, speculation_filter, measure, traces_match,
  compare_fenced, observation_filter, filter_traces_x86, filter_traces_arm64,
  in_quick_and_dirty_mode, filter_x86, filter_arm64,
}
use side_channel_fuzzer.Fuzzer.Variants.{standard_round, fuzzer_x86, fuzzer_arm64}

-- A filter counts at most the test case that it throws away, and no other counter moves.
abbrev Sifts : FuzzingStats → FuzzingStats → Bool → Type 0
Sifts s s' b =
    (filtered s' ≤ filtered s + (if b then 1 else 0))
    × (discarded s' ≡ discarded s)
    × (s'.test_cases ≡ s.test_cases)
    × (s'.violations ≡ s.violations)

module _ {I P W : Type 0} (m : FilterModules I P W) (conf : FilterConf) where
  compare_fenced-Sifts :
      (inputs : List I) (org : List HTrace) (traces : Option (List HTrace)) (w w' : W)
      (s s' : FuzzingStats) (b : Bool)
      → compare_fenced m conf inputs org traces w s ≡ some (b, w', s')
      → Sifts s s' b
  unfolding compare_fenced
  compare_fenced-Sifts inputs org none w w' s s' b h = ground arith
  compare_fenced-Sifts inputs org (some fenced) w w' s s' b h =
      let (same, compared, e) = >>=-eq-some (traces_match m conf inputs fenced org) _ h in
      elim (Bool-cases same) [ inl yes_ ↦ ground arith | inr no_ ↦ ground arith ]

  observation_filter-Sifts :
      (p : P) (inputs : List I) (org : List HTrace) (w w' : W) (s s' : FuzzingStats) (b : Bool)
      → observation_filter m conf p inputs org w s ≡ some (b, w', s')
      → Sifts s s' b
  unfolding observation_filter measure compare_fenced traces_match
  observation_filter-Sifts p inputs org w w' s s' b h =
      elim (Bool-cases conf.enable_observation_filter) [
        | inl on ↦
            let (written, wrote, e) = >>=-eq-some (m.fence (m.read_lines p w)) _ (rw on at h) in
            let ((fenced, w1), parsed, e1) = >>=-eq-some (m.parse_lines written w) _ e in
            compare_fenced-Sifts inputs org (measure m conf fenced inputs w1).0
              (measure m conf fenced inputs w1).1 w' s s' b e1
        | inr off ↦ ground arith
      ]

  filter_traces_x86-Sifts :
      (p : P) (inputs : List I) (org : Option (List HTrace)) (w w' : W) (s s' : FuzzingStats)
      (b : Bool)
      → filter_traces_x86 m conf p inputs org w s ≡ some (b, w', s')
      → Sifts s s' b
  unfolding filter_traces_x86 speculation_filter
  filter_traces_x86-Sifts p inputs none w w' s s' b h = ground arith
  filter_traces_x86-Sifts p inputs (some org) w w' s s' b h =
      let quiet : Bool = conf.enable_speculation_filter && all shows_no_speculation org in
      elim (Bool-cases quiet) [
        | inl thrown ↦ ground arith
        | inr kept ↦ observation_filter-Sifts p inputs org w w' s s' b (ground arith)
      ]

  filter_traces_arm64-Sifts :
      (p : P) (inputs : List I) (org : Option (List HTrace)) (w w' : W) (s s' : FuzzingStats)
      (b : Bool)
      → filter_traces_arm64 m conf p inputs org w s ≡ some (b, w', s')
      → Sifts s s' b
  unfolding filter_traces_arm64
  filter_traces_arm64-Sifts p inputs none w w' s s' b h = ground arith
  filter_traces_arm64-Sifts p inputs (some org) w w' s s' b h =
      observation_filter-Sifts p inputs org w w' s s' b h

  mode-Sifts :
      (body : W → Option (Bool × W × FuzzingStats)) (w w' : W) (s s' : FuzzingStats) (b : Bool)
      → ((v v' : W) → body v ≡ some (b, v', s') → Sifts s s' b)
      → in_quick_and_dirty_mode m conf body w ≡ some (b, w', s')
      → Sifts s s' b
  unfolding in_quick_and_dirty_mode
  mode-Sifts body w w' s s' b inside h =
      let ((b1, w1, s1), run, e) = >>=-eq-some (body (m.set_quick_and_dirty true w)) _ h in
      inside (m.set_quick_and_dirty true w) w1 (ground arith)

  pub filter_x86-Sifts :
      (p : P) (inputs : List I) (w w' : W) (s s' : FuzzingStats) (b : Bool)
      → filter_x86 m conf p inputs w s ≡ some (b, w', s')
      → Sifts s s' b
  unfolding filter_x86
  filter_x86-Sifts p inputs w w' s s' b h =
      elim (Bool-cases (not conf.enable_speculation_filter && not conf.enable_observation_filter)) [
        | inl off ↦ ground arith
        | inr on ↦
            mode-Sifts _ w w' s s' b
              (λ v v' e.
                filter_traces_x86-Sifts p inputs (measure m conf p inputs v).0
                  (measure m conf p inputs v).1 v' s s' b e)
              (rw on at h)
      ]

  pub filter_arm64-Sifts :
      (p : P) (inputs : List I) (w w' : W) (s s' : FuzzingStats) (b : Bool)
      → filter_arm64 m conf p inputs w s ≡ some (b, w', s')
      → Sifts s s' b
  unfolding filter_arm64
  filter_arm64-Sifts p inputs w w' s s' b h =
      elim (Bool-cases (not conf.enable_observation_filter)) [
        | inl off ↦ ground arith
        | inr on ↦
            mode-Sifts _ w w' s s' b
              (λ v v' e.
                filter_traces_arm64-Sifts p inputs (measure m conf p inputs v).0
                  (measure m conf p inputs v).1 v' s s' b e)
              (rw on at h)
      ]

module _ {I T P W : Type 0} (m : Modules I T P W) (conf : FuzzConf) (c : CountsOnce m) where
  ending_lem :
      (n : ℕ) (v : Option (Violation I P)) (r : RoundManager I P W)
      → Ending n v r
      → discarded r.stat + reported v ≤ n + 1
  ending_lem n v r (Ending.nothing_left e empty d) = ground arith
  ending_lem n v r (Ending.model_differs e some_arch d) = ground arith
  ending_lem n v r (Ending.reports u e first same d) = ground arith

  standard_round-reported :
      (is_speculative : Bool) (p : P) (inputs : List I) (w w' : W) (s s' : FuzzingStats)
      (v : Option (Violation I P))
      → standard_round m conf is_speculative p inputs w s ≡ some (v, w', s')
      → (discarded s' + reported v ≤ discarded s + 1) × (outer s' ≡ outer s)
  unfolding standard_round
  standard_round-reported is_speculative p inputs w w' s s' v h =
      let ((u, r), run, e) =
        >>=-eq-some (fuzzing_round m conf is_speculative p inputs [] w s) _ h in
      let (ending, a, same) =
        fuzzing_round-Ending m conf c is_speculative p inputs [] w s u r run in
      let counted = ending_lem (discarded s) u r ending in (ground arith, ground arith)

  pub fuzzer_x86-CountsApart :
      (f : FilterModules I P W) (filter_conf : FilterConf) (is_speculative : Bool)
      → CountsApart (fuzzer_x86 m conf f filter_conf is_speculative)
  fuzzer_x86-CountsApart f filter_conf is_speculative = record {
    by_filter = filter_x86-Sifts f filter_conf;
    by_round = standard_round-reported is_speculative;
  }

  pub fuzzer_arm64-CountsApart :
      (f : FilterModules I P W) (filter_conf : FilterConf) (is_speculative : Bool)
      → CountsApart (fuzzer_arm64 m conf f filter_conf is_speculative)
  fuzzer_arm64-CountsApart f filter_conf is_speculative = record {
    by_filter = filter_arm64-Sifts f filter_conf;
    by_round = standard_round-reported is_speculative;
  }
