-- ===== src/Analyser/Counting.antt =====
-- What an analysis counts: the counters that `filter_violations` moves, and by how much.
use side_channel_fuzzer.Prelude.{
  ◌+◌, ◌≤◌, ◌≡◌, Bool, true, false, some, List, [], ◌∷◌, arith, if◌then◌else◌, >>=-eq-some,
}
use side_channel_fuzzer.Stats.{FuzzingStats}
use side_channel_fuzzer.Traces.Contract.{CTrace}
use side_channel_fuzzer.Traces.Hardware.{HTrace}
use side_channel_fuzzer.Traces.Classes.{Comparison, TraceBundle, Violation}
use side_channel_fuzzer.Analyser.{package_from, analyse, analyse_nonempty, filter_violations}
use side_channel_fuzzer.Fuzzer.Round.Tally.{discarded, outer}

-- An analysis moves no counter of the round, and counts the test case at most once, if told to.
pub record CountedOnce (stats_ : Bool) (s s' : FuzzingStats) : Type 0 where
  pub same_discarded : discarded s' ≡ discarded s
  pub analysed : s'.analysed_test_cases ≤ s.analysed_test_cases + (if stats_ then 1 else 0)
  pub same_outer : outer s' ≡ outer s

module _ {I P : Type 0} (compare : Comparison) (test_case : P) (inputs : List I) where
  analyse-CountedOnce :
      (stats_ : Bool) (ms : List (TraceBundle I)) (s s' : FuzzingStats) (vs : List (Violation I P))
      → analyse compare test_case inputs stats_ ms s ≡ some (vs, s')
      → CountedOnce stats_ s s'
  unfolding analyse
  analyse-CountedOnce true ms s s' vs h = record {
    same_discarded = ground arith;
    analysed = ground arith;
    same_outer = ground arith;
  }
  analyse-CountedOnce false ms s s' vs h = record {
    same_discarded = ground arith;
    analysed = ground arith;
    same_outer = ground arith;
  }

  analyse_nonempty-CountedOnce :
      (stats_ : Bool) (ms : List (TraceBundle I)) (s s' : FuzzingStats) (vs : List (Violation I P))
      → analyse_nonempty compare test_case inputs stats_ ms s ≡ some (vs, s')
      → CountedOnce stats_ s s'
  unfolding analyse_nonempty
  analyse_nonempty-CountedOnce stats_ [] s s' vs h = record {
    same_discarded = ground arith;
    analysed = ground arith;
    same_outer = ground arith;
  }
  analyse_nonempty-CountedOnce stats_ (m ∷ ms) s s' vs h =
      analyse-CountedOnce stats_ (m ∷ ms) s s' vs h

  pub filter_violations-CountedOnce :
      (ctraces : List CTrace) (htraces : List HTrace) (stats_ : Bool) (s s' : FuzzingStats)
      (vs : List (Violation I P))
      → filter_violations compare ctraces htraces test_case inputs stats_ s ≡ some (vs, s')
      → CountedOnce stats_ s s'
  unfolding filter_violations
  filter_violations-CountedOnce ctraces [] stats_ s s' vs h = record {
    same_discarded = ground arith;
    analysed = ground arith;
    same_outer = ground arith;
  }
  filter_violations-CountedOnce ctraces (t ∷ ts) stats_ s s' vs h =
      let (ms, packaged, run) = >>=-eq-some (package_from ctraces inputs 0 (t ∷ ts)) _ h in
      analyse_nonempty-CountedOnce stats_ ms s s' vs run
