-- ===== src/Fuzzer/Campaign/Overtime.antt =====
-- The timeout of the loop over test cases, which a filtered test case goes past.
use side_channel_fuzzer.Prelude.{
  ℕ, zero, suc, ◌+◌, ◌*◌, ◌≡◌, Bool, true, some, List, arith, >>=-eq-some, length,
}
use side_channel_fuzzer.Stats.{FuzzingStats}
use side_channel_fuzzer.Fuzzer.Campaign.{
  Campaign, Workshop, Hooks, generation_function, prepare_inputs, fuzz_unfiltered, fuzz_test_case,
  fuzz_from, start_fuzzing,
}
use side_channel_fuzzer.Fuzzer.Campaign.Accounts.{CountsApart}

-- a filter that throws everything away
abbrev pub ThrowsAll : {I P W : Type 0} → Hooks I P W → Type 0
ThrowsAll {I} {P} {W} h =
    (p : P) (inputs : List I) (w w' : W) (s s' : FuzzingStats) (b : Bool)
    → h.is_filtered p inputs w s ≡ some (b, w', s')
    → b ≡ true

module _ {I P W : Type 0} (k : Workshop I P W) (h : Hooks I P W) (o : Campaign) (c : CountsApart h)
    (t : ThrowsAll h) where
  thrown_test_case :
      (start : ℕ) (w w' : W) (s s' : FuzzingStats) (more : Bool)
      → fuzz_test_case k h o start w s ≡ some (more, w', s')
      → (more ≡ true) × (s'.test_cases ≡ s.test_cases + 1)
  unfolding fuzz_test_case fuzz_unfiltered
  thrown_test_case start w w' s s' more e =
      let ((p, w1), made, e1) = >>=-eq-some (generation_function k h o o.mode w) _ e in
      let ((inputs, w2), prepared, e2) = >>=-eq-some (prepare_inputs k h o p w1) _ e1 in
      let s2 : FuzzingStats = record s {
        test_cases = s.test_cases + 1;
        num_inputs = s.num_inputs + length inputs * o.inputs_per_class;
      } in
      let ((b, w3, s3), checked, e3) = >>=-eq-some (h.is_filtered p inputs w2 s2) _ e2 in
      let thrown = t p inputs w2 w3 s2 s3 b checked in
      let counts = c.by_filter p inputs w2 w3 s2 s3 b checked in (ground arith, ground arith)

  fuzz_from_thrown :
      (start n : ℕ) (w w' : W) (s s' : FuzzingStats)
      → fuzz_from k h o start n w s ≡ some (w', s')
      → s'.test_cases ≡ s.test_cases + n
  unfolding fuzz_from
  fuzz_from_thrown start zero w w' s s' e = ground arith
  fuzz_from_thrown start (suc n) w w' s s' e =
      let ((more, w1, s1), one, e1) = >>=-eq-some (fuzz_test_case k h o start w s) _ e in
      let (on, one_more) = thrown_test_case start w w1 s s1 more one in
      ground (arith, fuzz_from_thrown start n w1 w' s1 s' (rw on at e1))

  -- While the filter throws every test case away, the timeout is never looked at: whatever it is,
  -- and whatever the clock says, a campaign that does not raise makes all its test cases.
  pub overtime :
      (w w' : W) (s s' : FuzzingStats) (b : Bool)
      → start_fuzzing k h o w s ≡ some (b, w', s')
      → s'.test_cases ≡ s.test_cases + o.num_test_cases
  unfolding start_fuzzing
  overtime w w' s s' b e =
      let ((w1, s1), run, e1) =
        >>=-eq-some (fuzz_from k h o (k.today w).0 o.num_test_cases (k.today w).1 s) _ e in
      ground (arith, fuzz_from_thrown (k.today w).0 o.num_test_cases (k.today w).1 w1 s s1 run)
