-- ===== src/Fuzzer/Campaign/Accounts.antt =====
-- What the loop over test cases counts.
use side_channel_fuzzer.Prelude.{
  ℕ, zero, suc, ◌+◌, ◌*◌, ◌≤◌, ◌≡◌, Bool, true, false, Option, none, some, List, if◌then◌else◌, ltb,
  arith, inl, inr, Bool-cases, ◌⊎◌, >>=-eq-some, length,
}
use side_channel_fuzzer.Stats.{FuzzingStats}
use side_channel_fuzzer.Traces.Classes.{Violation}
use side_channel_fuzzer.Fuzzer.Campaign.{
  Campaign, Workshop, Hooks, generation_function, prepare_inputs, check_timeout, record_violation,
  after_round, fuzz_unfiltered, fuzz_test_case, fuzz_from, start_fuzzing,
}
use side_channel_fuzzer.Fuzzer.Round.Tally.{discarded, outer}

-- the test cases that a filter threw away
abbrev pub filtered : FuzzingStats → ℕ
filtered s = s.spec_filter + s.observ_filter

-- the test cases that ended in one of the counters
abbrev pub accounted : FuzzingStats → ℕ
accounted s = discarded s + filtered s + s.violations

abbrev pub reported : {A : Type 0} → Option A → ℕ
reported none = 0
reported (some a) = 1

-- What the loop relies on in the overridden methods: a filter counts at most the test case that it
-- throws away, a round counts at most one test case that it discards and none that it reports, and
-- neither moves the counters of the loop.
pub record CountsApart {I P W : Type 0} (h : Hooks I P W) : Type 0 where
  pub by_filter :
      (p : P) (inputs : List I) (w w' : W) (s s' : FuzzingStats) (b : Bool)
      → h.is_filtered p inputs w s ≡ some (b, w', s')
      → (filtered s' ≤ filtered s + (if b then 1 else 0))
        × (discarded s' ≡ discarded s)
        × (s'.test_cases ≡ s.test_cases)
        × (s'.violations ≡ s.violations)
  pub by_round :
      (p : P) (inputs : List I) (w w' : W) (s s' : FuzzingStats) (v : Option (Violation I P))
      → h.run_round p inputs w s ≡ some (v, w', s')
      → (discarded s' + reported v ≤ discarded s + 1) × (outer s' ≡ outer s)

module _ {I P W : Type 0} (k : Workshop I P W) (h : Hooks I P W) (o : Campaign)
    (c : CountsApart h) where
  -- one iteration: one test case, accounted at most once, at most one violation, and the loop goes
  -- on if it shall not stop and there is no timeout
  record Counted (s s' : FuzzingStats) (more : Bool) : Type 0 where
    once : accounted s' ≤ accounted s + 1
    one_more : s'.test_cases ≡ s.test_cases + 1
    found : s.violations ≤ s'.violations
    stops : more ≡ true → o.nonstop ≡ false → s'.violations ≡ s.violations
    single : s'.violations ≤ s.violations + 1
    goes_on :
        o.timeout ≡ 0 → more ≡ false → (o.nonstop ≡ false) × (s'.violations ≡ s.violations + 1)

  check_timeout-stat :
      (start : ℕ) (w w' : W) (s s' : FuzzingStats) (more : Bool)
      → check_timeout k h o start w s ≡ (more, w', s')
      → s' ≡ s
  unfolding check_timeout
  check_timeout-stat start w w' s s' more e = ground arith

  check_timeout-more :
      (start : ℕ) (w w' : W) (s s' : FuzzingStats) (more : Bool)
      → check_timeout k h o start w s ≡ (more, w', s')
      → o.timeout ≡ 0
      → more ≡ true
  unfolding check_timeout
  check_timeout-more start w w' s s' more e t = ground arith

  record_violation-stat :
      (v : Violation I P) (w w' : W) (s s' : FuzzingStats)
      → record_violation k h o v w s ≡ some (w', s')
      → s' ≡ record s { violations = s.violations + 1 }
  unfolding record_violation
  record_violation-stat v w w' s s' e = ground arith

  -- behind a round, with the number of test cases and counters at its start
  after_round-Counted :
      (start : ℕ) (v : Option (Violation I P)) (w w' : W) (s0 s s' : FuzzingStats) (more : Bool)
      → discarded s + filtered s + reported v + s.violations ≤ accounted s0 + 1
      → s.test_cases ≡ s0.test_cases + 1
      → s.violations ≡ s0.violations
      → after_round k h o start v w s ≡ some (more, w', s')
      → Counted s0 s' more
  unfolding after_round
  after_round-Counted start none w w' s0 s s' more a t u e =
      let same : s' ≡ s = check_timeout-stat start w w' s s' more (ground arith) in
      record {
        once = ground arith;
        one_more = ground arith;
        found = ground arith;
        stops = λ m q. ground arith;
        single = ground arith;
        goes_on = λ z m.
            absurd (ground (arith, check_timeout-more start w w' s s' more (ground arith) z));
      }
  after_round-Counted start (some v) w w' s0 s s' more a t u e =
      let ((w1, s1), stored, e1) = >>=-eq-some (record_violation k h o v w s) _ e in
      let counted : s1 ≡ record s { violations = s.violations + 1 } =
        record_violation-stat v w w1 s s1 stored in
      elim (Bool-cases o.nonstop) [
        | inl on ↦
            let checked : check_timeout k h o start w1 s1 ≡ (more, w', s') = ground arith in
            let same : s' ≡ s1 = check_timeout-stat start w1 w' s1 s' more checked in
            record {
              once = ground arith;
              one_more = ground arith;
              found = ground arith;
              stops = λ m q. absurd (cc);
              single = ground arith;
              goes_on = λ z m.
                  absurd (ground (arith, check_timeout-more start w1 w' s1 s' more checked z));
            }
        | inr off ↦
            let same : s' ≡ s1 = ground arith in
            let ended : more ≡ false = ground arith in
            record {
              once = ground arith;
              one_more = ground arith;
              found = ground arith;
              stops = λ m q. absurd (ground arith);
              single = ground arith;
              goes_on = λ z m. (off, ground arith);
            }
      ]

  fuzz_test_case-Counted :
      (start : ℕ) (w w' : W) (s s' : FuzzingStats) (more : Bool)
      → fuzz_test_case k h o start w s ≡ some (more, w', s')
      → Counted s s' more
  unfolding fuzz_test_case fuzz_unfiltered
  fuzz_test_case-Counted start w w' s s' more e =
      let ((p, w1), made, e1) = >>=-eq-some (generation_function k h o o.mode w) _ e in
      let ((inputs, w2), prepared, e2) = >>=-eq-some (prepare_inputs k h o p w1) _ e1 in
      let s2 : FuzzingStats = record s {
        test_cases = s.test_cases + 1;
        num_inputs = s.num_inputs + length inputs * o.inputs_per_class;
      } in
      let ((b, w3, s3), checked, e3) = >>=-eq-some (h.is_filtered p inputs w2 s2) _ e2 in
      let (f, d, t, u) = c.by_filter p inputs w2 w3 s2 s3 b checked in
      elim (Bool-cases b) [
        | inl thrown ↦ record {
          once = ground arith;
          one_more = ground arith;
          found = ground arith;
          stops = λ m q. ground arith;
          single = ground arith;
          goes_on = λ z m. absurd (ground arith);
        }
        | inr kept ↦
            let ((v, w4, s4), run, e4) =
              >>=-eq-some (h.run_round p inputs w3 s3) _ (rw kept at e3) in
            let (a, same) = c.by_round p inputs w3 w4 s3 s4 v run in
            after_round-Counted start v w4 w' s s4 s' more (ground arith) (ground arith)
              (ground arith) e4
      ]

  -- what `n` iterations do to the counters
  abbrev Looped : ℕ → FuzzingStats → FuzzingStats → Type 0
  Looped n s s' =
      (accounted s' + s.test_cases ≤ accounted s + s'.test_cases)
      × (s.test_cases ≤ s'.test_cases)
      × (s'.test_cases ≤ s.test_cases + n)
      × (s.violations ≤ s'.violations)
      × (s'.violations ≤ s.violations + (if o.nonstop then n else 1))

  fuzz_from-Looped :
      (start n : ℕ) (w w' : W) (s s' : FuzzingStats)
      → fuzz_from k h o start n w s ≡ some (w', s')
      → Looped n s s'
  unfolding fuzz_from
  fuzz_from-Looped start zero w w' s s' e = ground arith
  fuzz_from-Looped start (suc n) w w' s s' e =
      let ((more, w1, s1), one, e1) = >>=-eq-some (fuzz_test_case k h o start w s) _ e in
      let i : Counted s s1 more = fuzz_test_case-Counted start w w1 s s1 more one in
      let once = i.once in
      let one_more = i.one_more in
      let found = i.found in
      let single = i.single in
      elim (Bool-cases more) [
        | inl on ↦
            let (a, t, b, v, u) = fuzz_from-Looped start n w1 w' s1 s' (rw on at e1) in
            let stops = i.stops on in
            elim (Bool-cases o.nonstop) [
              | inl keep ↦ ground arith
              | inr stop ↦ ground (arith, stops stop)
            ]
        | inr off ↦ ground arith
      ]

  fuzz_from-exhausts :
      (start n : ℕ) (w w' : W) (s s' : FuzzingStats)
      → o.timeout ≡ 0
      → fuzz_from k h o start n w s ≡ some (w', s')
      → (s'.test_cases ≡ s.test_cases + n)
        ⊎ ((o.nonstop ≡ false) × (s'.violations ≡ s.violations + 1))
  unfolding fuzz_from
  fuzz_from-exhausts start zero w w' s s' t e = inl (ground arith)
  fuzz_from-exhausts start (suc n) w w' s s' t e =
      let ((more, w1, s1), one, e1) = >>=-eq-some (fuzz_test_case k h o start w s) _ e in
      let i : Counted s s1 more = fuzz_test_case-Counted start w w1 s s1 more one in
      let one_more = i.one_more in
      elim (Bool-cases more) [
        | inl on ↦ elim (fuzz_from-exhausts start n w1 w' s1 s' t (rw on at e1)) [
          | inl all ↦ inl (omega arith)
          | inr (stop, u) ↦ let stops = i.stops on stop in inr (stop, omega arith)
        ]
        | inr off ↦ let (stop, u) = i.goes_on t off in inr (stop, ground arith)
      ]

  -- If filters and rounds count as they should, and the loop over test cases does not raise, then the
  -- result is true exactly if the counter of violations is not zero, at most the given number of test
  -- cases were made, each of them was accounted at most once (as thrown away by a filter, as
  -- discarded by a stage, or as a violation), and without the option `nonstop` at most one violation
  -- was counted.
  pub start_fuzzing-accounts :
      (w w' : W) (s s' : FuzzingStats) (b : Bool)
      → start_fuzzing k h o w s ≡ some (b, w', s')
      → (b ≡ ltb 0 s'.violations)
        × (accounted s' + s.test_cases ≤ accounted s + s'.test_cases)
        × (s'.test_cases ≤ s.test_cases + o.num_test_cases)
        × (s'.violations ≤ s.violations + (if o.nonstop then o.num_test_cases else 1))
  unfolding start_fuzzing
  start_fuzzing-accounts w w' s s' b e =
      let ((w1, s1), run, e1) =
        >>=-eq-some (fuzz_from k h o (k.today w).0 o.num_test_cases (k.today w).1 s) _ e in
      let (a, t, n, v, u) =
        fuzz_from-Looped (k.today w).0 o.num_test_cases (k.today w).1 w1 s s1 run in
      let same : s' ≡ s1 = ground arith in (ground arith, ground arith, ground arith, ground arith)

  -- Without a timeout, a campaign that does not raise makes all its test cases, or stops at the first
  -- violation, and only if it was not told to go on.
  pub start_fuzzing-exhausts :
      (w w' : W) (s s' : FuzzingStats) (b : Bool)
      → o.timeout ≡ 0
      → start_fuzzing k h o w s ≡ some (b, w', s')
      → (s'.test_cases ≡ s.test_cases + o.num_test_cases)
        ⊎ ((o.nonstop ≡ false) × (s'.violations ≡ s.violations + 1) × (b ≡ true))
  unfolding start_fuzzing
  start_fuzzing-exhausts w w' s s' b t e =
      let ((w1, s1), run, e1) =
        >>=-eq-some (fuzz_from k h o (k.today w).0 o.num_test_cases (k.today w).1 s) _ e in
      let same : s' ≡ s1 = ground arith in
      elim (fuzz_from-exhausts (k.today w).0 o.num_test_cases (k.today w).1 w1 s s1 t run) [
        | inl all ↦ inl (ground arith)
        | inr (stop, u) ↦ inr (stop, ground arith, ground arith)
      ]
