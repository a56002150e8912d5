-- ===== src/Analyser/Pairs.antt =====
-- The definition of a violation in the class comment of rvzr/analyser.py, a pair of measurements
-- with one contract trace and different hardware traces, against the comparison with the first
-- measurement of each class.
use side_channel_fuzzer.Prelude.{
  ℕ, ◌≡◌, refl, sym, ◌∙◌, Bool, true, false, not, some, List, [], ◌∷◌, arith, any, All, inl, inr,
  Bool-cases, any_mono, All-of_any-false, any-false_of_All, All-map, All-filter, ◌==◌,
}
use side_channel_fuzzer.Stats.{FuzzingStats}
use side_channel_fuzzer.Traces.Contract.{CTrace}
use side_channel_fuzzer.Traces.Hardware.{HTrace}
use side_channel_fuzzer.Traces.Classes.HwSplit.{htrace_key}
use side_channel_fuzzer.Traces.Classes.CtSplit.{ctrace_key}
use side_channel_fuzzer.Traces.Classes.{Comparison, TraceBundle, Violation}
use side_channel_fuzzer.Analyser.{package_from, filter_violations}
use side_channel_fuzzer.Analyser.Refinement.{is_exposed}
use side_channel_fuzzer.Analyser.Detection.{with_digest, has_digest, filter_violations-reports}

-- What the comparison of hardware traces has to satisfy for the two to agree, on the traces that
-- are `Valid`.
pub record IsEquivalence (Valid : HTrace → Type 0) (eqv : HTrace → HTrace → Bool) : Type 0 where
  pub congruent : (x y : HTrace) → Valid x → Valid y → htrace_key x ≡ htrace_key y → eqv x y ≡ true
  pub symmetric : (x y : HTrace) → Valid x → Valid y → eqv x y ≡ true → eqv y x ≡ true
  pub transitive :
      (x y z : HTrace)
      → Valid x
      → Valid y
      → Valid z
      → eqv x y ≡ true
      → eqv y z ≡ true
      → eqv x z ≡ true

module _ {I : Type 0} (eqv : HTrace → HTrace → Bool) where
  -- some two of the measurements have hardware traces that are not equivalent
  abbrev pub has_different_pair : List (TraceBundle I) → Bool
  has_different_pair ms = any (λ a. any (λ b. not (eqv a.htrace b.htrace)) ms) ms

  pair_of_exposed :
      (m : TraceBundle I) (ms : List (TraceBundle I))
      → any (λ b. not (eqv b.htrace m.htrace)) ms ≡ true
      → has_different_pair (m ∷ ms) ≡ true
  pair_of_exposed m ms h = ground (
    arith,
    any_mono (λ b. not (eqv b.htrace m.htrace))
        (λ a. any (λ b. not (eqv a.htrace b.htrace)) (m ∷ ms)) ms (λ b d. ground arith) h,
  )

  module _ (Valid : HTrace → Type 0) (e : IsEquivalence Valid eqv) where
    -- valid, and equivalent to `m`
    abbrev Near : TraceBundle I → TraceBundle I → Type 0
    Near m b = Valid b.htrace × (eqv b.htrace m.htrace ≡ true)

    Near-pair :
        (m a b : TraceBundle I)
        → Valid m.htrace
        → Near m a
        → Near m b
        → not (eqv a.htrace b.htrace) ≡ false
    Near-pair m a b v na nb = rw (
        e.transitive a.htrace m.htrace b.htrace na.0 v nb.0 na.1
          (e.symmetric b.htrace m.htrace nb.0 v nb.1))

    no_pair :
        (m : TraceBundle I) (ms : List (TraceBundle I))
        → Valid m.htrace
        → All (Near m) ms
        → has_different_pair ms ≡ false
    no_pair m ms v h =
        any-false_of_All (λ a. any (λ b. not (eqv a.htrace b.htrace)) ms) ms
          (All-map (Near m) (λ a. any (λ b. not (eqv a.htrace b.htrace)) ms ≡ false) ms
            (λ a na.
              any-false_of_All (λ b. not (eqv a.htrace b.htrace)) ms
                (All-map (Near m) (λ b. not (eqv a.htrace b.htrace) ≡ false) ms
                  (λ b nb. Near-pair m a b v na nb) h))
            h)

    All-Near :
        (m : TraceBundle I) (ms : List (TraceBundle I))
        → All (λ b. Valid b.htrace) ms
        → All (λ b. not (eqv b.htrace m.htrace) ≡ false) ms
        → All (Near m) ms
    All-Near m [] v h = tt
    All-Near m (b ∷ ms) v h = ((v.0, ground arith), All-Near m ms v.1 h.1)

    exposed-pair :
        (ms : List (TraceBundle I))
        → All (λ b. Valid b.htrace) ms
        → is_exposed eqv ms ≡ has_different_pair ms
    unfolding is_exposed
    exposed-pair [] v = refl
    exposed-pair (m ∷ ms) v = elim (Bool-cases (any (λ b. not (eqv b.htrace m.htrace)) ms)) [
      | inl some_differs ↦ rw some_differs (sym (pair_of_exposed m ms some_differs))
      | inr none_differs ↦
          let near : All (Near m) ms =
            All-Near m ms v.1
              (All-of_any-false (λ b. not (eqv b.htrace m.htrace)) ms none_differs) in
          rw none_differs
            (sym (no_pair m (m ∷ ms) v.0 ((v.0, e.congruent m.htrace m.htrace v.0 v.0 refl), near)))
    ]

    -- With a comparison that decides the traces at hand by an equivalence, under which traces with one
    -- key in the dictionary are equivalent, and on contract traces of which no two with one key have
    -- different digests: if the measurements can be packaged, the analyser does not raise, and a
    -- violation of a digest is reported exactly if two of the measurements with that digest have
    -- hardware traces that are not equivalent.
    pub filter_violations-pairs :
        {P : Type 0} (compare : Comparison)
        (decided : (x y : HTrace) → Valid x → Valid y → compare x y ≡ some (eqv x y))
        (Sound : CTrace → Type 0)
        (injective : (x y : CTrace)
          → Sound x
          → Sound y
          → ctrace_key x ≡ ctrace_key y
          → x.hash ≡ y.hash)
        (test_case_code : P) (ctraces : List CTrace) (htraces : List HTrace) (inputs : List I)
        (stats_ : Bool) (stat : FuzzingStats) (ms : List (TraceBundle I))
        → package_from ctraces inputs 0 htraces ≡ some ms
        → All (λ m. Valid m.htrace) ms
        → All (λ m. Sound m.ctrace) ms
        → (vs : List (Violation I P)) × (stat' : FuzzingStats) × (filter_violations compare ctraces
              htraces test_case_code inputs stats_ stat
            ≡ some (vs, stat'))
          × ((h : ℕ) → any (has_digest h) vs ≡ has_different_pair (with_digest h ms))
    filter_violations-pairs compare decided Sound injective test_case_code ctraces htraces inputs
          stats_ stat ms packaged v w =
        let (vs, stat', run, found) =
          filter_violations-reports eqv compare Valid decided e.congruent Sound injective
            test_case_code ctraces htraces inputs stats_ stat ms packaged v w in
        (
          vs,
          stat',
          run,
          λ h.
              found h
              ∙ exposed-pair (with_digest h ms)
                  (All-filter (λ m. Valid m.htrace) (λ m. m.ctrace.hash == h) ms v),
        )
