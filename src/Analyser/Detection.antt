-- ===== src/Analyser/Detection.antt =====
-- Which violations `filter_violations` reports.
use side_channel_fuzzer.Prelude.{
  ℕ, ◌≡◌, refl, ap, ◌∙◌, Bool, true, ◌&&◌, ◌||◌, some, List, [], ◌∷◌, map, arith, leb, length,
  filter, any, All, eq→==, ◌==◌, any-map, any-filter,
}
use mathlib.Core.Path.{fun_ext}
use side_channel_fuzzer.Stats.{FuzzingStats}
use side_channel_fuzzer.Grouping.{group_from, Separate-group_from}
use side_channel_fuzzer.Grouping.Members.{
  Headed-group_from, members, members-group_from, any-members, is_nonempty,
}
use side_channel_fuzzer.Traces.Contract.{CTrace}
use side_channel_fuzzer.Traces.Hardware.{HTrace}
use side_channel_fuzzer.Traces.Classes.HwSplit.{htrace_key}
use side_channel_fuzzer.Traces.Classes.{Comparison, TraceBundle, ContractEqClass, Violation}
use side_channel_fuzzer.Traces.Classes.CtSplit.{
  ctrace_of, ctrace_hash, ctrace_key, same_ctrace_hash, ct_grouping, ct_class_of,
}
use side_channel_fuzzer.Analyser.{
  is_effective, sort_insert, sort_by_ctrace, package_from, analyse_nonempty, filter_violations,
}
use side_channel_fuzzer.Analyser.Refinement.{
  is_exposed, effective_classes, is_counterexample, violation_of, analyse_lem,
}

module _ {I : Type 0} where
  any-sort_insert :
      (p : ContractEqClass I → Bool) (c : ContractEqClass I) (cs : List (ContractEqClass I))
      → any p (sort_insert c cs) ≡ any p (c ∷ cs)
  unfolding sort_insert
  any-sort_insert p c [] = refl
  any-sort_insert p c (d ∷ ds) = ground (arith, any-sort_insert p c ds)

  any-sort :
      (p : ContractEqClass I → Bool) (cs : List (ContractEqClass I))
      → any p (sort_by_ctrace cs) ≡ any p cs
  unfolding sort_by_ctrace
  any-sort p [] = refl
  any-sort p (c ∷ cs) = any-sort_insert p c (sort_by_ctrace cs) ∙ ap (λ b. p c || b) (any-sort p cs)

  All-Unit : (ms : List (TraceBundle I)) → All (λ m. Unit {0}) ms
  All-Unit [] = tt
  All-Unit (m ∷ ms) = (tt, All-Unit ms)

  -- the measurements whose contract trace has digest `h`
  abbrev pub with_digest : ℕ → List (TraceBundle I) → List (TraceBundle I)
  with_digest h ms = filter (λ m. m.ctrace.hash == h) ms

  abbrev pub has_digest : {P : Type 0} → ℕ → Violation I P → Bool
  has_digest h v = v.eq_class.ctrace.hash == h

  module _ (eqv : HTrace → HTrace → Bool) where
    exposed-effective :
        (h : ℕ) (c : ContractEqClass I)
        → (is_effective c && (is_exposed eqv c.measurements && (c.ctrace.hash == h)))
          ≡ ((c.ctrace.hash == h) && is_exposed eqv c.measurements)
    unfolding is_exposed
    exposed-effective h c = go c.measurements
      where
        go :
            (ms : List (TraceBundle I))
            → (leb 2 (length ms) && (is_exposed eqv ms && (c.ctrace.hash == h)))
              ≡ ((c.ctrace.hash == h) && is_exposed eqv ms)
        go [] = ground arith
        go (m ∷ []) = ground arith
        go (m ∷ m' ∷ ms) = ground arith

    exposed-nonempty :
        (ms : List (TraceBundle I)) → (is_nonempty ms && is_exposed eqv ms) ≡ is_exposed eqv ms
    unfolding is_exposed
    exposed-nonempty [] = refl
    exposed-nonempty (m ∷ ms) = refl

    reported :
        (h : ℕ) (ms : List (TraceBundle I))
        → any
            (λ (c : ContractEqClass I). c.ctrace.hash == h)
            (filter (is_counterexample eqv) (effective_classes ms))
          ≡ is_exposed eqv (with_digest h ms)
    reported h ms =
        any-filter (λ c. c.ctrace.hash == h) (is_counterexample eqv) (effective_classes ms)
        ∙ any-sort (λ c. is_counterexample eqv c && (c.ctrace.hash == h))
            (filter is_effective (map ct_class_of (ct_grouping ms)))
        ∙ any-filter (λ c. is_counterexample eqv c && (c.ctrace.hash == h)) is_effective
            (map ct_class_of (ct_grouping ms))
        ∙ any-map (λ c. is_effective c && (is_counterexample eqv c && (c.ctrace.hash == h)))
            ct_class_of (ct_grouping ms)
        ∙ ap (λ p. any p (ct_grouping ms)) (fun_ext (λ g. exposed-effective h (ct_class_of g)))
        ∙ any-members ctrace_hash ctrace_of h (is_exposed eqv) (ct_grouping ms)
            (Separate-group_from ctrace_hash ctrace_of same_ctrace_hash (λ t. Unit)
              (λ x y _ _ e. eq→== _ _ e) [] ms (All-Unit ms) tt tt)
            (Headed-group_from ctrace_of same_ctrace_hash [] ms tt)
        ∙ ap (λ l. is_nonempty l && is_exposed eqv l) members_lem
        ∙ exposed-nonempty (with_digest h ms)
      where
        members_lem : members ctrace_hash ctrace_of h (ct_grouping ms) ≡ with_digest h ms
        members_lem = members-group_from ctrace_hash ctrace_of h [] ms ∙ unfold members in refl

    module _ (compare : Comparison) (Valid : HTrace → Type 0)
        (decided : (x y : HTrace) → Valid x → Valid y → compare x y ≡ some (eqv x y))
        (congruent : (x y : HTrace)
          → Valid x
          → Valid y
          → htrace_key x ≡ htrace_key y
          → eqv x y ≡ true)
        (Sound : CTrace → Type 0)
        (injective : (x y : CTrace)
          → Sound x
          → Sound y
          → ctrace_key x ≡ ctrace_key y
          → x.hash ≡ y.hash) where
      analyse_nonempty_lem :
          {P : Type 0} (test_case_code : P) (inputs : List I) (stats_ : Bool)
          (ms : List (TraceBundle I)) (stat : FuzzingStats)
          → All (λ m. Valid m.htrace) ms
          → All (λ m. Sound m.ctrace) ms
          → (stat' : FuzzingStats) × (analyse_nonempty compare test_case_code inputs stats_ ms stat
              ≡ some (
                map
                    (violation_of eqv test_case_code inputs)
                    (filter (is_counterexample eqv) (effective_classes ms)),
                stat',
              ))
      unfolding analyse_nonempty
      analyse_nonempty_lem test_case_code inputs stats_ [] stat v w =
          (stat, unfold group_from sort_by_ctrace in refl)
      analyse_nonempty_lem test_case_code inputs stats_ (m ∷ ms) stat v w = (
        _,
        analyse_lem eqv compare Valid decided congruent Sound injective test_case_code inputs stats_
            (m ∷ ms) stat v w,
      )

      -- On hardware traces that the comparison decides, and takes as equivalent when they have one key
      -- in the dictionary, and on contract traces of which no two with one key have different digests:
      -- if the measurements can be packaged, the analyser does not raise, and it reports a violation
      -- of a digest exactly if, among the measurements whose contract trace has that digest, some
      -- hardware trace is not equivalent to the first one.
      pub filter_violations-reports :
          {P : Type 0} (test_case_code : P) (ctraces : List CTrace) (htraces : List HTrace)
          (inputs : List I) (stats_ : Bool) (stat : FuzzingStats) (ms : List (TraceBundle I))
          → package_from ctraces inputs 0 htraces ≡ some ms
          → All (λ m. Valid m.htrace) ms
          → All (λ m. Sound m.ctrace) ms
          → (vs : List (Violation I P)) × (stat' : FuzzingStats) × (filter_violations compare
                ctraces htraces test_case_code inputs stats_ stat
              ≡ some (vs, stat'))
            × ((h : ℕ) → any (has_digest h) vs ≡ is_exposed eqv (with_digest h ms))
      unfolding filter_violations
      filter_violations-reports test_case_code ctraces [] inputs stats_ stat [] e v w =
          ([], stat, refl, λ h. unfold is_exposed in refl)
      filter_violations-reports test_case_code ctraces [] inputs stats_ stat (m ∷ ms) e v w =
          absurd (unfold package_from in cc)
      filter_violations-reports test_case_code ctraces (t ∷ ts) inputs stats_ stat ms e v w =
          let (stat', run) = analyse_nonempty_lem test_case_code inputs stats_ ms stat v w in
          (
            _,
            stat',
            rw e run,
            λ h.
                any-map (has_digest h) (violation_of eqv test_case_code inputs)
                  (filter (is_counterexample eqv) (effective_classes ms))
                ∙ reported h ms,
          )
