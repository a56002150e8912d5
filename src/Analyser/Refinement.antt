-- ===== src/Analyser/Refinement.antt =====
-- What `filter_violations` computes, with the dictionaries, the assertions and the exceptions gone.
use side_channel_fuzzer.Prelude.{
  ◌≡◌, refl, sym, subst, ap, ◌∙◌, Bool, true, false, not, none, some, List, [], ◌∷◌, map, arith,
  leb, length, filter, any, All, All-filter, inl, inr, Bool-cases,
}
use side_channel_fuzzer.Stats.{FuzzingStats}
use side_channel_fuzzer.Grouping.{group_from, AllItems-group_from}
use side_channel_fuzzer.Grouping.Members.{Headed, Headed-group_from, is_many, many-group}
use side_channel_fuzzer.Traces.Contract.{CTrace, ctrace_lt}
use side_channel_fuzzer.Traces.Hardware.{HTrace}
use side_channel_fuzzer.Traces.Classes.{
  Comparison, TraceBundle, ContractEqClass, Violation, traverse, set_hw_classes, get_hw_classes,
  violation_init, from_contract_eq_class, contract_init,
}
use side_channel_fuzzer.Traces.Classes.HwSplit.{
  htrace_of, htrace_key, hw_grouping, hw_class_of, build_hw_classes_lem,
}
use side_channel_fuzzer.Traces.Classes.CtSplit.{
  ctrace_of, ctrace_key, CtGroup, same_ctrace_hash, ct_grouping, ct_class_of, AllHash, Uniform,
  Uniform-group_from, contract_init_lem, build_contract_classes_lem,
}
use side_channel_fuzzer.Analyser.{
  is_effective, sort_insert, sort_by_ctrace, assign_hw_classes, collect_violations, count_classes,
  analyse,
}

length-is_many : {A B : Type 0} (f : A → B) (xs : List A) → leb 2 (length (map f xs)) ≡ is_many xs
length-is_many f [] = refl
length-is_many f (x ∷ []) = refl
length-is_many f (x ∷ y ∷ xs) = ground arith

-- Some measurement of the class is not equivalent to the first one.
unfoldable pub is_exposed : {I : Type 0} → (HTrace → HTrace → Bool) → List (TraceBundle I) → Bool
is_exposed eqv [] = false
is_exposed eqv (m ∷ ms) = any (λ b. not (eqv b.htrace m.htrace)) ms

module _ {I : Type 0} where
  -- A class as the constructor leaves it.
  pub record IsFresh (c : ContractEqClass I) : Type 0 where
    pub constructed : contract_init c.measurements ≡ some c
    pub no_hw : c.hw_classes ≡ none

  IsFresh-class :
      (r : CTrace) (m : TraceBundle I) (ms : List (TraceBundle I))
      → m.ctrace ≡ r
      → AllHash m.ctrace.hash (m ∷ ms)
      → IsFresh (ct_class_of (r, m ∷ ms))
  IsFresh-class r m ms e a = record {
    constructed = contract_init_lem m ms a ∙ ap (λ t. some (ct_class_of (t, m ∷ ms))) e;
    no_hw = refl;
  }

  IsFresh-classes :
      (gs : List (CtGroup I)) → Headed ctrace_of gs → Uniform gs → All IsFresh (map ct_class_of gs)
  IsFresh-classes [] h u = tt
  IsFresh-classes ((r, []) ∷ gs) h u = absurd h
  IsFresh-classes ((r, m ∷ ms) ∷ gs) h u =
      let a : AllHash m.ctrace.hash (m ∷ ms) =
        subst (λ (x : CTrace). AllHash x.hash (m ∷ ms)) (sym h.0) u.0 in
      (IsFresh-class r m ms h.0 a, IsFresh-classes gs h.1 u.1)

  All-sort_insert :
      (P : ContractEqClass I → Type 0) (c : ContractEqClass I) (cs : List (ContractEqClass I))
      → P c
      → All P cs
      → All P (sort_insert c cs)
  unfolding sort_insert
  All-sort_insert P c [] f h = (f, tt)
  All-sort_insert P c (d ∷ ds) f h = elim (Bool-cases (ctrace_lt d.ctrace c.ctrace)) [
    | inl e ↦ rw (e, sort_insert) (h.0, All-sort_insert P c ds f h.1)
    | inr e ↦ rw (e, sort_insert) (f, h)
  ]

  All-sort :
      (P : ContractEqClass I → Type 0) (cs : List (ContractEqClass I))
      → All P cs
      → All P (sort_by_ctrace cs)
  unfolding sort_by_ctrace
  All-sort P [] h = tt
  All-sort P (c ∷ cs) h = All-sort_insert P c (sort_by_ctrace cs) h.0 (All-sort P cs h.1)

  -- the contract classes that have at least two measurements, by digest
  abbrev pub effective_classes : List (TraceBundle I) → List (ContractEqClass I)
  effective_classes ms = sort_by_ctrace (filter is_effective (map ct_class_of (ct_grouping ms)))

  IsFresh-effective : (ms : List (TraceBundle I)) → All IsFresh (effective_classes ms)
  IsFresh-effective ms = All-sort IsFresh (filter is_effective (map ct_class_of (ct_grouping ms))) (
      All-filter IsFresh is_effective (map ct_class_of (ct_grouping ms)) (
        IsFresh-classes (ct_grouping ms) (Headed-group_from ctrace_of same_ctrace_hash [] ms tt)
          (Uniform-group_from [] ms tt)))

  items_classes :
      (P : TraceBundle I → Type 0) (gs : List (CtGroup I))
      → All (λ g. All P g.1) gs
      → All (λ (c : ContractEqClass I). All P c.measurements) (map ct_class_of gs)
  items_classes P [] h = tt
  items_classes P (g ∷ gs) h = (h.0, items_classes P gs h.1)

  items_effective :
      (P : TraceBundle I → Type 0) (ms : List (TraceBundle I))
      → All P ms
      → All (λ (c : ContractEqClass I). All P c.measurements) (effective_classes ms)
  items_effective P ms h =
      All-sort (λ c. All P c.measurements) (filter is_effective (map ct_class_of (ct_grouping ms)))
        (All-filter (λ c. All P c.measurements) is_effective (map ct_class_of (ct_grouping ms))
          (items_classes P (ct_grouping ms)
            (AllItems-group_from ctrace_of same_ctrace_hash P [] ms h tt)))

  module _ (eqv : HTrace → HTrace → Bool) where
    abbrev pub with_hw_classes : ContractEqClass I → ContractEqClass I
    with_hw_classes c = record c {
      hw_classes = some (map hw_class_of (hw_grouping eqv c.measurements));
    }

    abbrev pub is_counterexample : ContractEqClass I → Bool
    is_counterexample c = is_exposed eqv c.measurements

    pub many_hw_classes :
        (ms : List (TraceBundle I))
        → leb 2 (length (map hw_class_of (hw_grouping eqv ms))) ≡ is_exposed eqv ms
    unfolding is_exposed
    many_hw_classes [] = unfold group_from in refl
    many_hw_classes (m ∷ ms) =
        length-is_many hw_class_of (hw_grouping eqv (m ∷ ms)) ∙ many-group htrace_of eqv m ms

    module _ {P : Type 0} (test_case_code : P) (inputs : List I) where
      abbrev pub violation_of : ContractEqClass I → Violation I P
      violation_of c = record {
        eq_class = with_hw_classes c;
        input_sequence = inputs;
        test_case_code = test_case_code;
      }

      from_contract_eq_class_lem :
          (c : ContractEqClass I)
          → IsFresh c
          → from_contract_eq_class (with_hw_classes c) inputs test_case_code ≡ some (violation_of c)
      unfolding from_contract_eq_class violation_init get_hw_classes set_hw_classes
      from_contract_eq_class_lem c f = rw (f.constructed, f.no_hw)

      collect_violations_lem :
          (compare : Comparison) (cs : List (ContractEqClass I))
          → All IsFresh cs
          → collect_violations compare test_case_code inputs (map with_hw_classes cs)
            ≡ some (map violation_of (filter is_counterexample cs))
      unfolding collect_violations get_hw_classes
      collect_violations_lem compare [] h = refl
      collect_violations_lem compare (c ∷ cs) h =
          elim (Bool-cases (is_exposed eqv c.measurements)) [
            | inl e ↦ rw (
              many_hw_classes c.measurements,
              e,
              from_contract_eq_class_lem c h.0,
              collect_violations_lem compare cs h.1,
            )
            | inr e ↦ rw (many_hw_classes c.measurements, e, collect_violations_lem compare cs h.1)
          ]

    module _ (compare : Comparison) (Valid : HTrace → Type 0)
        (decided : (x y : HTrace) → Valid x → Valid y → compare x y ≡ some (eqv x y))
        (congruent : (x y : HTrace)
          → Valid x
          → Valid y
          → htrace_key x ≡ htrace_key y
          → eqv x y ≡ true)
        (Sound : CTrace → Type 0)
        (injective : (x y : CTrace)
          → Sound x
          → Sound y
          → ctrace_key x ≡ ctrace_key y
          → x.hash ≡ y.hash) where
      assign_hw_classes_lem :
          (cs : List (ContractEqClass I))
          → All IsFresh cs
          → All (λ c. All (λ m. Valid m.htrace) c.measurements) cs
          → traverse (assign_hw_classes compare) cs ≡ some (map with_hw_classes cs)
      unfolding traverse assign_hw_classes set_hw_classes
      assign_hw_classes_lem [] h v = refl
      assign_hw_classes_lem (c ∷ cs) h v = rw (
        build_hw_classes_lem eqv compare Valid decided congruent c.measurements v.0,
        h.0.no_hw,
        assign_hw_classes_lem cs h.1 v.1,
      )

      -- The whole body, on hardware traces that the comparison decides, and takes as equivalent when
      -- they have one key in the dictionary, and on contract traces of which no two with one key have
      -- different digests: it does not raise, and it reports exactly the effective classes with an
      -- exposed difference, in the order of the digests, with its counters.
      pub analyse_lem :
          {P : Type 0} (test_case_code : P) (inputs : List I) (stats_ : Bool)
          (ms : List (TraceBundle I)) (stat : FuzzingStats)
          → All (λ m. Valid m.htrace) ms
          → All (λ m. Sound m.ctrace) ms
          → analyse compare test_case_code inputs stats_ ms stat
            ≡ some (
              map
                  (violation_of test_case_code inputs)
                  (filter is_counterexample (effective_classes ms)),
              count_classes stats_ (map ct_class_of (ct_grouping ms)) (effective_classes ms) stat,
            )
      unfolding analyse
      analyse_lem test_case_code inputs stats_ ms stat v w = rw (
        build_contract_classes_lem Sound injective ms w,
        assign_hw_classes_lem (effective_classes ms) (IsFresh-effective ms)
            (items_effective (λ m. Valid m.htrace) ms v),
        collect_violations_lem test_case_code inputs compare (effective_classes ms)
            (IsFresh-effective ms),
      )
