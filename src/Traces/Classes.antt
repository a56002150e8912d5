-- ===== src/Traces/Classes.antt =====
-- `TraceBundle`, `HardwareEqClass`, `ContractEqClass` and `Violation` of rvzr/traces.py. `I` is the
-- type of inputs and `P` the type of test case programs, which the containers only carry.
pub mod HwSplit
pub mod CtSplit
pub mod Collision
use side_channel_fuzzer.Prelude.{
  ℕ, ◌≡◌, Bool, true, false, not, ◌&&◌, Option, none, some, List, [], ◌∷◌, ◌++◌, if◌then◌else◌,
  ◌>>=◌, ◌>>◌, guard, length,
}
use side_channel_fuzzer.Prelude.Dict.{Dict, hash_key, has, put, values}
use side_channel_fuzzer.Grouping.{append_to}
use side_channel_fuzzer.Traces.Contract.{CTrace, ctrace_eq}
use side_channel_fuzzer.Traces.Hardware.{HTrace, htrace_eq}

pub record TraceBundle (I : Type 0) : Type 0 where
  pub input_id : ℕ
  pub input : I
  pub ctrace : CTrace
  pub htrace : HTrace

pub record HardwareEqClass (I : Type 0) : Type 0 where
  pub htrace : HTrace
  pub measurements : List (TraceBundle I)

pub record ContractEqClass (I : Type 0) : Type 0 where
  pub ctrace : CTrace
  pub measurements : List (TraceBundle I)
  pub hw_classes : Option (List (HardwareEqClass I))

pub record Violation (I P : Type 0) : Type 0 where
  pub eq_class : ContractEqClass I
  pub input_sequence : List I
  pub test_case_code : P

-- [f x for x in l], where `f` may raise
module _ {A B : Type 0} (f : A → Option B) where
  unfoldable pub traverse : List A → Option (List B)
  traverse [] = some []
  traverse (x ∷ xs) = do y ← f x; ys ← traverse xs; some (y ∷ ys)

-- `equivalence_function`, which may raise
abbrev pub Comparison : Type 0
Comparison = HTrace → HTrace → Option Bool

-- the loop over the existing classes, with `break` at the first that fits
unfoldable pub find_equivalent : Comparison → HTrace → List HTrace → Option (Option HTrace)
find_equivalent compare htrace [] = some none
find_equivalent compare htrace (other ∷ rest) =
    let later = find_equivalent compare htrace rest in
    do same ← compare htrace other; if same then some (some other) else later

-- HTrace.__eq__, the default comparison
unfoldable pub default_eq_function : Comparison
unfolding htrace_eq
default_eq_function x y = some (htrace_eq x y)

-- `hw_groups` and `diverging_htraces`
abbrev pub HwState : Type 0 → Type 0
HwState I = Dict (List (TraceBundle I)) × List HTrace

module _ {I : Type 0} where
  -- HardwareEqClass.__init__; an empty list is an IndexError
  unfoldable pub hw_init : List (TraceBundle I) → Option (HardwareEqClass I)
  hw_init [] = none
  hw_init (m ∷ ms) = some (record { htrace = m.htrace; measurements = m ∷ ms })

  -- one measurement of HardwareEqClass.build_hw_classes
  unfoldable pub hw_step : Comparison → HwState I → TraceBundle I → Option (HwState I)
  unfolding hash_key
  hw_step compare (hw_groups, []) m =
      some (put (hash_key m.htrace.hash) (m ∷ []) hw_groups, m.htrace ∷ [])
  hw_step compare (hw_groups, d ∷ ds) m = elim (find_equivalent compare m.htrace (d ∷ ds)) [
    | none ↦ none
    | some (some other) ↦ do g ← append_to (hash_key other.hash) m hw_groups; some (g, d ∷ ds)
    | some none ↦ some (put (hash_key m.htrace.hash) (m ∷ []) hw_groups, (d ∷ ds) ++ m.htrace ∷ [])
  ]

  unfoldable pub hw_loop : Comparison → HwState I → List (TraceBundle I) → Option (HwState I)
  unfolding hw_step
  hw_loop compare s [] = some s
  hw_loop compare s (m ∷ ms) = do s' ← hw_step compare s m; hw_loop compare s' ms

  -- HardwareEqClass.build_hw_classes
  unfoldable pub build_hw_classes :
      Comparison → List (TraceBundle I) → Option (List (HardwareEqClass I))
  unfolding hw_loop hw_init traverse
  build_hw_classes compare measurements = do
    (hw_groups, _) ← hw_loop compare ([], []) measurements
    traverse hw_init (values hw_groups)

  -- the assertions of ContractEqClass.__init__
  unfoldable pub same_ctrace : CTrace → List (TraceBundle I) → Option (Unit {0})
  unfolding ctrace_eq
  same_ctrace ctrace [] = some tt
  same_ctrace ctrace (m ∷ ms) = do guard (ctrace_eq m.ctrace ctrace); same_ctrace ctrace ms

  -- ContractEqClass.__init__
  unfoldable pub contract_init : List (TraceBundle I) → Option (ContractEqClass I)
  contract_init [] = none
  contract_init (m ∷ ms) = do
    same_ctrace m.ctrace (m ∷ ms)
    some (record { ctrace = m.ctrace; measurements = m ∷ ms; hw_classes = none })

  -- one measurement of ContractEqClass.build_contract_classes
  unfoldable pub contract_step :
      Dict (List (TraceBundle I)) → TraceBundle I → Option (Dict (List (TraceBundle I)))
  unfolding hash_key
  contract_step eq_groups m =
      let hash_ = hash_key m.ctrace.hash in
      if not (has hash_ eq_groups)
      then some (put hash_ (m ∷ []) eq_groups)
      else append_to hash_ m eq_groups

  unfoldable pub contract_loop :
      Dict (List (TraceBundle I)) → List (TraceBundle I) → Option (Dict (List (TraceBundle I)))
  unfolding contract_step
  contract_loop g [] = some g
  contract_loop g (m ∷ ms) = do g' ← contract_step g m; contract_loop g' ms

  -- ContractEqClass.build_contract_classes
  unfoldable pub build_contract_classes : List (TraceBundle I) → Option (List (ContractEqClass I))
  unfolding contract_loop contract_init traverse
  build_contract_classes measurements = do
    eq_groups ← contract_loop [] measurements
    traverse contract_init (values eq_groups)

  -- ContractEqClass.set_hw_classes; setting them twice is an AssertionError
  unfoldable pub set_hw_classes :
      List (HardwareEqClass I) → ContractEqClass I → Option (ContractEqClass I)
  set_hw_classes hw c = elim c.hw_classes [
    | none ↦ some (record c { hw_classes = some hw })
    | some _ ↦ none
  ]

  -- ContractEqClass.set_trivial_hw_classes
  unfoldable pub set_trivial_hw_classes : ContractEqClass I → Option (ContractEqClass I)
  unfolding build_hw_classes default_eq_function set_hw_classes
  set_trivial_hw_classes c = elim c.hw_classes [
    | none ↦ do hw ← build_hw_classes default_eq_function c.measurements; set_hw_classes hw c
    | some _ ↦ none
  ]

  -- ContractEqClass.get_hw_classes
  unfoldable pub get_hw_classes : ContractEqClass I → Option (List (HardwareEqClass I))
  get_hw_classes c = c.hw_classes

  module _ {P : Type 0} where
    -- Violation.__init__
    unfoldable pub violation_init : List (TraceBundle I) → List I → P → Option (Violation I P)
    unfolding contract_init
    violation_init measurements input_sequence test_case_code = do
      c ← contract_init measurements
      some (record {
        eq_class = c;
        input_sequence = input_sequence;
        test_case_code = test_case_code;
      })

    -- Violation.from_contract_eq_class
    unfoldable pub from_contract_eq_class : ContractEqClass I → List I → P → Option (Violation I P)
    unfolding violation_init get_hw_classes set_hw_classes
    from_contract_eq_class eq_class input_sequence test_case_code = do
      v ← violation_init eq_class.measurements input_sequence test_case_code
      hw ← get_hw_classes eq_class
      c ← set_hw_classes hw v.eq_class
      some (record v { eq_class = c })
