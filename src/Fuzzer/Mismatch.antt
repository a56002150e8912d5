-- ===== src/Fuzzer/Mismatch.antt =====
-- `_RoundManager._check_for_architectural_mismatch` of rvzr/fuzzer.py.
use side_channel_fuzzer.Prelude.{
  ℕ, zero, suc, ◌%◌, ◌^◌, Bool, true, false, ◌&&◌, Option, none, some, List, [], ◌∷◌, map,
  if◌then◌else◌, ◌==◌, ◌>>=◌, get_elem?,
}
use side_channel_fuzzer.Grouping.Members.{is_nonempty}
use side_channel_fuzzer.Traces.Contract.{CTrace}
use side_channel_fuzzer.Traces.Hardware.{HTrace, RawHTraceSample}
use side_channel_fuzzer.Traces.Classes.{Violation, traverse, violation_init, set_trivial_hw_classes}
use side_channel_fuzzer.Fuzzer.{FuzzConf, Modules, RoundManager}

abbrev pub take {ℓ} : {A : Type ℓ} → ℕ → List A → List A
take zero l = []
take (suc n) [] = []
take (suc n) (x ∷ l) = x ∷ take n l

-- Python's `==` on lists of integers
unfoldable pub list_eq : List ℕ → List ℕ → Bool
list_eq [] [] = true
list_eq [] (y ∷ ys) = false
list_eq (x ∷ xs) [] = false
list_eq (x ∷ xs) (y ∷ ys) = x == y && list_eq xs ys

-- the register values in the only sample of a trace
unfoldable pub single_sample : List RawHTraceSample → Option (List ℕ)
single_sample (s ∷ []) = some (s.trace ∷ s.pfc0 ∷ s.pfc1 ∷ s.pfc2 ∷ s.pfc3 ∷ s.pfc4 ∷ [])
single_sample _ = none

unfoldable pub hardware_regs : HTrace → Option (List ℕ)
unfolding single_sample
hardware_regs t = single_sample t.raw

-- [v % (2**64) for v in ctrace.get_untyped()[:6]]
unfoldable pub model_regs : CTrace → List ℕ
model_regs t = map (λ v. v % 2 ^ 64) (take 6 t.untyped)

module _ {I P : Type 0} (test_case : P) (inputs : List I) (ctraces : List CTrace)
    (htraces : List HTrace) where
  -- the violation of one input
  unfoldable pub arch_violation : ℕ → I → Option (Violation I P)
  unfolding violation_init set_trivial_hw_classes
  arch_violation i input = do
    ctrace ← get_elem? ctraces i
    htrace ← get_elem? htraces i
    v ←
        violation_init
          (record { input_id = i; input = input; ctrace = ctrace; htrace = htrace } ∷ []) inputs
          test_case
    c ← set_trivial_hw_classes v.eq_class
    some (record v { eq_class = c })

  -- the loop that looks for the first input with different registers
  unfoldable pub first_mismatch :
      List (List ℕ) → List (List ℕ) → ℕ → List I → Option (Option (Violation I P))
  unfolding list_eq
  first_mismatch model hardware i [] = some none
  first_mismatch model hardware i (input ∷ rest) = do
    a ← get_elem? model i
    b ← get_elem? hardware i
    elim (list_eq a b) [
      | true ↦ first_mismatch model hardware (suc i) rest
      | false ↦ do v ← arch_violation i input; some (some v)
    ]

module _ {I T P W : Type 0} (m : Modules I T P W) (conf : FuzzConf) where
  -- _RoundManager._check_for_architectural_mismatch
  unfoldable pub check_for_architectural_mismatch : RoundManager I P W → Option (RoundManager I P W)
  unfolding traverse hardware_regs model_regs first_mismatch
  check_for_architectural_mismatch r =
      let inputs = if is_nonempty r.boosted_inputs then r.boosted_inputs else r.org_inputs in
      let (traced, w) =
        m.arch_trace_hardware inputs 1 (m.arch_load_test_case r.test_case r.world) in
      elim traced [
        | none ↦ some (record r { boosted_inputs = inputs; arch_violations = []; world = w })
        | some htraces ↦ do
          hardware ← traverse hardware_regs htraces
          let (ctraces, w') = m.arch_trace_test_case inputs conf.model_max_nesting w
          found ←
              first_mismatch r.test_case inputs ctraces htraces (map model_regs ctraces) hardware 0
                inputs
          let r' : RoundManager I P W = record r { boosted_inputs = inputs; world = w' }
          some (elim found [ none ↦ r' | some v ↦ record r' { arch_violations = v ∷ [] } ])
      ]
