-- ===== src/Fuzzer/Priming.antt =====
-- `_RoundManager._priming_check` of rvzr/fuzzer.py.
pub mod LastOnly
use side_channel_fuzzer.Prelude.{
  ℕ, Bool, true, false, not, ◌||◌, Option, none, some, List, [], ◌∷◌, map, if◌then◌else◌, ◌==◌, ltb,
  ◌>>=◌, ◌>>◌, guard, length, filter, get_elem?, set,
}
use side_channel_fuzzer.Traces.Hardware.{
  HTrace, htrace_is_empty, is_corrupted_or_ignored, sample_size,
}
use side_channel_fuzzer.Traces.Classes.{
  TraceBundle, HardwareEqClass, Violation, traverse, get_hw_classes,
}
use side_channel_fuzzer.Fuzzer.{Modules, RoundManager}

-- How the check of a violation ends.
pub data Outcome : Type 0 where
  reproduced tracing_error genuine : Outcome

-- the last element, and the list without it: `l.pop()`
unfoldable pub pop {ℓ} : {A : Type ℓ} → List A → Option (A × List A)
pop [] = none
pop (x ∷ []) = some (x, [])
pop (x ∷ y ∷ l) = do (z, rest) ← pop (y ∷ l); some (z, x ∷ rest)

-- l[0]
abbrev pub head? {ℓ} : {A : Type ℓ} → List A → Option A
head? [] = none
head? (x ∷ l) = some x

module _ {I T P W : Type 0} (m : Modules I T P W) (boosted : List I) (n_reps : ℕ) where
  -- One swap: trace the sequence in which the input at `current` is the one at `other`.
  unfoldable pub prime_one : TraceBundle I → ℕ → W → Option (Outcome × W)
  unfolding htrace_is_empty is_corrupted_or_ignored
  prime_one current other w = do
    guard (ltb current.input_id (length boosted))
    input ← get_elem? boosted other
    let (traced, w') = m.trace_hardware (set boosted current.input_id input) n_reps w
    htraces ← traced
    new_htrace ← get_elem? htraces current.input_id
    some (
      (if htrace_is_empty new_htrace || is_corrupted_or_ignored new_htrace
          then tracing_error
          else if m.htraces_are_equivalent new_htrace current.htrace
          then reproduced
          else genuine),
      w',
    )

  -- the loop over the inputs of the other classes
  unfoldable pub prime_inputs : TraceBundle I → List ℕ → W → Option (Outcome × W)
  unfolding prime_one
  prime_inputs current [] w = some (reproduced, w)
  prime_inputs current (other ∷ rest) w = do
    (outcome, w') ← prime_one current other w
    elim outcome [
      | reproduced ↦ prime_inputs current rest w'
      | tracing_error ↦ some (tracing_error, w')
      | genuine ↦ some (genuine, w')
    ]

  -- [m.input_id for m in measurements_to_test if m != current]; the bundles have distinct ids
  abbrev pub other_ids : TraceBundle I → List (TraceBundle I) → List ℕ
  other_ids current ms =
      map (λ (b : TraceBundle I). b.input_id)
        (filter (λ b. not (b.input_id == current.input_id)) ms)

  -- the loop over the measurements, one of each class
  unfoldable pub prime_measurements :
      List (TraceBundle I) → List (TraceBundle I) → W → Option (Outcome × W)
  unfolding prime_inputs
  prime_measurements ms [] w = some (reproduced, w)
  prime_measurements ms (current ∷ rest) w = do
    (outcome, w') ← prime_inputs current (other_ids current ms) w
    elim outcome [
      | reproduced ↦ prime_measurements ms rest w'
      | tracing_error ↦ some (tracing_error, w')
      | genuine ↦ some (genuine, w')
    ]

module _ {I T P W : Type 0} (m : Modules I T P W) where
  -- the first measurement of a violation, and of each of its hardware classes
  unfoldable pub prime_violation : RoundManager I P W → Violation I P → Option (Outcome × W)
  unfolding sample_size get_hw_classes traverse prime_measurements
  prime_violation r violation = do
    first ← head? violation.eq_class.measurements
    hw_classes ← get_hw_classes violation.eq_class
    ms ← traverse (λ (c : HardwareEqClass I). head? c.measurements) hw_classes
    prime_measurements m r.boosted_inputs (sample_size first.htrace) ms ms r.world

  -- _RoundManager._priming_check. Each branch of the `while` loop returns, so its body runs once.
  unfoldable pub priming_check : RoundManager I P W → Option (RoundManager I P W)
  unfolding pop
  priming_check r = elim (pop r.violations) [
    | none ↦ some r
    | some (violation, _) ↦ do
      (outcome, w) ← prime_violation r violation
      elim outcome [
        | reproduced ↦ some (record r { violations = []; world = w })
        | tracing_error ↦ some (record r { violations = []; world = w })
        | genuine ↦ some (record r { violations = violation ∷ []; world = w })
      ]
  ]
