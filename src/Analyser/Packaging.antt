-- ===== src/Analyser/Packaging.antt =====
-- Which measurements `filter_violations` looks at.
use side_channel_fuzzer.Prelude.{
  ℕ, suc, ◌+◌, ◌≤◌, ◌≡◌, refl, ap, Bool, not, ◌||◌, some, List, [], ◌∷◌, map, arith, length, filter,
  All, inl, inr, Bool-cases, get_elem?, get_elem?-eq-some, enumerate_from,
}
use side_channel_fuzzer.Traces.Contract.{CTrace}
use side_channel_fuzzer.Traces.Hardware.{HTrace, htrace_is_empty, is_corrupted_or_ignored}
use side_channel_fuzzer.Traces.Classes.{TraceBundle}
use side_channel_fuzzer.Analyser.{package_from}

abbrev pub is_measured : HTrace → Bool
is_measured t = not (htrace_is_empty t || is_corrupted_or_ignored t)

module _ {I : Type 0} (ctraces : List CTrace) (inputs : List I) where
  -- the input and the contract trace stand under the index of the measurement
  abbrev pub ComesFrom : TraceBundle I → Type 0
  ComesFrom m =
      (get_elem? inputs m.input_id ≡ some m.input) × (get_elem? ctraces m.input_id ≡ some m.ctrace)

  -- With an input and a contract trace for each hardware trace, packaging does not raise. It keeps
  -- the index and the trace of exactly the hardware traces that are neither empty nor corrupted, in
  -- order, each with the input and the contract trace of that index.
  package_from_total :
      (i : ℕ) (htraces : List HTrace)
      → i + length htraces ≤ length inputs
      → i + length htraces ≤ length ctraces
      → (ms : List (TraceBundle I)) × (package_from ctraces inputs i htraces ≡ some ms)
        × (map (λ m. (m.input_id, m.htrace)) ms
            ≡ filter (λ e. is_measured e.1) (enumerate_from i htraces))
        × All ComesFrom ms
  unfolding package_from
  package_from_total i [] p q = ([], refl, refl, tt)
  package_from_total i (t ∷ ts) p q =
      let (ms, run, kept, from) = package_from_total (suc i) ts (omega arith) (omega arith) in
      let (input, at_input) = get_elem?-eq-some inputs i (omega arith) in
      let (ctrace, at_ctrace) = get_elem?-eq-some ctraces i (omega arith) in
      elim (Bool-cases (htrace_is_empty t || is_corrupted_or_ignored t)) [
        | inl skip ↦ (ms, rw (skip, run), rw skip kept, from)
        | inr keep ↦ (
          record { input_id = i; input = input; ctrace = ctrace; htrace = t } ∷ ms,
          rw (keep, at_input, at_ctrace, run),
          rw keep (ap (λ l. (i, t) ∷ l) kept),
          ((at_input, at_ctrace), from),
        )
      ]
