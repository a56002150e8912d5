-- ===== src/Executor/Ignoring.antt =====
-- Which of the executor's traces the analyser leaves out.
use side_channel_fuzzer.Prelude.{
  ℕ, zero, suc, ◌+◌, ◌≡◌, refl, ap, ◌∙◌, Bool, true, false, ◌||◌, some, List, [], ◌∷◌, ◌++◌, map,
  arith, ◌==◌, if◌then◌else◌, get_elem?, all, any-append, bit_and, inl, inr, Bool-cases,
}
use side_channel_fuzzer.Traces.Hardware.{
  RawHTraceSample, HTrace, htrace_init, invalid_trace, is_corrupted_or_ignored, traces_of,
}
use side_channel_fuzzer.Executor.{
  ExecutorState, is_in, to_set, extend_ignore_list, identify_trace_type, mask_tsc,
  raw_readings_to_traces,
}

is_in-to_set : (i : ℕ) (l : List ℕ) → is_in i (to_set l) ≡ is_in i l
unfolding to_set
is_in-to_set i [] = refl
is_in-to_set i (j ∷ l) = ground (arith, is_in-to_set i l, any_same i j (to_set l))
  where
    any_same : (i j : ℕ) (l : List ℕ) → is_in j l ≡ true → (j == i) ≡ true → is_in i l ≡ true
    any_same i j [] h e = h
    any_same i j (x ∷ l) h e = ground (arith, any_same i j l)

is_in-extend_ignore_list :
    (i : ℕ) (l : List ℕ) (e : ExecutorState)
    → is_in i ((extend_ignore_list l e).ignore_list) ≡ (is_in i l || is_in i e.ignore_list)
unfolding extend_ignore_list
is_in-extend_ignore_list i l e =
    is_in-to_set i (l ++ e.ignore_list) ∙ any-append (λ j. j == i) l e.ignore_list

-- what a sample of the trace comes to
abbrev pub seen : ExecutorState → RawHTraceSample → ℕ
seen e s = if e.tsc_mode then bit_and s.trace 0x0FFFFFFFFFFFFFF0 else s.trace

module _ (digest : List ℕ → ℕ) where
  all-seen :
      (e : ExecutorState) (raw : List RawHTraceSample)
      → all (λ x. x == 0) (traces_of (if e.tsc_mode then map mask_tsc raw else raw))
        ≡ all (λ s. seen e s == 0) raw
  unfolding mask_tsc
  all-seen e raw = by_mode e.tsc_mode raw
    where
      by_mode :
          (b : Bool) (raw : List RawHTraceSample)
          → all (λ x. x == 0) (traces_of (if b then map mask_tsc raw else raw))
            ≡ all (λ s. (if b then bit_and s.trace 0x0FFFFFFFFFFFFFF0 else s.trace) == 0) raw
      by_mode true [] = refl
      by_mode false [] = refl
      by_mode true (s ∷ raw) = ground (arith, by_mode true raw)
      by_mode false (s ∷ raw) = ground (arith, by_mode false raw)

  raw_readings_lem :
      (e : ExecutorState) (start i : ℕ) (rows : List (List RawHTraceSample))
      (raw : List RawHTraceSample)
      → e.mismatch_check_mode ≡ false
      → get_elem? rows i ≡ some raw
      → (t : HTrace) × (get_elem? (raw_readings_to_traces digest e start rows) i ≡ some t)
        × (is_corrupted_or_ignored t
            ≡ (is_in (start + i) e.ignore_list || all (λ s. seen e s == 0) raw))
  unfolding raw_readings_to_traces htrace_init invalid_trace is_corrupted_or_ignored
  raw_readings_lem e start i [] raw off h = absurd (ground arith)
  raw_readings_lem e start zero (r ∷ rows) raw off h =
      elim (Bool-cases (is_in start e.ignore_list)) [
        | inl ignored ↦
            (invalid_trace digest (identify_trace_type e), rw (off, ignored), ground arith)
        | inr kept ↦ (
          htrace_init digest (if e.tsc_mode then map mask_tsc r else r) (identify_trace_type e),
          rw (off, kept),
          ground (arith, all-seen e raw),
        )
      ]
  raw_readings_lem e start (suc i) (r ∷ rows) raw off h =
      let (t, found, c) = raw_readings_lem e (suc start) i rows raw off h in
      (t, found, ground arith)

  -- Outside the mismatch check, the trace of an input is marked exactly if the input was ignored
  -- before, or is on the list that is added, or all its samples are zero after the mask of the TSC
  -- mode. The marked traces are the ones that the analyser skips.
  pub ignored-marked :
      (e : ExecutorState) (l : List ℕ) (i : ℕ) (rows : List (List RawHTraceSample))
      (raw : List RawHTraceSample)
      → e.mismatch_check_mode ≡ false
      → get_elem? rows i ≡ some raw
      → (t : HTrace) × (get_elem? (raw_readings_to_traces digest (extend_ignore_list l e) 0 rows) i
          ≡ some t)
        × (is_corrupted_or_ignored t
            ≡ ((is_in i l || is_in i e.ignore_list) || all (λ s. seen e s == 0) raw))
  unfolding extend_ignore_list
  ignored-marked e l i rows raw off h =
      let (t, found, c) = raw_readings_lem (extend_ignore_list l e) 0 i rows raw off h in
      (
        t,
        found,
        ground (
          arith,
          c,
          is_in-extend_ignore_list i l e,
          ap (λ k. is_in k (extend_ignore_list l e).ignore_list) (zero_add i),
        ),
      )
    where
      zero_add : (i : ℕ) → 0 + i ≡ i
      zero_add i = omega arith
