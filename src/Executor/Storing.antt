-- ===== src/Executor/Storing.antt =====
-- The array of readings, and the traces that a whole measurement returns.
use side_channel_fuzzer.Prelude.{
  ℕ, zero, suc, ◌+◌, ◌*◌, ◌≤◌, ◌<◌, ◌≡◌, refl, sym, ap, ◌∙◌, true, false, some, List, [], ◌∷◌, ◌++◌,
  arith, if◌then◌else◌, ◌==◌, ltb, length, get_elem?, set, ◌⊎◌, inl, inr, Bool-cases, ==→eq, leb,
}
use side_channel_fuzzer.Stats.{FuzzingStats}
use side_channel_fuzzer.Traces.Hardware.{RawHTraceSample}
use side_channel_fuzzer.Executor.{
  KmLine, Reading, tabulate, new_array, to_sample, store_readings, ExecutorState,
  raw_readings_to_traces, traces_of_reading, trace_test_case,
}
use side_channel_fuzzer.Executor.Reading.{
  Run, batches_of, ArePrinted, rep_readings, run_readings, WellFormed,
}
use side_channel_fuzzer.Executor.Runs.{read_trace-run_readings}
use side_channel_fuzzer.Executor.Tabulate.{
  length-tabulate, get_elem?-tabulate, tabulate_ext, update, set-tabulate,
}

-- the row that is printed for a sample
abbrev pub numbers_of : RawHTraceSample → List ℕ
numbers_of s = s.trace ∷ s.pfc0 ∷ s.pfc1 ∷ s.pfc2 ∷ s.pfc3 ∷ s.pfc4 ∷ []

-- the memory of the array with the sample of an input and a repetition replaced
put : ℕ → ℕ → RawHTraceSample → (ℕ → ℕ → RawHTraceSample) → ℕ → ℕ → RawHTraceSample
put i r s h j q = if j == i then (if q == r then s else h i q) else h j q

put-new_array :
    (n k i r : ℕ) (s : RawHTraceSample) (h : ℕ → ℕ → RawHTraceSample)
    → i < n
    → r < k
    → set (new_array n k h) i (set (tabulate (h i) 0 k) r s) ≡ new_array n k (put i r s h)
unfolding new_array put
put-new_array n k i r s h a b =
    set-tabulate (λ j. tabulate (h j) 0 k) 0 n i (set (tabulate (h i) 0 k) r s) a
    ∙ tabulate_ext _ (λ j. tabulate (put i r s h j) 0 k) 0 n (λ j p q. row_same j)
  where
    row_same :
        (j : ℕ)
        → update (0 + i) (set (tabulate (h i) 0 k) r s) (λ j. tabulate (h j) 0 k) j
          ≡ tabulate (put i r s h j) 0 k
    row_same j = elim (Bool-cases (j == i)) [
      | inl e ↦
          let e' : (j == 0 + i) ≡ true = ground arith in
          rw e' (
            set-tabulate (h i) 0 k r s b
            ∙ tabulate_ext _ (put i r s h j) 0 k (λ q x y. ground arith))
      | inr e ↦
          let e' : (j == 0 + i) ≡ false = ground arith in
          rw e' (tabulate_ext (h j) (put i r s h j) 0 k (λ q x y. rw e refl))
    ]

store_one :
    (n k i r : ℕ) (s : RawHTraceSample) (h : ℕ → ℕ → RawHTraceSample) (rest : List Reading)
    → i < n
    → r < k
    → store_readings ((r, i, numbers_of s) ∷ rest) (new_array n k h)
      ≡ store_readings rest (new_array n k (put i r s h))
unfolding store_readings to_sample
store_one n k i r s h rest a b =
    let e : 0 + i ≡ i = omega arith in
    let raw : get_elem? (new_array n k h) i ≡ some (tabulate (h i) 0 k) =
      unfold new_array in
      get_elem?-tabulate (λ j. tabulate (h j) 0 k) 0 n i a
      ∙ ap (λ j. some (tabulate (h j) 0 k)) e in
    let inside : ltb r (length (tabulate (h i) 0 k)) ≡ true =
      ground (arith, length-tabulate (h i) 0 k) in
    rw (raw, inside, put-new_array n k i r s h a b) refl

-- `g r i` is the sample of the input `i` in the repetition `r`.
module _ (g : ℕ → ℕ → RawHTraceSample) where
  abbrev pub printed : ℕ → ℕ → List ℕ
  printed r i = numbers_of (g r i)

  put_rep : ℕ → ℕ → (ℕ → ℕ → RawHTraceSample) → ℕ → ℕ → RawHTraceSample
  put_rep r zero h = h
  put_rep r (suc i) h = put_rep r i (put i r (g r i) h)

  put_run : ℕ → ℕ → ℕ → (ℕ → ℕ → RawHTraceSample) → ℕ → ℕ → RawHTraceSample
  put_run n r zero h = h
  put_run n r (suc k) h = put_run n (r + 1) k (put_rep r n h)

  store_rep :
      (n k r i : ℕ) (h : ℕ → ℕ → RawHTraceSample) (rest : List Reading)
      → i ≤ n
      → r < k
      → store_readings (rep_readings printed r i ++ rest) (new_array n k h)
        ≡ store_readings rest (new_array n k (put_rep r i h))
  unfolding rep_readings put_rep
  store_rep n k r zero h rest a b = refl
  store_rep n k r (suc i) h rest a b =
      store_one n k i r (g r i) h (rep_readings printed r i ++ rest) (omega arith) b
      ∙ store_rep n k r i (put i r (g r i) h) rest (omega arith) b

  store_run :
      (n k r m : ℕ) (h : ℕ → ℕ → RawHTraceSample)
      → r + m ≤ k
      → store_readings (run_readings printed n r m) (new_array n k h)
        ≡ some (new_array n k (put_run n r m h))
  unfolding run_readings put_run
  store_run n k r zero h b = unfold store_readings in refl
  store_run n k r (suc m) h b =
      store_rep n k r n h (run_readings printed n (r + 1) m) (omega arith) (omega arith)
      ∙ store_run n k (r + 1) m (put_rep r n h) (omega arith)

  rep_keeps :
      (r i j q : ℕ) (h : ℕ → ℕ → RawHTraceSample)
      → (i ≤ j) ⊎ ((q == r) ≡ false)
      → put_rep r i h j q ≡ h j q
  unfolding put_rep put
  rep_keeps r zero j q h c = refl
  rep_keeps r (suc i) j q h (inl c) =
      let e : (j == i) ≡ false = ground arith in
      rep_keeps r i j q (put i r (g r i) h) (inl (omega arith)) ∙ rw e refl
  rep_keeps r (suc i) j q h (inr c) =
      rep_keeps r i j q (put i r (g r i) h) (inr c) ∙ ground (arith, ==→eq j i)

  rep_sets : (r i j : ℕ) (h : ℕ → ℕ → RawHTraceSample) → j < i → put_rep r i h j r ≡ g r j
  unfolding put_rep put
  rep_sets r zero j h c = absurd (omega arith)
  rep_sets r (suc i) j h c = elim (Bool-cases (j == i)) [
    | inl e ↦
        let same : j ≡ i = ==→eq j i e in
        let r_is_r : (r == r) ≡ true = ground arith in
        rep_keeps r i j r (put i r (g r i) h) (inl (omega arith))
        ∙ rw (e, r_is_r) (ap (g r) (sym same))
    | inr e ↦ rep_sets r i j (put i r (g r i) h) (ground arith)
  ]

  run_keeps : (n r m j q : ℕ) (h : ℕ → ℕ → RawHTraceSample) → q < r → put_run n r m h j q ≡ h j q
  unfolding put_run
  run_keeps n r zero j q h c = refl
  run_keeps n r (suc m) j q h c =
      let other : (q == r) ≡ false = ground arith in
      run_keeps n (r + 1) m j q (put_rep r n h) (omega arith) ∙ rep_keeps r n j q h (inr other)

  run_sets :
      (n r m j q : ℕ) (h : ℕ → ℕ → RawHTraceSample)
      → j < n
      → r ≤ q
      → q < r + m
      → put_run n r m h j q ≡ g q j
  unfolding put_run
  run_sets n r zero j q h a b c = absurd (omega arith)
  run_sets n r (suc m) j q h a b c = elim (Bool-cases (q == r)) [
    | inl e ↦
        let same : r ≡ q = sym (==→eq q r e) in
        run_keeps n (r + 1) m j q (put_rep r n h) (omega arith)
        ∙ ap (λ x. put_rep r n h j x) (sym same)
        ∙ rep_sets r n j h a
        ∙ ap (λ x. g x j) same
    | inr e ↦ run_sets n (r + 1) m j q (put_rep r n h) a (ground arith) (omega arith)
  ]

  store_all :
      (n k : ℕ) (h : ℕ → ℕ → RawHTraceSample)
      → store_readings (run_readings printed n 0 k) (new_array n k h)
        ≡ some (new_array n k (λ i r. g r i))
  store_all n k h =
      store_run n k 0 k h (omega arith)
      ∙ ap some (
          unfold new_array in
          tabulate_ext _ _ 0 n (λ i p q.
            tabulate_ext _ _ 0 k
              (λ r x y. run_sets n 0 k i r h (omega arith) (omega arith) (omega arith))))

module _ (digest : List ℕ → ℕ) (g : ℕ → ℕ → RawHTraceSample) where
  -- If not all inputs are ignored, and the kernel module prints the samples of `n_reps` repetitions
  -- in runs of `k`, well-formed and cut into batches anywhere, then the measurement succeeds: the
  -- traces are made of the array that holds the sample of every input and repetition in its place,
  -- nothing is left of the memory that the array was allocated in, the later output stays unread, and
  -- the measurements are counted.
  pub trace_test_case-samples :
      (e : ExecutorState) (last_input_id k : ℕ) (memory : ℕ → ℕ → RawHTraceSample) (x : Run)
      (runs : List Run) (left : List (List KmLine)) (stat : FuzzingStats)
      → WellFormed (printed g) last_input_id e.mismatch_check_mode
      → length e.ignore_list < suc last_input_id
      → 1 ≤ k
      → ArePrinted (printed g) (suc last_input_id) k 0 (x ∷ runs)
      → trace_test_case digest e
          (suc last_input_id)
          (length (x ∷ runs) * k)
          memory
          (batches_of (x ∷ runs) left)
          stat
        ≡ some (
          (
            some (
                raw_readings_to_traces digest e 0
                  (new_array (suc last_input_id) (length (x ∷ runs) * k) (λ i r. g r i))),
            left,
          ),
          record stat {
            executor_reruns = stat.executor_reruns + length (x ∷ runs) * k * suc last_input_id;
          },
        )
  unfolding trace_test_case traces_of_reading
  trace_test_case-samples e last_input_id k memory x runs left stat well_formed some_kept pos
        are_printed =
      let n = suc last_input_id in
      let some_inputs : (n == 0) ≡ false = ground arith in
      let kept : leb n (length e.ignore_list) ≡ false = ground arith in
      let run =
        read_trace-run_readings (printed g) last_input_id e.mismatch_check_mode well_formed k x runs
          left pos are_printed in
      rw (run, store_all g n (length (x ∷ runs) * k) memory, some_inputs, kept) refl
