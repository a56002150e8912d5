-- ===== src/Executor/Runs.antt =====
-- A whole session with the kernel module: `n_reps` repetitions in several runs.
use side_channel_fuzzer.Prelude.{
  ℕ, suc, ◌+◌, ◌-◌, ◌*◌, ◌≤◌, ◌≡◌, sym, ap, ◌∙◌, Bool, true, false, List, [], ◌∷◌, ◌++◌, arith,
  append_assoc, ◌==◌, ltb, length,
}
use side_channel_fuzzer.Executor.{
  KmLine, done, Reading, more, returned, read_lines, read_batches, read_trace,
}
use side_channel_fuzzer.Executor.Reading.{
  drop_blanks, flatten, Run, batches_of, run_lines, run_readings, ArePrinted, run_readings-add,
  at_start, WellFormed, read_lines-drop_blanks, read_lines-append, read_lines-done,
  read_batches-chunks, read_lines-run_lines,
}

module _ (f : ℕ → ℕ → List ℕ) (last_input_id : ℕ) (arch_mode : Bool)
    (well_formed : WellFormed f last_input_id arch_mode) where
  add_pos : (k m : ℕ) → 1 ≤ k → 1 ≤ k + m
  add_pos k m h = omega arith

  -- behind one run: the reading goes on, or returns
  one_run :
      (n_reps k r : ℕ) (x : Run) (rest : List (List KmLine)) (acc : List Reading)
      → drop_blanks (flatten x.chunks ++ x.last_lines) ≡ run_lines f (suc last_input_id) r k
      → read_batches
          (suc last_input_id)
          arch_mode
          n_reps
          (x.chunks ++ ((x.last_lines ++ done ∷ x.tail) ∷ rest))
          (at_start f last_input_id arch_mode r acc)
        ≡ elim (ltb (r + k) n_reps) [
          | true ↦ read_batches (suc last_input_id) arch_mode n_reps rest (
              at_start f last_input_id arch_mode
                (r + k)
                (acc ++ run_readings f (suc last_input_id) r k))
          | false ↦ returned (acc ++ run_readings f (suc last_input_id) r k) rest
        ]
  one_run n_reps k r x rest acc printed =
      let start = at_start f last_input_id arch_mode r acc in
      let stop =
        at_start f last_input_id arch_mode (r + k)
          (acc ++ run_readings f (suc last_input_id) r k) in
      let all_lines : read_lines (suc last_input_id) arch_mode (flatten x.chunks ++ x.last_lines)
            start
          ≡ more stop =
        read_lines-drop_blanks f last_input_id arch_mode (flatten x.chunks ++ x.last_lines) start
        ∙ ap (λ l. read_lines (suc last_input_id) arch_mode l start) printed
        ∙ read_lines-run_lines f last_input_id arch_mode well_formed r k acc in
      let (s1, p, q) =
        read_lines-append f last_input_id arch_mode (flatten x.chunks) x.last_lines start stop
          all_lines in
      read_batches-chunks f last_input_id arch_mode n_reps x.chunks
        ((x.last_lines ++ done ∷ x.tail) ∷ rest) start s1 p
      ∙ (unfold read_batches in
          ground (arith, read_lines-done f last_input_id arch_mode x.last_lines x.tail s1 stop q))

  read_batches-runs :
      (n_reps k r : ℕ) (x : Run) (runs : List Run) (left : List (List KmLine)) (acc : List Reading)
      → 1 ≤ k
      → ArePrinted f (suc last_input_id) k r (x ∷ runs)
      → n_reps ≡ r + length (x ∷ runs) * k
      → read_batches
          (suc last_input_id)
          arch_mode
          n_reps
          (batches_of (x ∷ runs) left)
          (at_start f last_input_id arch_mode r acc)
        ≡ returned (acc ++ run_readings f (suc last_input_id) r (length (x ∷ runs) * k)) left
  unfolding batches_of
  read_batches-runs n_reps k r x [] left acc pos printed total =
      let later : ltb (r + k) n_reps ≡ false = ground arith in
      let e : k ≡ 1 * k = omega arith in
      one_run n_reps k r x left acc printed.0
      ∙ rw later (ap (λ q. returned (acc ++ run_readings f (suc last_input_id) r q) left) e)
  read_batches-runs n_reps k r x (y ∷ runs) left acc pos printed total =
      let n = suc last_input_id in
      let goes_on : ltb (r + k) n_reps ≡ true = ground (arith, add_pos k (length runs * k)) in
      let e : k + length (y ∷ runs) * k ≡ length (x ∷ y ∷ runs) * k = omega arith in
      one_run n_reps k r x (batches_of (y ∷ runs) left) acc printed.0
      ∙ rw goes_on (
          read_batches-runs n_reps k (r + k) y runs left (acc ++ run_readings f n r k) pos printed.1
            (omega arith))
      ∙ ap (λ l. returned l left)
          (append_assoc acc (run_readings f n r k)
              (run_readings f n (r + k) (length (y ∷ runs) * k))
            ∙ ap (λ l. acc ++ l)
                (sym (run_readings-add f n r k (length (y ∷ runs) * k))
                  ∙ ap (run_readings f n r) e))

  -- If the kernel module prints `n_reps` repetitions in runs of `k`, the rows well-formed and each
  -- run cut into batches anywhere, with empty lines anywhere, then the reading returns, it yields the
  -- numbers of each repetition and input exactly once, under its own indices, and it leaves all
  -- further output unread.
  pub read_trace-run_readings :
      (k : ℕ) (x : Run) (runs : List Run) (left : List (List KmLine))
      → 1 ≤ k
      → ArePrinted f (suc last_input_id) k 0 (x ∷ runs)
      → read_trace
          (suc last_input_id)
          arch_mode
          (length (x ∷ runs) * k)
          (batches_of (x ∷ runs) left)
        ≡ returned (run_readings f (suc last_input_id) 0 (length (x ∷ runs) * k)) left
  unfolding read_trace
  read_trace-run_readings k x runs left pos printed =
      let some_reps : (length (x ∷ runs) * k == 0) ≡ false =
        ground (arith, add_pos k (length runs * k)) in
      let e : suc last_input_id - 1 ≡ last_input_id = omega arith in
      let e' : length (x ∷ runs) * k ≡ 0 + length (x ∷ runs) * k = omega arith in
      let some_inputs : (suc last_input_id == 0) ≡ false = ground arith in
      rw (some_inputs, some_reps, e)
        (read_batches-runs (length (x ∷ runs) * k) k 0 x runs left [] pos printed e')
