-- ===== src/Executor/Reading.antt =====
-- What the kernel module prints, cut into batches, and the reading of it.
use side_channel_fuzzer.Prelude.{
  ℕ, zero, suc, ◌+◌, ◌≡◌, refl, sym, ap, ◌∙◌, Bool, false, List, [], ◌∷◌, ◌++◌, arith, append_assoc,
  append-nil,
}
use side_channel_fuzzer.Executor.{
  KmLine, blank, done, row, Reading, ReadState, more, finished, next_reading, is_malformed,
  read_lines, read_batches,
}

-- the lines without the empty ones
unfoldable pub drop_blanks : List KmLine → List KmLine
drop_blanks [] = []
drop_blanks (blank ∷ lines) = drop_blanks lines
drop_blanks (done ∷ lines) = done ∷ drop_blanks lines
drop_blanks (row numbers ∷ lines) = row numbers ∷ drop_blanks lines

unfoldable pub flatten : List (List KmLine) → List KmLine
flatten [] = []
flatten (lines ∷ batches) = lines ++ flatten batches

-- The batches of one run: some that end before `done`, the lines of the last batch in front of
-- `done`, and what follows it.
pub record Run : Type 0 where
  pub chunks : List (List KmLine)
  pub last_lines : List KmLine
  pub tail : List KmLine

unfoldable pub batches_of : List Run → List (List KmLine) → List (List KmLine)
batches_of [] left = left
batches_of (r ∷ runs) left = r.chunks ++ ((r.last_lines ++ done ∷ r.tail) ∷ batches_of runs left)

-- What is printed: for each repetition the inputs in reverse order. `f r i` are the numbers of the
-- input `i` in the repetition `r`.
module _ (f : ℕ → ℕ → List ℕ) where
  unfoldable pub rep_lines : ℕ → ℕ → List KmLine
  rep_lines r zero = []
  rep_lines r (suc i) = row (f r i) ∷ rep_lines r i

  unfoldable pub run_lines : ℕ → ℕ → ℕ → List KmLine
  run_lines n r zero = []
  run_lines n r (suc k) = rep_lines r n ++ run_lines n (r + 1) k

  -- the readings of `n` inputs in the repetition `r`, and in `k` repetitions from `r` on
  unfoldable pub rep_readings : ℕ → ℕ → List Reading
  rep_readings r zero = []
  rep_readings r (suc i) = (r, i, f r i) ∷ rep_readings r i

  unfoldable pub run_readings : ℕ → ℕ → ℕ → List Reading
  run_readings n r zero = []
  run_readings n r (suc k) = rep_readings r n ++ run_readings n (r + 1) k

  -- Each run prints `k` repetitions for `n` inputs.
  abbrev pub ArePrinted : ℕ → ℕ → ℕ → List Run → Type 0
  ArePrinted n k r [] = Unit
  ArePrinted n k r (x ∷ runs) =
      (drop_blanks (flatten x.chunks ++ x.last_lines) ≡ run_lines n r k)
      × ArePrinted n k (r + k) runs

  pub run_readings-add :
      (n r k j : ℕ) → run_readings n r (k + j) ≡ run_readings n r k ++ run_readings n (r + k) j
  unfolding run_readings
  run_readings-add n r zero j =
      let e : 0 + j ≡ j = omega arith in
      let e' : r ≡ r + 0 = omega arith in ap (run_readings n r) e ∙ ap (λ q. run_readings n q j) e'
  run_readings-add n r (suc k) j =
      let e : suc k + j ≡ suc (k + j) = omega arith in
      let e' : r + 1 + k ≡ r + suc k = omega arith in
      ap (run_readings n r) e
      ∙ ap (λ l. rep_readings r n ++ l) (run_readings-add n (r + 1) k j)
      ∙ sym (
          append_assoc (rep_readings r n) (run_readings n (r + 1) k) (run_readings n (r + 1 + k) j))
      ∙ ap (λ q. (rep_readings r n ++ run_readings n (r + 1) k) ++ run_readings n q j) e'

  module _ (last_input_id : ℕ) (arch_mode : Bool) where
    abbrev pub n_inputs : ℕ
    n_inputs = suc last_input_id

    abbrev pub at_start : ℕ → List Reading → ReadState
    at_start r acc = record { rep_id = r; input_id = last_input_id; readings = acc }

    pub read_lines-drop_blanks :
        (lines : List KmLine) (s : ReadState)
        → read_lines n_inputs arch_mode lines s
          ≡ read_lines n_inputs arch_mode (drop_blanks lines) s
    unfolding read_lines drop_blanks
    read_lines-drop_blanks [] s = refl
    read_lines-drop_blanks (blank ∷ lines) s = read_lines-drop_blanks lines s
    read_lines-drop_blanks (done ∷ lines) s = refl
    read_lines-drop_blanks (row numbers ∷ lines) s =
        ground (arith, read_lines-drop_blanks lines (next_reading n_inputs arch_mode numbers s))

    -- the state behind `xs`, and the reading of the rest from there
    pub read_lines-append :
        (xs ys : List KmLine) (s s2 : ReadState)
        → read_lines n_inputs arch_mode (xs ++ ys) s ≡ more s2
        → (s1 : ReadState) × (read_lines n_inputs arch_mode xs s ≡ more s1)
          × (read_lines n_inputs arch_mode ys s1 ≡ more s2)
    unfolding read_lines
    read_lines-append [] ys s s2 h = (s, refl, h)
    read_lines-append (blank ∷ xs) ys s s2 h = read_lines-append xs ys s s2 h
    read_lines-append (done ∷ xs) ys s s2 h = absurd (ground arith)
    read_lines-append (row numbers ∷ xs) ys s s2 h =
        let (s1, p, q) =
          read_lines-append xs ys (next_reading n_inputs arch_mode numbers s) s2 (ground arith) in
        (s1, ground arith, q)

    pub read_lines-done :
        (xs ys : List KmLine) (s s1 : ReadState)
        → read_lines n_inputs arch_mode xs s ≡ more s1
        → read_lines n_inputs arch_mode (xs ++ done ∷ ys) s ≡ finished s1
    unfolding read_lines
    read_lines-done [] ys s s1 h = ground arith
    read_lines-done (blank ∷ xs) ys s s1 h = read_lines-done xs ys s s1 h
    read_lines-done (done ∷ xs) ys s s1 h = absurd (ground arith)
    read_lines-done (row numbers ∷ xs) ys s s1 h =
        ground (arith, read_lines-done xs ys (next_reading n_inputs arch_mode numbers s) s1)

    -- batches without `done`
    pub read_batches-chunks :
        (n_reps : ℕ) (chunks rest : List (List KmLine)) (s s1 : ReadState)
        → read_lines n_inputs arch_mode (flatten chunks) s ≡ more s1
        → read_batches n_inputs arch_mode n_reps (chunks ++ rest) s
          ≡ read_batches n_inputs arch_mode n_reps rest s1
    unfolding read_batches flatten read_lines
    read_batches-chunks n_reps [] rest s s1 h = ground arith
    read_batches-chunks n_reps (c ∷ chunks) rest s s1 h =
        let (s0, p, q) = read_lines-append c (flatten chunks) s s1 h in
        rw (p, read_batches) (read_batches-chunks n_reps chunks rest s0 s1 q)

    -- The rows are well-formed.
    abbrev pub WellFormed : Type 0
    WellFormed = (r i : ℕ) → is_malformed n_inputs arch_mode (f r i) ≡ false

    module _ (well_formed : WellFormed) where
      read_lines-rep_lines :
          (r i : ℕ) (acc : List Reading)
          → read_lines n_inputs arch_mode
              (rep_lines r (suc i))
              (record { rep_id = r; input_id = i; readings = acc })
            ≡ more (at_start (r + 1) (acc ++ rep_readings r (suc i)))
      unfolding read_lines rep_lines rep_readings next_reading
      read_lines-rep_lines r zero acc = ground (arith, well_formed r 0)
      read_lines-rep_lines r (suc i) acc = ground (
        arith,
        well_formed r (suc i),
        read_lines-rep_lines r i (acc ++ (r, suc i, f r (suc i)) ∷ []),
        append_assoc acc ((r, suc i, f r (suc i)) ∷ []) (rep_readings r (suc i)),
      )

      read_lines-join :
          (xs ys : List KmLine) (s s1 s2 : ReadState)
          → read_lines n_inputs arch_mode xs s ≡ more s1
          → read_lines n_inputs arch_mode ys s1 ≡ more s2
          → read_lines n_inputs arch_mode (xs ++ ys) s ≡ more s2
      unfolding read_lines
      read_lines-join [] ys s s1 s2 h k = ground arith
      read_lines-join (blank ∷ xs) ys s s1 s2 h k = read_lines-join xs ys s s1 s2 h k
      read_lines-join (done ∷ xs) ys s s1 s2 h k = absurd (ground arith)
      read_lines-join (row numbers ∷ xs) ys s s1 s2 h k =
          ground (arith, read_lines-join xs ys (next_reading n_inputs arch_mode numbers s) s1 s2)

      pub read_lines-run_lines :
          (r k : ℕ) (acc : List Reading)
          → read_lines n_inputs arch_mode (run_lines n_inputs r k) (at_start r acc)
            ≡ more (at_start (r + k) (acc ++ run_readings n_inputs r k))
      unfolding run_lines run_readings
      read_lines-run_lines r zero acc = unfold read_lines in ground (arith, append-nil acc)
      read_lines-run_lines r (suc k) acc =
          read_lines-join (rep_lines r n_inputs) (run_lines n_inputs (r + 1) k) (at_start r acc)
            (at_start (r + 1) (acc ++ rep_readings r n_inputs)) _
            (read_lines-rep_lines r last_input_id acc)
            (ground (
              arith,
              read_lines-run_lines (r + 1) k (acc ++ rep_readings r n_inputs),
              append_assoc acc (rep_readings r n_inputs) (run_readings n_inputs (r + 1) k),
            ))
