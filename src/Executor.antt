-- ===== src/Executor.antt =====
-- rvzr/executor.py: what the adapter does with the output of the kernel module. The output is a
-- sequence of batches of lines, one for each read of the file; a line is empty, or `done`, or
-- numbers.
pub mod Reading
pub mod Runs
pub mod Ignoring
pub mod Tabulate
pub mod Storing
use side_channel_fuzzer.Prelude.{
  ℕ, zero, suc, ◌+◌, ◌-◌, ◌*◌, ◌%◌, Bool, true, false, not, ◌&&◌, ◌||◌, Option, none, some, List,
  [], ◌∷◌, ◌++◌, map, ◌==◌, ltb, leb, if◌then◌else◌, ◌>>=◌, ◌>>◌, guard, length, get_elem?, set,
  any, replicate, filter, bit_and,
}
use side_channel_fuzzer.Stats.{FuzzingStats}
use side_channel_fuzzer.Traces.Hardware.{
  HTraceType, RawHTraceSample, HTrace, htrace_init, invalid_trace, empty_trace,
}

pub data KmLine : Type 0 where
  blank : KmLine
  done : KmLine
  row : List ℕ → KmLine

-- a repetition, an input, and the numbers that were read for them
abbrev pub Reading : Type 0
Reading = ℕ × ℕ × List ℕ

-- The variables of `_read_trace`, with what it has yielded.
pub record ReadState : Type 0 where
  pub rep_id : ℕ
  pub input_id : ℕ
  pub readings : List Reading

-- Behind the lines of a batch: more is wanted, `done` was read, or the output is malformed.
pub data BatchEnd : Type 0 where
  more : ReadState → BatchEnd
  finished : ReadState → BatchEnd
  malformed : BatchEnd

-- How the reading ends, with the batches that are left: it returns, raises an IOError or fails an
-- assertion, or it waits for output that does not come.
pub data ReadEnd : Type 0 where
  returned : List Reading → List (List KmLine) → ReadEnd
  io_error : List (List KmLine) → ReadEnd
  assertion_error : ReadEnd
  starved : ReadEnd

module _ (n_inputs : ℕ) (arch_mode : Bool) where
  -- the yield, and the move to the next input
  unfoldable pub next_reading : List ℕ → ReadState → ReadState
  next_reading numbers s =
      let readings = s.readings ++ (s.rep_id, s.input_id, numbers) ∷ [] in
      if s.input_id == 0
      then record { rep_id = s.rep_id + 1; input_id = n_inputs - 1; readings = readings }
      else record s { input_id = s.input_id - 1; readings = readings }

  -- a row must have six numbers, and a trace that is not zero
  unfoldable pub is_malformed : List ℕ → Bool
  is_malformed [] = true
  is_malformed (trace ∷ pfcs) = not (length (trace ∷ pfcs) == 6) || (trace == 0 && not arch_mode)

  -- the loop over the lines of a batch
  unfoldable pub read_lines : List KmLine → ReadState → BatchEnd
  unfolding next_reading is_malformed
  read_lines [] s = more s
  read_lines (blank ∷ lines) s = read_lines lines s
  read_lines (done ∷ lines) s = finished s
  read_lines (row numbers ∷ lines) s = elim (is_malformed numbers) [
    | true ↦ malformed
    | false ↦ read_lines lines (next_reading numbers s)
  ]

  abbrev pub is_done : KmLine → Bool
  is_done blank = false
  is_done done = true
  is_done (row numbers) = false

  -- _rewind_km_output_to_end
  unfoldable pub rewind_km_output_to_end : List (List KmLine) → ReadEnd
  rewind_km_output_to_end [] = starved
  rewind_km_output_to_end (lines ∷ batches) =
      let rest = rewind_km_output_to_end batches in
      if any is_done lines then io_error batches else rest

  -- The two `while` loops of _read_trace: each round reads a batch.
  unfoldable pub read_batches : ℕ → List (List KmLine) → ReadState → ReadEnd
  unfolding read_lines rewind_km_output_to_end
  read_batches n_reps [] s = starved
  read_batches n_reps (lines ∷ batches) s = elim (read_lines lines s) [
    | malformed ↦ rewind_km_output_to_end batches
    | more s' ↦ read_batches n_reps batches s'
    | finished s' ↦ elim (s'.input_id == n_inputs - 1) [
      | false ↦ assertion_error
      | true ↦ elim (ltb s'.rep_id n_reps) [
        | true ↦ read_batches n_reps batches s'
        | false ↦ returned s'.readings batches
      ]
    ]
  ]

  -- _read_trace
  unfoldable pub read_trace : ℕ → List (List KmLine) → ReadEnd
  unfolding read_batches
  read_trace n_reps batches =
      if n_inputs == 0 || n_reps == 0
      then returned [] batches
      else read_batches n_reps batches
          (record { rep_id = 0; input_id = n_inputs - 1; readings = [] })

-- CONF.executor_mode, the mode of the executor, and the inputs that are ignored
pub record ExecutorState : Type 0 where
  pub mismatch_check_mode : Bool
  pub tsc_mode : Bool
  pub ignore_list : List ℕ

-- i in s
abbrev pub is_in : ℕ → List ℕ → Bool
is_in i l = any (λ j. j == i) l

-- Executor.set_ignore_list: a set has no duplicates
unfoldable pub to_set : List ℕ → List ℕ
to_set [] = []
to_set (i ∷ l) = let rest = to_set l in if is_in i rest then rest else i ∷ rest

unfoldable pub set_ignore_list : List ℕ → ExecutorState → ExecutorState
unfolding to_set
set_ignore_list l e = record e { ignore_list = to_set l }

-- Executor.extend_ignore_list
unfoldable pub extend_ignore_list : List ℕ → ExecutorState → ExecutorState
unfolding to_set
extend_ignore_list l e = record e { ignore_list = to_set (l ++ e.ignore_list) }

-- Executor.load_test_case: what it does to the ignore list
unfoldable pub load_test_case : ExecutorState → ExecutorState
load_test_case e = record e { ignore_list = [] }

-- Executor._identify_trace_type
unfoldable pub identify_trace_type : ExecutorState → HTraceType
identify_trace_type e =
    if e.mismatch_check_mode
    then HTraceType.reg
    else if e.tsc_mode
    then HTraceType.tsc
    else HTraceType.cache

-- raw['trace'] &= _TSC_MASK
unfoldable pub mask_tsc : RawHTraceSample → RawHTraceSample
mask_tsc s = record s { trace = bit_and s.trace 0x0FFFFFFFFFFFFFF0 }

-- a tuple of six numbers, assigned to an element of the array
unfoldable pub to_sample : List ℕ → Option RawHTraceSample
to_sample (t ∷ a ∷ b ∷ c ∷ d ∷ f ∷ []) =
    some (record { trace = t; pfc0 = a; pfc1 = b; pfc2 = c; pfc3 = d; pfc4 = f })
to_sample _ = none

-- [h(s), …, h(s + n - 1)]
unfoldable pub tabulate : {A : Type 0} → (ℕ → A) → ℕ → ℕ → List A
tabulate h s zero = []
tabulate h s (suc n) = h s ∷ tabulate h (suc s) n

-- np.ndarray(shape=(n_inputs, n_reps)): `memory` is what the new array happens to hold
unfoldable pub new_array : ℕ → ℕ → (ℕ → ℕ → RawHTraceSample) → List (List RawHTraceSample)
unfolding tabulate
new_array n_inputs n_reps memory = tabulate (λ i. tabulate (memory i) 0 n_reps) 0 n_inputs

-- all_readings[input_id][rep_id] = readings, for all that is read; out of bounds is an IndexError
unfoldable pub store_readings :
    List Reading → List (List RawHTraceSample) → Option (List (List RawHTraceSample))
unfolding to_sample
store_readings [] rows = some rows
store_readings ((rep_id, input_id, numbers) ∷ rest) rows = do
  raw ← get_elem? rows input_id
  guard (ltb rep_id (length raw))
  sample ← to_sample numbers
  store_readings rest (set rows input_id (set raw rep_id sample))

module _ (digest : List ℕ → ℕ) where
  -- the loop of Executor._raw_readings_to_traces
  unfoldable pub raw_readings_to_traces :
      ExecutorState → ℕ → List (List RawHTraceSample) → List HTrace
  unfolding htrace_init invalid_trace identify_trace_type mask_tsc
  raw_readings_to_traces e input_id [] = []
  raw_readings_to_traces e input_id (raw ∷ rows) =
      (if e.mismatch_check_mode
        then htrace_init digest raw (identify_trace_type e)
        else if is_in input_id e.ignore_list
        then invalid_trace digest (identify_trace_type e)
        else htrace_init digest (if e.tsc_mode then map mask_tsc raw else raw)
            (identify_trace_type e))
      ∷ raw_readings_to_traces e (suc input_id) rows

  -- The rest of trace_test_case, behind the reading.
  unfoldable pub traces_of_reading :
      ExecutorState
      → List (List RawHTraceSample)
      → ReadEnd
      → Option (Option (List HTrace) × List (List KmLine))
  unfolding store_readings raw_readings_to_traces
  traces_of_reading e memory (io_error batches) = some (none, batches)
  traces_of_reading e memory assertion_error = none
  traces_of_reading e memory starved = none
  traces_of_reading e memory (returned readings batches) = do
    rows ← store_readings readings memory
    some (some (raw_readings_to_traces e 0 rows), batches)

  -- Executor.trace_test_case, without the transfer of the inputs. The traces are `none` for an IOError; any other exception
  -- is `none` altogether.
  unfoldable pub trace_test_case :
      ExecutorState
      → ℕ
      → ℕ
      → (ℕ → ℕ → RawHTraceSample)
      → List (List KmLine)
      → FuzzingStats
      → Option ((Option (List HTrace) × List (List KmLine)) × FuzzingStats)
  unfolding new_array empty_trace read_trace traces_of_reading
  trace_test_case e n_inputs n_reps memory batches stat =
      if n_inputs == 0
      then some ((some [], batches), stat)
      else if leb n_inputs (length e.ignore_list)
      then some ((some (replicate n_inputs (empty_trace digest HTraceType.cache)), batches), stat)
      else (do
        result ←
            traces_of_reading e (new_array n_inputs n_reps memory)
              (read_trace n_inputs e.mismatch_check_mode n_reps batches)
        some (result, record stat { executor_reruns = stat.executor_reruns + n_reps * n_inputs }))
