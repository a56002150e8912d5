-- ===== src/Tests/InputsAtWork.antt =====
-- Inputs and readings at concrete values.
use side_channel_fuzzer.Prelude.{
  ℕ, suc, ◌+◌, ◌*◌, ◌-◌, ◌≡◌, refl, ap, true, false, ◌||◌, some, List, [], ◌∷◌, ◌++◌, map, arith,
  length, length-replicate, replicate, get_elem?, all, ◌==◌,
}
use side_channel_fuzzer.InputData.{entries_per_actor, InputData, InputTaint}
use side_channel_fuzzer.DataGenerator.{
  Source, Generator, zero_value, max_value, double_word, generate_one, generate_boosted,
}
use side_channel_fuzzer.DataGenerator.Words.{IsSized, views_from, generate_one_lem}
use side_channel_fuzzer.DataGenerator.Boosting.{
  InputsShaped, TaintsShaped, Blocks, generate_boosted-agrees,
}
use side_channel_fuzzer.Traces.Hardware.{RawHTraceSample, HTrace, is_corrupted_or_ignored}
use side_channel_fuzzer.Executor.{
  blank, row, returned, is_malformed, read_trace, ExecutorState, is_in, extend_ignore_list,
  raw_readings_to_traces,
}
use side_channel_fuzzer.Executor.Reading.{
  drop_blanks, flatten, Run, batches_of, rep_lines, run_lines, run_readings, ArePrinted, WellFormed,
}
use side_channel_fuzzer.Executor.Runs.{read_trace-run_readings}
use side_channel_fuzzer.Stats.{zero_stats}
use side_channel_fuzzer.Executor.{new_array, trace_test_case}
use side_channel_fuzzer.Executor.Storing.{printed, trace_test_case-samples}
use side_channel_fuzzer.Executor.Ignoring.{seen, ignored-marked}
use side_channel_fuzzer.Tests.{test_digest, sample}

-- the view of an actor with one value in each entry
unfoldable constant_view : {A : Type 0} → A → List A
constant_view a = replicate entries_per_actor a

constant_view-length : {A : Type 0} (a : A) → length (constant_view a) ≡ entries_per_actor
unfolding constant_view
constant_view-length a = length-replicate entries_per_actor a

length-map : (f : ℕ → ℕ) (l : List ℕ) → length (map f l) ≡ length l
length-map f [] = refl
length-map f (x ∷ l) = ap suc (length-map f l)

-- Each word is the seed, and the first register is to be zero, the second the largest number.
abbrev source : Source
source = record {
  words = λ seed i. constant_view seed;
  rolls = λ seed i. zero_value ∷ max_value ∷ [];
  memory = λ n. replicate n [];
  random_seed = 1;
}

source-IsSized : IsSized source
source-IsSized = record {
  words_sized =
      λ seed i. rw (length-map double_word (constant_view seed)) (constant_view-length seed);
  memory_sized = λ n. length-replicate n [];
}

abbrev generator : Generator
generator = record { state = 5; boosting_state = 9; skip_special_values = false }

generate_one_example :
    generate_one source generator 5 2
    ≡ some (record { seed = 5; actors = views_from source 5 0 2 }, 5 + 1)
generate_one_example = generate_one_lem source source-IsSized generator 5 2

abbrev an_input : InputData
an_input = record { seed = 4; actors = constant_view 7 ∷ [] }

abbrev a_taint : InputTaint
a_taint = constant_view true ∷ []

input-shaped : InputsShaped 1 (an_input ∷ [])
input-shaped = (record { n_rows = refl; row_sizes = (constant_view-length 7, tt) }, tt)

taint-shaped : TaintsShaped 1 (a_taint ∷ [])
taint-shaped = (record { n_rows = refl; row_sizes = (constant_view-length true, tt) }, tt)

generate_boosted-agrees_example :
    (new : List InputData) × (g' : Generator) × (generate_boosted source generator
        (an_input ∷ [])
        (a_taint ∷ [])
        3
      ≡ some ((an_input ∷ []) ++ new, g'))
    × Blocks 1 (an_input ∷ []) (a_taint ∷ []) (3 - 1) new
    × (g'.state ≡ generator.state)
    × (generate_boosted source g' (an_input ∷ []) (a_taint ∷ []) 3
        ≡ some ((an_input ∷ []) ++ new, g'))
generate_boosted-agrees_example =
    generate_boosted-agrees source source-IsSized 1 generator an_input [] (a_taint ∷ []) 3 refl
      input-shaped taint-shaped

-- the numbers of an input in a repetition
abbrev numbers : ℕ → ℕ → List ℕ
numbers r i = (r + 1) ∷ i ∷ 0 ∷ 0 ∷ 0 ∷ 0 ∷ []

numbers-WellFormed : WellFormed numbers 1 false
unfolding is_malformed
numbers-WellFormed r i = ground arith

-- two inputs, one repetition in each run
abbrev first_run : Run
first_run = record {
  chunks = (row (numbers 0 1) ∷ []) ∷ [];
  last_lines = blank ∷ row (numbers 0 0) ∷ [];
  tail = blank ∷ [];
}

abbrev second_run : Run
second_run = record {
  chunks = [];
  last_lines = row (numbers 1 1) ∷ row (numbers 1 0) ∷ [];
  tail = [];
}

runs-ArePrinted : ArePrinted numbers 2 1 0 (first_run ∷ second_run ∷ [])
unfolding drop_blanks flatten run_lines rep_lines
runs-ArePrinted = (refl, (refl, tt))

read_trace-run_readings_example :
    read_trace 2 false (2 * 1) (batches_of (first_run ∷ second_run ∷ []) ((blank ∷ []) ∷ []))
    ≡ returned (run_readings numbers 2 0 (2 * 1)) ((blank ∷ []) ∷ [])
read_trace-run_readings_example =
    read_trace-run_readings numbers 1 false numbers-WellFormed 1 first_run (second_run ∷ [])
      ((blank ∷ []) ∷ []) (omega arith) runs-ArePrinted

abbrev tsc_executor : ExecutorState
tsc_executor = record { mismatch_check_mode = false; tsc_mode = true; ignore_list = 0 ∷ [] }

abbrev two_rows : List (List RawHTraceSample)
two_rows = (sample 32 ∷ []) ∷ (sample 64 ∷ []) ∷ []

ignored-marked_example :
    (t : HTrace) × (get_elem?
        (raw_readings_to_traces test_digest (extend_ignore_list (1 ∷ []) tsc_executor) 0 two_rows)
        1
      ≡ some t)
    × (is_corrupted_or_ignored t ≡ (
        (is_in 1 (1 ∷ []) || is_in 1 tsc_executor.ignore_list)
        || all (λ s. seen tsc_executor s == 0) (sample 64 ∷ [])))
ignored-marked_example =
    ignored-marked test_digest tsc_executor (1 ∷ []) 1 two_rows (sample 64 ∷ []) refl refl

-- the sample of an input in a repetition, and how two runs print it
abbrev measured : ℕ → ℕ → RawHTraceSample
measured r i = record { trace = r + 32; pfc0 = i; pfc1 = 0; pfc2 = 0; pfc3 = 0; pfc4 = 0 }

measured-WellFormed : WellFormed (printed measured) 1 false
unfolding is_malformed
measured-WellFormed r i = ground arith

abbrev one_rep : ℕ → Run
one_rep r = record {
  chunks = (row (printed measured r 1) ∷ blank ∷ []) ∷ [];
  last_lines = row (printed measured r 0) ∷ [];
  tail = blank ∷ [];
}

measured-ArePrinted : ArePrinted (printed measured) 2 1 0 (one_rep 0 ∷ one_rep 1 ∷ [])
unfolding drop_blanks flatten run_lines rep_lines
measured-ArePrinted = (refl, (refl, tt))

trace_test_case-samples_example :
    trace_test_case test_digest tsc_executor 2
      (2 * 1)
      (λ i r. sample 9)
      (batches_of (one_rep 0 ∷ one_rep 1 ∷ []) [])
      zero_stats
    ≡ some (
      (
        some (
            raw_readings_to_traces test_digest tsc_executor 0
              (new_array 2 (2 * 1) (λ i r. measured r i))),
        [],
      ),
      record zero_stats { executor_reruns = zero_stats.executor_reruns + 2 * 1 * 2 },
    )
trace_test_case-samples_example =
    trace_test_case-samples test_digest measured tsc_executor 1 1 (λ i r. sample 9) (one_rep 0)
      (one_rep 1 ∷ []) [] zero_stats measured-WellFormed (omega arith) (omega arith)
      measured-ArePrinted
