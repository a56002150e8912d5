-- ===== src/DataGenerator.antt =====
-- rvzr/data_generator.py: random inputs, and the inputs that are boosted from them. `none` is an
-- exception.
pub mod Words
pub mod Boosting
pub mod Loading
use side_channel_fuzzer.Prelude.{
  ℕ, zero, suc, ◌+◌, ◌-◌, ◌*◌, ◌/◌, ◌%◌, ◌^◌, Bool, true, false, Option, none, some, List, [], ◌∷◌,
  ◌++◌, map, ◌==◌, if◌then◌else◌, ◌>>=◌, ◌>>◌, guard, length, get_elem?, set,
}
use side_channel_fuzzer.InputData.{
  main_entries, faulty_entries, gpr_entries, n_data_entries_per_actor, InputData, input_new,
  set_actor_data, InputTaint,
}

-- The outcome of a roll against the two probabilities.
pub data Roll : Type 0 where
  zero_value max_value random_value : Roll

-- What NumPy delivers: the words and the rolls that `default_rng(seed)` draws for an actor, and the
-- content of the memory that a new array of so many actors is given. `random_seed` is the number
-- that `random.randint` returns.
pub record Source : Type 0 where
  pub words : ℕ → ℕ → List ℕ
  pub rolls : ℕ → ℕ → List Roll
  pub memory : ℕ → List (List ℕ)
  pub random_seed : ℕ

-- the state of DataGenerator
pub record Generator : Type 0 where
  pub state : ℕ
  pub boosting_state : ℕ
  pub skip_special_values : Bool

-- (data << 32) + data, on 64 bits
unfoldable pub double_word : ℕ → ℕ
double_word x = (x * 2 ^ 32 % 2 ^ 64 + x) % 2 ^ 64

-- input_[i]['gpr'][reg_id] = value, in the linear view
abbrev pub set_gpr : ℕ → ℕ → ℕ → List (List ℕ) → Option (List (List ℕ))
set_gpr actor_id reg_id value actors = do
  view ← get_elem? actors actor_id
  some (set actors actor_id (set view (main_entries + faulty_entries + reg_id) value))

-- the loop over the registers
unfoldable pub set_special_values : ℕ → ℕ → List Roll → InputData → Option InputData
set_special_values actor_id reg_id [] input = some input
set_special_values actor_id reg_id (zero_value ∷ rolls) input = do
  actors ← set_gpr actor_id reg_id 0 input.actors
  set_special_values actor_id (suc reg_id) rolls (record input { actors = actors })
set_special_values actor_id reg_id (max_value ∷ rolls) input = do
  actors ← set_gpr actor_id reg_id (2 ^ 64 - 1) input.actors
  set_special_values actor_id (suc reg_id) rolls (record input { actors = actors })
set_special_values actor_id reg_id (random_value ∷ rolls) input =
    set_special_values actor_id (suc reg_id) rolls input

module _ (source : Source) where
  -- the rounds of the loop over the actors from `i` on, `n` of them
  unfoldable pub generate_actors : Generator → ℕ → ℕ → ℕ → InputData → Option InputData
  unfolding set_special_values set_actor_data double_word
  generate_actors g seed i zero input = some input
  generate_actors g seed i (suc n) input = do
    input1 ←
        (if g.skip_special_values
          then some input
          else set_special_values i 0 (source.rolls seed i) input)
    input2 ← set_actor_data i (map double_word (source.words seed i)) input1
    generate_actors g seed (suc i) n input2

  -- DataGenerator._generate_one
  unfoldable pub generate_one : Generator → ℕ → ℕ → Option (InputData × ℕ)
  unfolding generate_actors
  generate_one g state n_actors = do
    input ←
        generate_actors g state 0 n_actors
          (record (input_new (source.memory n_actors)) { seed = state })
    some (input, state + 1)

  -- the loop of DataGenerator.generate
  unfoldable pub generate_from : Generator → ℕ → ℕ → Option (List InputData × Generator)
  unfolding generate_one
  generate_from g n_actors zero = some ([], g)
  generate_from g n_actors (suc count) = do
    (input, state) ← generate_one g g.state n_actors
    (rest, g') ← generate_from (record g { state = state }) n_actors count
    some (input ∷ rest, g')

  -- the seed of the first invocation
  abbrev pub seeded : Generator → Generator
  seeded g = if g.state == 0 then record g { state = source.random_seed } else g

  -- DataGenerator.generate
  unfoldable pub generate : Generator → ℕ → ℕ → Option (List InputData × Generator)
  unfolding generate_from
  generate g count n_actors = do
    (inputs, g') ← generate_from (seeded g) n_actors count
    some (inputs, record g' { boosting_state = g'.state })

-- The loop that copies the tainted entries among the first `n`. The views have the same fixed
-- length; a shorter one is an IndexError.
unfoldable pub copy_tainted : ℕ → List Bool → List ℕ → List ℕ → Option (List ℕ)
copy_tainted zero taint old new = some new
copy_tainted (suc n) (t ∷ taint) (o ∷ old) (x ∷ new) = do
  rest ← copy_tainted n taint old new
  some ((if t then o else x) ∷ rest)
copy_tainted (suc n) taint old new = none

-- the loop over the actors
unfoldable pub copy_actors :
    ℕ → ℕ → InputTaint → List (List ℕ) → List (List ℕ) → Option (List (List ℕ))
unfolding copy_tainted
copy_actors size zero taint old new = some new
copy_actors size (suc n) (t ∷ taint) (o ∷ old) (x ∷ new) = do
  view ← copy_tainted size t o x
  rest ← copy_actors size n taint old new
  some (view ∷ rest)
copy_actors size (suc n) taint old new = none

module _ (source : Source) where
  -- the loop over the inputs
  unfoldable pub boost_round :
      Generator → ℕ → List InputData → List InputTaint → Option (List InputData × Generator)
  unfolding generate_one copy_actors
  boost_round g n_actors [] taints = some ([], g)
  boost_round g n_actors (input ∷ inputs) [] = none
  boost_round g n_actors (input ∷ inputs) (taint ∷ taints) = do
    (fresh, state) ← generate_one source g g.boosting_state n_actors
    actors ← copy_actors n_data_entries_per_actor n_actors taint input.actors fresh.actors
    (rest, g') ← boost_round (record g { boosting_state = state }) n_actors inputs taints
    some (record fresh { actors = actors } ∷ rest, g')

  -- the outer loop, `n` rounds of it
  unfoldable pub boost_rounds :
      Generator → ℕ → List InputData → List InputTaint → ℕ → Option (List InputData × Generator)
  unfolding boost_round
  boost_rounds g n_actors inputs taints zero = some ([], g)
  boost_rounds g n_actors inputs taints (suc n) = do
    (new, g1) ← boost_round g n_actors inputs taints
    (rest, g2) ← boost_rounds g1 n_actors inputs taints n
    some (new ++ rest, g2)

  -- DataGenerator.generate_boosted
  unfoldable pub generate_boosted :
      Generator → List InputData → List InputTaint → ℕ → Option (List InputData × Generator)
  unfolding boost_rounds
  generate_boosted g [] taints inputs_per_class = some ([], g)
  generate_boosted g (input ∷ inputs) taints inputs_per_class = do
    guard (length (input ∷ inputs) == length taints)
    let g0 : Generator = record g { boosting_state = g.state }
    (new, g') ← boost_rounds g0 (length input.actors) (input ∷ inputs) taints (inputs_per_class - 1)
    some ((input ∷ inputs) ++ new, g')
