-- ===== src/DataGenerator/Loading.antt =====
-- `DataGenerator.load` of rvzr/data_generator.py, and `load` and `save` of `InputData` in
-- rvzr/tc_components/test_case_data.py.
use side_channel_fuzzer.Prelude.{
  ℕ, zero, suc, ◌+◌, ◌*◌, ◌≡◌, refl, Option, none, some, List, [], ◌∷◌, ◌++◌, ◌==◌, ◌>>=◌, ◌>>◌,
  guard, length, arith, >>=-eq-some, All,
}
use side_channel_fuzzer.InputData.{InputData, input_new, entries_per_actor}
use side_channel_fuzzer.DataGenerator.{
  Source, Generator, generate_one, generate_from, seeded, generate,
}

-- A file: its size in bytes, and the words of 64 bits that np.fromfile reads.
record InputFile : Type 0 where
  size : ℕ
  words : List ℕ

-- the first `n` words, and the rest; a slice that is too short cannot be assigned
unfoldable split_words : ℕ → List ℕ → Option (List ℕ × List ℕ)
split_words zero l = some ([], l)
split_words (suc n) [] = none
split_words (suc n) (x ∷ l) = do (a, b) ← split_words n l; some (x ∷ a, b)

-- the loop of InputData.load over the actors
unfoldable load_actors : ℕ → List ℕ → Option (List (List ℕ))
unfolding split_words
load_actors zero l = some []
load_actors (suc n) l = do
  (actor, rest) ← split_words entries_per_actor l
  actors ← load_actors n rest
  some (actor ∷ actors)

-- InputData.save: the linear views one after the other
unfoldable save_words : List (List ℕ) → List ℕ
save_words [] = []
save_words (actor ∷ actors) = actor ++ save_words actors

module _ (source : Source) (n_actors : ℕ) where
  -- the loop of DataGenerator.load; a file of another size is a ValueError
  unfoldable load_from : Generator → List InputFile → Option (List InputData × Generator)
  unfolding load_actors
  load_from g [] = some ([], g)
  load_from g (file ∷ files) = do
    guard (file.size == entries_per_actor * 8 * n_actors)
    actors ← load_actors n_actors file.words
    (rest, g') ← load_from (record g { state = g.state + 1 }) files
    some (record (input_new (source.memory n_actors)) { actors = actors } ∷ rest, g')

  -- DataGenerator.load
  unfoldable load : Generator → List InputFile → Option (List InputData × Generator)
  unfolding load_from
  load g files = do
    (inputs, g') ← load_from (seeded source g) files
    some (inputs, record g' { boosting_state = g'.state })

  load_from-state :
      (g g' : Generator) (files : List InputFile) (inputs : List InputData)
      → load_from g files ≡ some (inputs, g')
      → g' ≡ record g { state = g.state + length files }
  unfolding load_from
  load_from-state g g' [] inputs h = ground arith
  load_from-state g g' (file ∷ files) inputs h =
      let (_, sized, h1) =
        >>=-eq-some (guard (file.size == entries_per_actor * 8 * n_actors)) _ h in
      let (actors, parsed, h2) = >>=-eq-some (load_actors n_actors file.words) _ h1 in
      let ((rest, g1), loaded, h3) =
        >>=-eq-some (load_from (record g { state = g.state + 1 }) files) _ h2 in
      ground (arith, load_from-state (record g { state = g.state + 1 }) g1 files rest loaded)

  generate_one-state :
      (g : Generator) (state state' : ℕ) (input : InputData)
      → generate_one source g state n_actors ≡ some (input, state')
      → state' ≡ state + 1
  unfolding generate_one
  generate_one-state g state state' input h = ground arith

  generate_from-state :
      (g g' : Generator) (count : ℕ) (inputs : List InputData)
      → generate_from source g n_actors count ≡ some (inputs, g')
      → g' ≡ record g { state = g.state + count }
  unfolding generate_from
  generate_from-state g g' zero inputs h = ground arith
  generate_from-state g g' (suc count) inputs h =
      let ((input, state), made, h1) = >>=-eq-some (generate_one source g g.state n_actors) _ h in
      let next = generate_one-state g g.state state input made in
      let ((rest, g1), others, h3) =
        >>=-eq-some (generate_from source (record g { state = state }) n_actors count) _ h1 in
      ground (arith, generate_from-state (record g { state = state }) g1 count rest others)

  -- Loading leaves the generator in the state in which the generation of as many inputs leaves it.
  load-mirrors :
      (g g1 g2 : Generator) (files : List InputFile) (loaded made : List InputData)
      → load g files ≡ some (loaded, g1)
      → generate source g (length files) n_actors ≡ some (made, g2)
      → g1 ≡ g2
  unfolding load generate
  load-mirrors g g1 g2 files loaded made h k =
      let ((is, s), a, h1) = >>=-eq-some (load_from (seeded source g) files) _ h in
      let ((js, t), b, k1) =
        >>=-eq-some (generate_from source (seeded source g) n_actors (length files)) _ k in
      let p = load_from-state (seeded source g) s files is a in
      let q = generate_from-state (seeded source g) t (length files) js b in ground arith

split_words-append : (n : ℕ) (a b : List ℕ) → length a ≡ n → split_words n (a ++ b) ≡ some (a, b)
unfolding split_words
split_words-append zero [] b h = refl
split_words-append zero (x ∷ a) b h = absurd (omega (arith, h))
split_words-append (suc n) [] b h = absurd (omega (arith, h))
split_words-append (suc n) (x ∷ a) b h = ground (arith, split_words-append n a b (omega (arith, h)))

-- What was saved is loaded again.
load_actors-save_words :
    (actors : List (List ℕ))
    → All (λ a. length a ≡ entries_per_actor) actors
    → load_actors (length actors) (save_words actors) ≡ some actors
unfolding load_actors save_words
load_actors-save_words [] shaped = refl
load_actors-save_words (a ∷ actors) shaped = ground (
  arith,
  split_words-append entries_per_actor a (save_words actors) shaped.0,
  load_actors-save_words actors shaped.1,
)
