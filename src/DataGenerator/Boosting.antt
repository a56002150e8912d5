-- ===== src/DataGenerator/Boosting.antt =====
-- `DataGenerator.generate_boosted`: boosted inputs against the inputs that they come from.
use side_channel_fuzzer.Prelude.{
  ℕ, zero, suc, ◌+◌, ◌-◌, ◌≤◌, ◌≡◌, refl, ap, Bool, true, false, ◌&&◌, some, List, [], ◌∷◌, ◌++◌,
  map, arith, if◌then◌else◌, length, All, All-map, ◌==◌, eq→==,
}
use side_channel_fuzzer.InputData.{
  entries_per_actor, n_data_entries_per_actor, InputData, InputTaint, zero_from,
}
use side_channel_fuzzer.DataGenerator.{
  Source, Generator, copy_tainted, copy_actors, boost_round, boost_rounds, generate_boosted,
  double_word,
}
use side_channel_fuzzer.DataGenerator.Words.{IsSized, views_from, generate_one_lem}

-- the tainted ones of the first `n` entries are equal
abbrev pub agrees : ℕ → List Bool → List ℕ → List ℕ → Bool
agrees zero taint old new = true
agrees (suc n) (t ∷ taint) (o ∷ old) (x ∷ new) =
    (if t then x == o else true) && agrees n taint old new
agrees (suc n) taint old new = false

-- each of the first `n` actors agrees
unfoldable pub actors_agree : ℕ → ℕ → InputTaint → List (List ℕ) → List (List ℕ) → Bool
actors_agree size zero taint old new = true
actors_agree size (suc n) (t ∷ taint) (o ∷ old) (x ∷ new) =
    agrees size t o x && actors_agree size n taint old new
actors_agree size (suc n) taint old new = false

-- each new input agrees with the one at its place
unfoldable pub inputs_agree : ℕ → List InputData → List InputTaint → List InputData → Bool
inputs_agree n [] taints [] = true
inputs_agree n (input ∷ inputs) (taint ∷ taints) (new ∷ news) =
    actors_agree n_data_entries_per_actor n taint input.actors new.actors
    && inputs_agree n inputs taints news
inputs_agree n inputs taints news = false

-- `k` blocks, of a new input for each of the inputs
pub data Blocks (n : ℕ) (inputs : List InputData) (taints : List InputTaint)
    : ℕ → List InputData → Type 0 where
  no_block : Blocks n inputs taints 0 []
  block :
      (k : ℕ) (new rest : List InputData)
      → inputs_agree n inputs taints new ≡ true
      → length new ≡ length inputs
      → Blocks n inputs taints k rest
      → Blocks n inputs taints (suc k) (new ++ rest)

-- the shape of the arrays: `n` rows of an entry for each word of an actor
pub record IsShaped {A : Type 0} (n : ℕ) (rows : List (List A)) : Type 0 where
  pub n_rows : length rows ≡ n
  pub row_sizes : All (λ row. length row ≡ entries_per_actor) rows

copy_tainted_lem :
    (n : ℕ) (taint : List Bool) (old new : List ℕ)
    → n ≤ length taint
    → n ≤ length old
    → n ≤ length new
    → (r : List ℕ) × (copy_tainted n taint old new ≡ some r) × (agrees n taint old r ≡ true)
unfolding copy_tainted
copy_tainted_lem zero taint old new p q r = (new, refl, refl)
copy_tainted_lem (suc n) [] old new p q r = absurd (omega arith)
copy_tainted_lem (suc n) (t ∷ taint) [] new p q r = absurd (omega arith)
copy_tainted_lem (suc n) (t ∷ taint) (o ∷ old) [] p q r = absurd (omega arith)
copy_tainted_lem (suc n) (t ∷ taint) (o ∷ old) (x ∷ new) p q r =
    let (rest, run, ok) =
      copy_tainted_lem n taint old new (omega arith) (omega arith) (omega arith) in
    ((if t then o else x) ∷ rest, rw run, ground (arith, eq→== o o refl))

copy_actors_lem :
    (size n : ℕ) (taint : InputTaint) (old new : List (List ℕ))
    → length taint ≡ n
    → All (λ v. size ≤ length v) taint
    → length old ≡ n
    → All (λ v. size ≤ length v) old
    → length new ≡ n
    → All (λ v. size ≤ length v) new
    → (r : List (List ℕ)) × (copy_actors size n taint old new ≡ some r)
      × (actors_agree size n taint old r ≡ true)
unfolding copy_actors actors_agree
copy_actors_lem size zero taint old new p a q b r c = (new, refl, refl)
copy_actors_lem size (suc n) [] old new p a q b r c = absurd (omega arith)
copy_actors_lem size (suc n) (t ∷ taint) [] new p a q b r c = absurd (omega arith)
copy_actors_lem size (suc n) (t ∷ taint) (o ∷ old) [] p a q b r c = absurd (omega arith)
copy_actors_lem size (suc n) (t ∷ taint) (o ∷ old) (x ∷ new) p a q b r c =
    let (view, run, ok) = copy_tainted_lem size t o x a.0 b.0 c.0 in
    let (rest, runs, oks) =
      copy_actors_lem size n taint old new (omega arith) a.1 (omega arith) b.1 (omega arith) c.1 in
    (view ∷ rest, rw (run, runs), rw (ok, oks))

length-zero_from : (n : ℕ) (l : List ℕ) → length (zero_from n l) ≡ length l
unfolding zero_from
length-zero_from n [] = refl
length-zero_from zero (x ∷ l) = ap suc (length-zero_from zero l)
length-zero_from (suc n) (x ∷ l) = ap suc (length-zero_from n l)

abbrev pub InputsShaped : ℕ → List InputData → Type 0
InputsShaped n inputs = All (λ (x : InputData). IsShaped n x.actors) inputs

abbrev pub TaintsShaped : ℕ → List InputTaint → Type 0
TaintsShaped n taints = All (IsShaped n) taints

module _ (source : Source) (sized : IsSized source) where
  views_from-length : (seed i n : ℕ) → length (views_from source seed i n) ≡ n
  unfolding views_from
  views_from-length seed i zero = refl
  views_from-length seed i (suc n) = ap suc (views_from-length seed (suc i) n)

  views_from-All :
      (seed i n : ℕ) → All (λ v. n_data_entries_per_actor ≤ length v) (views_from source seed i n)
  unfolding views_from
  views_from-All seed i zero = tt
  views_from-All seed i (suc n) = (
    omega (
      arith,
      length-zero_from n_data_entries_per_actor (map double_word (source.words seed i)),
      sized.words_sized seed i,
    ),
    views_from-All seed (suc i) n,
  )

  module _ (n : ℕ) where
    enough :
        {A : Type 0} (rows : List (List A))
        → IsShaped n rows
        → All (λ v. n_data_entries_per_actor ≤ length v) rows
    enough rows s = All-map _ _ rows (λ v e. omega (arith, e)) s.row_sizes

    boost_round_lem :
        (g : Generator) (inputs : List InputData) (taints : List InputTaint)
        → length inputs ≡ length taints
        → InputsShaped n inputs
        → TaintsShaped n taints
        → (new : List InputData) × (b : ℕ) × (boost_round source g n inputs taints
            ≡ some (new, record g { boosting_state = b }))
          × (inputs_agree n inputs taints new ≡ true)
          × (length new ≡ length inputs)
    unfolding boost_round inputs_agree
    boost_round_lem g [] [] e p q = ([], g.boosting_state, refl, refl, refl)
    boost_round_lem g [] (t ∷ ts) e p q = absurd (omega arith)
    boost_round_lem g (x ∷ xs) [] e p q = absurd (omega arith)
    boost_round_lem g (x ∷ xs) (t ∷ ts) e p q =
        let seed = g.boosting_state in
        let fresh = views_from source seed 0 n in
        let (actors, copied, ok) =
          copy_actors_lem n_data_entries_per_actor n t x.actors fresh (q.0.n_rows) (enough t q.0)
            (p.0.n_rows) (enough x.actors p.0) (views_from-length seed 0 n)
            (views_from-All seed 0 n) in
        let (rest, b, run, oks, len) =
          boost_round_lem (record g { boosting_state = seed + 1 }) xs ts (omega arith) p.1 q.1 in
        (
          record { seed = seed; actors = actors } ∷ rest,
          b,
          rw (generate_one_lem source sized g seed n, copied, run),
          rw (ok, oks),
          ap suc len,
        )

    boost_rounds_lem :
        (g : Generator) (inputs : List InputData) (taints : List InputTaint) (k : ℕ)
        → length inputs ≡ length taints
        → InputsShaped n inputs
        → TaintsShaped n taints
        → (new : List InputData) × (b : ℕ) × (boost_rounds source g n inputs taints k
            ≡ some (new, record g { boosting_state = b }))
          × Blocks n inputs taints k new
    unfolding boost_rounds
    boost_rounds_lem g inputs taints zero e p q = ([], g.boosting_state, refl, no_block)
    boost_rounds_lem g inputs taints (suc k) e p q =
        let (new, b, run, ok, len) = boost_round_lem g inputs taints e p q in
        let (rest, b', runs, blocks) =
          boost_rounds_lem (record g { boosting_state = b }) inputs taints k e p q in
        (new ++ rest, b', rw (run, runs), block k new rest ok len blocks)

    -- If NumPy draws and allocates as much as it is asked for, and the inputs and the taints have
    -- the shape that the model gives them, boosting does not raise: the result is the inputs,
    -- followed by `inputs_per_class - 1` blocks of as many new inputs, each of which agrees with
    -- the input at its place on all tainted entries. The seed of the next inputs stays, and a
    -- second call has the same result.
    pub generate_boosted-agrees :
        (g : Generator) (input : InputData) (inputs : List InputData) (taints : List InputTaint)
        (inputs_per_class : ℕ)
        → length (input ∷ inputs) ≡ length taints
        → InputsShaped n (input ∷ inputs)
        → TaintsShaped n taints
        → (new : List InputData) × (g' : Generator) × (generate_boosted source g
              (input ∷ inputs)
              taints
              inputs_per_class
            ≡ some ((input ∷ inputs) ++ new, g'))
          × Blocks n (input ∷ inputs) taints (inputs_per_class - 1) new
          × (g'.state ≡ g.state)
          × (generate_boosted source g' (input ∷ inputs) taints inputs_per_class
              ≡ some ((input ∷ inputs) ++ new, g'))
    unfolding generate_boosted
    generate_boosted-agrees g input inputs taints inputs_per_class e p q =
        let (new, b, run, blocks) =
          boost_rounds_lem (record g { boosting_state = g.state }) (input ∷ inputs) taints
            (inputs_per_class - 1) e p q in
        (
          new,
          record g { boosting_state = b },
          rw (eq→== _ _ e, p.0.n_rows, run),
          blocks,
          refl,
          rw (eq→== _ _ e, p.0.n_rows, run),
        )
