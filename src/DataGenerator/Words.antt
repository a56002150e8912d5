-- ===== src/DataGenerator/Words.antt =====
-- `DataGenerator._generate_one`: what an input is made of.
use side_channel_fuzzer.Prelude.{
  ℕ, zero, suc, ◌+◌, ◌≡◌, refl, ap, Bool, true, false, some, List, [], ◌∷◌, ◌++◌, map, arith,
  append_assoc, if◌then◌else◌, length, get_elem?, set, ltb, length-append, ◌^◌, ◌-◌, eq→==,
}
use side_channel_fuzzer.InputData.{
  main_entries, faulty_entries, entries_per_actor, n_data_entries_per_actor, zero_from,
  set_actor_data,
}
use side_channel_fuzzer.DataGenerator.{
  Roll, zero_value, max_value, random_value, Source, Generator, double_word, set_special_values,
  generate_actors, generate_one,
}

get_elem?-append :
    {A : Type 0} (xs ys : List A) (y : A) → get_elem? (xs ++ y ∷ ys) (length xs) ≡ some y
get_elem?-append [] ys y = refl
get_elem?-append (x ∷ xs) ys y = get_elem?-append xs ys y

set-append :
    {A : Type 0} (xs ys : List A) (y z : A) → set (xs ++ y ∷ ys) (length xs) z ≡ xs ++ z ∷ ys
set-append [] ys y z = refl
set-append (x ∷ xs) ys y z = ap (λ l. x ∷ l) (set-append xs ys y z)

-- where a register stands in the view of an actor
abbrev gpr_index : ℕ → ℕ
gpr_index reg_id = main_entries + faulty_entries + reg_id

-- The special values reach the actor at hand only.
set_special_values_lem :
    (done rest : List (List ℕ)) (view : List ℕ) (seed reg_id : ℕ) (rolls : List Roll)
    → (view' : List ℕ) × (set_special_values
          (length done)
          reg_id
          rolls
          (record { seed = seed; actors = done ++ view ∷ rest })
        ≡ some (record { seed = seed; actors = done ++ view' ∷ rest }))
unfolding set_special_values
set_special_values_lem done rest view seed reg_id [] = (view, refl)
set_special_values_lem done rest view seed reg_id (zero_value ∷ rolls) =
    let (view', h) =
      set_special_values_lem done rest (set view (gpr_index reg_id) 0) seed (suc reg_id) rolls in
    (view', rw (get_elem?-append done rest view, set-append done rest view) h)
set_special_values_lem done rest view seed reg_id (max_value ∷ rolls) =
    let (view', h) =
      set_special_values_lem done rest (set view (gpr_index reg_id) (2 ^ 64 - 1)) seed (suc reg_id)
        rolls in
    (view', rw (get_elem?-append done rest view, set-append done rest view) h)
set_special_values_lem done rest view seed reg_id (random_value ∷ rolls) =
    set_special_values_lem done rest view seed (suc reg_id) rolls

set_actor_data_lem :
    (done rest : List (List ℕ)) (view entries : List ℕ) (seed : ℕ)
    → length entries ≡ entries_per_actor
    → set_actor_data (length done) entries (record { seed = seed; actors = done ++ view ∷ rest })
      ≡ some (record {
        seed = seed;
        actors = done ++ zero_from n_data_entries_per_actor entries ∷ rest;
      })
unfolding set_actor_data
set_actor_data_lem done rest view entries seed h =
    rw (eq→== _ _ h, inside, set-append done rest view (zero_from n_data_entries_per_actor entries))
  where
    inside : ltb (length done) (length (done ++ view ∷ rest)) ≡ true
    inside = ground (arith, length-append done (view ∷ rest))

module _ (source : Source) where
  -- NumPy draws as many words as it is asked for, and allocates as many actors.
  pub record IsSized : Type 0 where
    pub words_sized :
        (seed i : ℕ) → length (map double_word (source.words seed i)) ≡ entries_per_actor
    pub memory_sized : (n : ℕ) → length (source.memory n) ≡ n

  -- the view of an actor: its words doubled, the padding zeroed
  abbrev pub view_of : ℕ → ℕ → List ℕ
  view_of seed i = zero_from n_data_entries_per_actor (map double_word (source.words seed i))

  unfoldable pub views_from : ℕ → ℕ → ℕ → List (List ℕ)
  views_from seed i zero = []
  views_from seed i (suc n) = view_of seed i ∷ views_from seed (suc i) n

  module _ (sized : IsSized) (g : Generator) where
    special_values_lem :
        (done rest : List (List ℕ)) (view : List ℕ) (seed : ℕ)
        → (view' : List ℕ) × ((if g.skip_special_values
              then some (record { seed = seed; actors = done ++ view ∷ rest })
              else set_special_values
                  (length done)
                  0
                  (source.rolls seed (length done))
                  (record { seed = seed; actors = done ++ view ∷ rest }))
            ≡ some (record { seed = seed; actors = done ++ view' ∷ rest }))
    special_values_lem done rest view seed = by_flag g.skip_special_values
      where
        by_flag :
            (b : Bool)
            → (view' : List ℕ) × ((if b
                  then some (record { seed = seed; actors = done ++ view ∷ rest })
                  else set_special_values
                      (length done)
                      0
                      (source.rolls seed (length done))
                      (record { seed = seed; actors = done ++ view ∷ rest }))
                ≡ some (record { seed = seed; actors = done ++ view' ∷ rest }))
        by_flag true = (view, refl)
        by_flag false =
            set_special_values_lem done rest view seed 0 (source.rolls seed (length done))

    generate_actors_lem :
        (done todo : List (List ℕ)) (seed i n : ℕ)
        → length done ≡ i
        → length todo ≡ n
        → generate_actors source g seed i n (record { seed = seed; actors = done ++ todo })
          ≡ some (record { seed = seed; actors = done ++ views_from seed i n })
    unfolding generate_actors views_from
    generate_actors_lem done [] seed i zero e h = refl
    generate_actors_lem done [] seed i (suc n) e h = absurd (omega arith)
    generate_actors_lem done (v ∷ rest) seed i zero e h = absurd (omega arith)
    generate_actors_lem done (v ∷ rest) seed i (suc n) e h =
        let (view', special) = special_values_lem done rest v seed in
        let next = view_of seed i in
        let later =
          generate_actors_lem (done ++ next ∷ []) rest seed (suc i) n
            (omega (arith, length-append done (next ∷ []))) (omega arith) in
        rw
          (
            rw e at special,
            rw e at (
                set_actor_data_lem done rest view'
                  (map double_word (source.words seed (length done))) seed
                  (sized.words_sized seed (length done))),
          )
          (rw
            (
              append_assoc done (next ∷ []) rest,
              append_assoc done (next ∷ []) (views_from seed (suc i) n),
            )
            at later)

    -- If NumPy draws and allocates as much as it is asked for, an input consists of the doubled
    -- words alone, whatever the rolls are: the special values of the registers are overwritten, and
    -- no configuration of them reaches an input. Generating one does not raise.
    pub generate_one_lem :
        (state n_actors : ℕ)
        → generate_one source g state n_actors
          ≡ some (record { seed = state; actors = views_from state 0 n_actors }, state + 1)
    unfolding generate_one
    generate_one_lem state n_actors = rw (
        generate_actors_lem [] (source.memory n_actors) state 0 n_actors refl
          (sized.memory_sized n_actors))
