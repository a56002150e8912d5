-- ===== src/Traces/Classes/Collision.antt =====
-- `ContractEqClass.build_contract_classes` of rvzr/traces.py where two digests share a key.
use side_channel_fuzzer.Prelude.{
  ℕ, ◌≡◌, ◌≢◌, sym, ap, ◌∙◌, Bool, true, false, ◌||◌, none, some, List, [], ◌∷◌, ◌++◌, ◌==◌, ◌>>=◌,
  >>=-eq-some, any, any-append, arith, inl, inr, Bool-cases, Option-cases, ==→eq,
}
use side_channel_fuzzer.Prelude.Dict.{
  Dict, hash_key, get, has, put, values, get-put, get_of_has-false,
}
use side_channel_fuzzer.Grouping.{append_to}
use side_channel_fuzzer.Traces.Contract.{ctrace_eq}
use side_channel_fuzzer.Traces.Classes.{
  TraceBundle, ContractEqClass, traverse, same_ctrace, contract_init, contract_step, contract_loop,
  build_contract_classes,
}

module _ {I : Type 0} where
  -- some measurement has a contract trace of the digest
  abbrev pub has_contract : ℕ → List (TraceBundle I) → Bool
  has_contract h ms = any (λ m. m.ctrace.hash == h) ms

  -- the group of its key has such a measurement
  abbrev in_group : ℕ → Dict (List (TraceBundle I)) → Bool
  in_group h g = elim (get (hash_key h) g) [ some ms ↦ has_contract h ms | none ↦ false ]

  contract_step-in_group :
      (h : ℕ) (m : TraceBundle I) (g g' : Dict (List (TraceBundle I)))
      → contract_step g m ≡ some g'
      → in_group h g' ≡ (m.ctrace.hash == h || in_group h g)
  unfolding contract_step append_to
  contract_step-in_group h m g g' e = elim (Bool-cases (has (hash_key m.ctrace.hash) g)) [
    | inr new ↦ ground (
      arith,
      new,
      get-put (hash_key m.ctrace.hash) (hash_key h) (m ∷ []) g,
      get_of_has-false (hash_key m.ctrace.hash) g new,
    )
    | inl old ↦
        let appended : append_to (hash_key m.ctrace.hash) m g ≡ some g' = ground (arith, old, e) in
        let (xs, got, written) =
          >>=-eq-some (get (hash_key m.ctrace.hash) g)
            (λ xs. some (put (hash_key m.ctrace.hash) (xs ++ m ∷ []) g)) appended in
        let stored = get-put (hash_key m.ctrace.hash) (hash_key h) (xs ++ m ∷ []) g in
        let joined = any-append (λ (x : TraceBundle I). x.ctrace.hash == h) xs (m ∷ []) in
        elim (Bool-cases (hash_key m.ctrace.hash == hash_key h)) [
          | inl one_key ↦
              let same_key = ==→eq _ _ one_key in
              let got_h : get (hash_key h) g ≡ some xs = ap (λ k. get k g) (sym same_key) ∙ got in
              ground (arith, one_key, stored, joined, got_h, written)
          | inr two_keys ↦
              let other : (m.ctrace.hash == h) ≡ false = elim (Bool-cases (m.ctrace.hash == h)) [
                | inr differs ↦ differs
                | inl same ↦ absurd (ground (arith, two_keys, ap hash_key (==→eq _ _ same)))
              ] in
              ground (arith, two_keys, stored, other, written)
        ]
  ]

  contract_loop-in_group :
      (h : ℕ) (ms : List (TraceBundle I)) (g g' : Dict (List (TraceBundle I)))
      → contract_loop g ms ≡ some g'
      → in_group h g' ≡ (has_contract h ms || in_group h g)
  unfolding contract_loop
  contract_loop-in_group h [] g g' e = ground arith
  contract_loop-in_group h (m ∷ ms) g g' e =
      let (g1, first, rest) = >>=-eq-some (contract_step g m) (λ g1. contract_loop g1 ms) e in
      let step = contract_step-in_group h m g g1 first in
      let later = contract_loop-in_group h ms g1 g' rest in ground arith

  -- each group is handed to the constructor
  constructed :
      (k : ℕ) (ms : List (TraceBundle I)) (g : Dict (List (TraceBundle I)))
      (cs : List (ContractEqClass I))
      → traverse contract_init (values g) ≡ some cs
      → get k g ≡ some ms
      → (c : ContractEqClass I) × (contract_init ms ≡ some c)
  unfolding traverse get
  constructed k ms [] cs e h = absurd cc
  constructed k ms ((j, xs) ∷ g) cs e h =
      let (c, first, e1) =
        >>=-eq-some (contract_init xs)
          (λ y. traverse contract_init (values g) >>= λ ys. some (y ∷ ys)) e in
      let (cs1, rest, e2) =
        >>=-eq-some (traverse contract_init (values g)) (λ ys. some (c ∷ ys)) e1 in
      elim (Bool-cases (j == k)) [
        | inl here ↦ (c, ground (arith, here))
        | inr other ↦ constructed k ms g cs1 rest (ground (arith, other))
      ]

  -- the assertion of the constructor
  one_digest :
      (h : ℕ) (ms : List (TraceBundle I)) (t : TraceBundle I)
      → same_ctrace t.ctrace ms ≡ some tt
      → has_contract h ms ≡ true
      → h ≡ t.ctrace.hash
  unfolding same_ctrace ctrace_eq
  one_digest h [] t e found = absurd (ground arith)
  one_digest h (m ∷ ms) t e found = elim (Bool-cases (m.ctrace.hash == t.ctrace.hash)) [
    | inr other ↦ absurd (ground (arith, other))
    | inl same ↦ elim (Bool-cases (m.ctrace.hash == h)) [
      | inl here ↦ sym (==→eq _ _ here) ∙ ==→eq _ _ same
      | inr elsewhere ↦ one_digest h ms t (ground (arith, same)) (ground (arith, elsewhere))
    ]
  ]

  contract_init-one_digest :
      (h : ℕ) (ms : List (TraceBundle I)) (c : ContractEqClass I)
      → contract_init ms ≡ some c
      → has_contract h ms ≡ true
      → h ≡ c.ctrace.hash
  unfolding contract_init
  contract_init-one_digest h [] c e found = absurd (ground arith)
  contract_init-one_digest h (m ∷ ms) c e found =
      let (u, same, made) =
        >>=-eq-some (same_ctrace m.ctrace (m ∷ ms))
          (λ u. some (record { ctrace = m.ctrace; measurements = m ∷ ms; hw_classes = none })) e in
      one_digest h (m ∷ ms) m same found ∙ cc

  -- a digest that occurs is the one of its group
  digest_of_group :
      (ms : List (TraceBundle I)) (h : ℕ) (g : Dict (List (TraceBundle I)))
      → contract_loop [] ms ≡ some g
      → has_contract h ms ≡ true
      → (group : List (TraceBundle I)) × (get (hash_key h) g ≡ some group)
        × (has_contract h group ≡ true)
  unfolding get
  digest_of_group ms h g looped found =
      let stored = contract_loop-in_group h ms [] g looped in
      elim (Option-cases (get (hash_key h) g)) [
        | inl missing ↦ absurd (ground (arith, missing))
        | inr (group, got) ↦ (group, got, ground (arith, got))
      ]

  -- If two different digests with one key occur among the contract traces, the measurements are not
  -- grouped: an assertion of the constructor fails.
  pub contract_collision :
      (ms : List (TraceBundle I)) (h h' : ℕ)
      → has_contract h ms ≡ true
      → has_contract h' ms ≡ true
      → hash_key h ≡ hash_key h'
      → h ≢ h'
      → build_contract_classes ms ≡ none
  unfolding build_contract_classes
  contract_collision ms h h' found found' one_key differ =
      elim (Option-cases (build_contract_classes ms)) [
        | inl raised ↦ raised
        | inr (cs, e) ↦
            let (g, looped, made) =
              >>=-eq-some (contract_loop [] ms) (λ g. traverse contract_init (values g)) e in
            let (group, got, member) = digest_of_group ms h g looped found in
            let (group', got', member') = digest_of_group ms h' g looped found' in
            let (c, init) = constructed (hash_key h) group g cs made got in
            let one_group : group ≡ group' = cc in
            let member_here : has_contract h' group ≡ true = cc in
            absurd (
              differ (
                contract_init-one_digest h group c init member
                ∙ sym (contract_init-one_digest h' group c init member_here)))
      ]
