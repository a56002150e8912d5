-- ===== src/Traces/Classes/CtSplit.antt =====
-- The loop of `build_contract_classes` against the grouping by the digest of the contract trace.
use side_channel_fuzzer.Prelude.{
  ℕ, true, All, ==_refl, ◌∙◌, ◌≡◌, refl, sym, subst, Bool, none, some, List, [], ◌∷◌, ◌++◌, map,
  arith, inl, inr, Bool-cases, ==→eq, eq→==, ◌==◌,
}
use side_channel_fuzzer.Prelude.Dict.{hash_key, get, has, put, values}
use side_channel_fuzzer.Grouping.{Group, keyed, insert, group_from, append_to, AllValid-insert}
use side_channel_fuzzer.Grouping.Members.{Headed, Headed-group_from}
use side_channel_fuzzer.Traces.Contract.{CTrace, ctrace_eq}
use side_channel_fuzzer.Traces.Classes.{
  TraceBundle, ContractEqClass, traverse, same_ctrace, contract_init, contract_step, contract_loop,
  build_contract_classes,
}

abbrev pub ctrace_of : {I : Type 0} → TraceBundle I → CTrace
ctrace_of m = m.ctrace

abbrev pub ctrace_hash : CTrace → ℕ
ctrace_hash t = t.hash

-- the key of a trace in the dictionary
abbrev pub ctrace_key : CTrace → ℕ
ctrace_key t = hash_key t.hash

abbrev pub CtGroup : Type 0 → Type 0
CtGroup I = Group CTrace (TraceBundle I)

abbrev pub same_ctrace_hash : CTrace → CTrace → Bool
same_ctrace_hash x y = x.hash == y.hash

-- The measurements by the digest of their contract traces, in order of first appearance.
abbrev pub ct_grouping : {I : Type 0} → List (TraceBundle I) → List (CtGroup I)
ct_grouping ms = group_from ctrace_of same_ctrace_hash [] ms

abbrev pub ct_class_of : {I : Type 0} → CtGroup I → ContractEqClass I
ct_class_of g = record { ctrace = g.0; measurements = g.1; hw_classes = none }

module _ {I : Type 0} where
  -- every measurement of a group has the digest of the group
  abbrev pub AllHash : ℕ → List (TraceBundle I) → Type 0
  AllHash h [] = Unit
  AllHash h (m ∷ ms) = (m.ctrace.hash ≡ h) × AllHash h ms

  abbrev pub Uniform : List (CtGroup I) → Type 0
  Uniform [] = Unit
  Uniform (g ∷ gs) = AllHash g.0.hash g.1 × Uniform gs

  AllHash-snoc :
      (h : ℕ) (ms : List (TraceBundle I)) (m : TraceBundle I)
      → AllHash h ms
      → m.ctrace.hash ≡ h
      → AllHash h (ms ++ m ∷ [])
  AllHash-snoc h [] m a e = (e, tt)
  AllHash-snoc h (m' ∷ ms) m a e = (a.0, AllHash-snoc h ms m a.1 e)

  Uniform-insert :
      (m : TraceBundle I) (gs : List (CtGroup I))
      → Uniform gs
      → Uniform (insert ctrace_of same_ctrace_hash m gs)
  unfolding insert
  Uniform-insert m [] u = ((refl, tt), tt)
  Uniform-insert m ((r, ms) ∷ gs) u = elim (Bool-cases (m.ctrace.hash == r.hash)) [
    | inl e ↦ rw e (AllHash-snoc r.hash ms m u.0 (==→eq _ _ e), u.1)
    | inr e ↦ rw e (u.0, Uniform-insert m gs u.1)
  ]

  pub Uniform-group_from :
      (gs : List (CtGroup I)) (ms : List (TraceBundle I))
      → Uniform gs
      → Uniform (group_from ctrace_of same_ctrace_hash gs ms)
  unfolding group_from
  Uniform-group_from gs [] u = u
  Uniform-group_from gs (m ∷ ms) u =
      Uniform-group_from (insert ctrace_of same_ctrace_hash m gs) ms (Uniform-insert m gs u)

  pub same_ctrace_lem :
      (t : CTrace) (ms : List (TraceBundle I)) → AllHash t.hash ms → same_ctrace t ms ≡ some tt
  unfolding same_ctrace ctrace_eq
  same_ctrace_lem t [] a = refl
  same_ctrace_lem t (m ∷ ms) a = rw (eq→== _ _ a.0) (same_ctrace_lem t ms a.1)

  pub contract_init_lem :
      (m : TraceBundle I) (ms : List (TraceBundle I))
      → AllHash m.ctrace.hash (m ∷ ms)
      → contract_init (m ∷ ms)
        ≡ some (record { ctrace = m.ctrace; measurements = m ∷ ms; hw_classes = none })
  unfolding contract_init
  contract_init_lem m ms a = rw (same_ctrace_lem m.ctrace (m ∷ ms) a)

  -- The traces that a group is opened with are the representative itself.
  contract_init-ct_class_of :
      (gs : List (CtGroup I))
      → Headed ctrace_of gs
      → Uniform gs
      → traverse contract_init (values (keyed ctrace_key gs)) ≡ some (map ct_class_of gs)
  unfolding traverse
  contract_init-ct_class_of [] h u = refl
  contract_init-ct_class_of ((r, []) ∷ gs) h u = absurd h
  contract_init-ct_class_of ((r, m ∷ ms) ∷ gs) h u =
      let a : AllHash m.ctrace.hash (m ∷ ms) =
        subst (λ (x : CTrace). AllHash x.hash (m ∷ ms)) (sym h.0) u.0 in
      rw (← h.0, contract_init_lem m ms a, contract_init-ct_class_of gs h.1 u.1)

-- `Sound` are contract traces of which no two with one key have different digests.
module _ (Sound : CTrace → Type 0)
    (injective : (x y : CTrace)
      → Sound x
      → Sound y
      → ctrace_key x ≡ ctrace_key y
      → x.hash ≡ y.hash) where
  key_test :
      (x y : CTrace) → Sound x → Sound y → (ctrace_key y == ctrace_key x) ≡ same_ctrace_hash x y
  key_test x y v w = elim (Bool-cases (same_ctrace_hash x y)) [
    | inl same ↦ rw (same, ==→eq _ _ same, ==_refl)
    | inr other ↦ elim (Bool-cases (ctrace_key y == ctrace_key x)) [
      | inl one_key ↦ absurd (ground (arith, injective x y v w (sym (==→eq _ _ one_key))))
      | inr two_keys ↦ two_keys ∙ sym other
    ]
  ]

  key_congruent :
      (x y : CTrace) → Sound x → Sound y → ctrace_key x ≡ ctrace_key y → same_ctrace_hash x y ≡ true
  key_congruent x y v w e = eq→== _ _ (injective x y v w e)

  module _ {I : Type 0} where
    contract_step-insert :
        (m : TraceBundle I) (gs : List (CtGroup I))
        → Sound m.ctrace
        → All (λ g. Sound g.0) gs
        → contract_step (keyed ctrace_key gs) m
          ≡ some (keyed ctrace_key (insert ctrace_of same_ctrace_hash m gs))
    unfolding contract_step insert has put append_to get
    contract_step-insert m [] v w = refl
    contract_step-insert m ((r, ms) ∷ gs) v w =
        ground (arith, key_test m.ctrace r v w.0, contract_step-insert m gs v w.1)

    contract_loop-group_from :
        (gs : List (CtGroup I)) (ms : List (TraceBundle I))
        → All (λ m. Sound m.ctrace) ms
        → All (λ g. Sound g.0) gs
        → contract_loop (keyed ctrace_key gs) ms
          ≡ some (keyed ctrace_key (group_from ctrace_of same_ctrace_hash gs ms))
    unfolding contract_loop group_from
    contract_loop-group_from gs [] v w = refl
    contract_loop-group_from gs (m ∷ ms) v w = rw (contract_step-insert m gs v.0 w) (
        contract_loop-group_from (insert ctrace_of same_ctrace_hash m gs) ms v.1
          (AllValid-insert ctrace_key ctrace_of same_ctrace_hash Sound key_congruent m gs v.0 w))

    -- On contract traces of which no two with one key in the dictionary have different digests, the
    -- loop is the grouping by digest, and no assertion of the constructor fails.
    pub build_contract_classes_lem :
        (ms : List (TraceBundle I))
        → All (λ m. Sound m.ctrace) ms
        → build_contract_classes ms ≡ some (map ct_class_of (ct_grouping ms))
    unfolding build_contract_classes
    build_contract_classes_lem ms v = rw (contract_loop-group_from [] ms v tt) (
        contract_init-ct_class_of (ct_grouping ms)
          (Headed-group_from ctrace_of same_ctrace_hash [] ms tt) (Uniform-group_from [] ms tt))
