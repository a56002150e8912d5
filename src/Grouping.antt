-- ===== src/Grouping.antt =====
-- Grouping of a sequence by a representative: the abstract view of the two grouping loops of
-- rvzr/traces.py, and its connection with dictionaries that are keyed by a hash.
pub mod Members
use side_channel_fuzzer.Prelude.{
  ℕ, ◌≡◌, refl, sym, ap, Bool, true, false, ◌||◌, Option, none, some, List, [], ◌∷◌, ◌++◌, map,
  arith, ◌==◌, if◌then◌else◌, any, ◌>>=◌, All, All-append, ==_refl, Bool-cases, ◌⊎◌, inl, inr,
  filter, append_assoc,
}
use side_channel_fuzzer.Prelude.Dict.{Dict, get, has, put, put-append}

-- A representative, and the items that it stands for in the order of arrival.
abbrev pub Group : Type 0 → Type 0 → Type 0
Group R A = R × List A

module _ {R A : Type 0} (rep : A → R) (same : R → R → Bool) where
  -- The item joins the first group whose representative it matches, or opens a new one.
  unfoldable pub insert : A → List (Group R A) → List (Group R A)
  insert a [] = (rep a, a ∷ []) ∷ []
  insert a ((r, xs) ∷ gs) =
      let rest = insert a gs in if same (rep a) r then (r, xs ++ a ∷ []) ∷ gs else (r, xs) ∷ rest

  unfoldable pub group_from : List (Group R A) → List A → List (Group R A)
  group_from gs [] = gs
  group_from gs (a ∷ xs) = group_from (insert a gs) xs

-- the first representative that matches
unfoldable pub find : {R : Type 0} → (R → R → Bool) → R → List R → Option R
find same r [] = none
find same r (d ∷ ds) = if same r d then some d else find same r ds

-- d[k].append(a); a missing key is a `KeyError`
unfoldable pub append_to {ℓ} : {A : Type ℓ} → ℕ → A → Dict (List A) → Option (Dict (List A))
append_to k a g = do xs ← get k g; some (put k (xs ++ a ∷ []) g)

abbrev pub reps : {R A : Type 0} → List (Group R A) → List R
reps gs = map (λ g. g.0) gs

abbrev pub groups : {R A : Type 0} → List (Group R A) → List (List A)
groups gs = map (λ g. g.1) gs

module _ {R A : Type 0} (hash : R → ℕ) where
  -- the dictionary that the loops keep
  abbrev pub keyed : List (Group R A) → Dict (List A)
  keyed gs = map (λ g. (hash g.0, g.1)) gs

  -- No two representatives share a hash.
  abbrev pub Separate : List (Group R A) → Type 0
  Separate [] = Unit
  Separate (g ∷ gs) = (has (hash g.0) (keyed gs) ≡ false) × Separate gs

module _ {R A : Type 0} (hash : R → ℕ) (rep : A → R) (same : R → R → Bool) where
  pub keyed-insert_new :
      (a : A) (gs : List (Group R A))
      → find same (rep a) (reps gs) ≡ none
      → keyed hash (insert rep same a gs) ≡ keyed hash gs ++ (hash (rep a), a ∷ []) ∷ []
  unfolding find insert
  keyed-insert_new a [] h = refl
  keyed-insert_new a ((r, xs) ∷ gs) h = ground (arith, keyed-insert_new a gs)

  pub has_of_find :
      (t d : R) (gs : List (Group R A))
      → find same t (reps gs) ≡ some d
      → has (hash d) (keyed hash gs) ≡ true
  unfolding find has
  has_of_find t d [] h = cc
  has_of_find t d ((r, xs) ∷ gs) h = ground (arith, has_of_find t d gs)

  pub append_to-insert :
      (a : A) (d : R) (gs : List (Group R A))
      → Separate hash gs
      → find same (rep a) (reps gs) ≡ some d
      → append_to (hash d) a (keyed hash gs) ≡ some (keyed hash (insert rep same a gs))
  unfolding find insert append_to get put
  append_to-insert a d [] s h = cc
  append_to-insert a d ((r, xs) ∷ gs) s h =
      ground (arith, append_to-insert a d gs s.1, has_of_find (rep a) d gs)

  has-insert_new :
      (a : A) (k : ℕ) (gs : List (Group R A))
      → has k (keyed hash (insert rep same a gs)) ≡ true
      → (has k (keyed hash gs) ≡ true) ⊎ ((hash (rep a) ≡ k) × (find same (rep a) (reps gs) ≡ none))
  unfolding find insert has
  has-insert_new a k [] h = ground arith
  has-insert_new a k ((r, xs) ∷ gs) h = ground (arith, has-insert_new a k gs)

  -- If one hash makes two representatives match, the loop never opens a group twice. `Valid` says
  -- for which representatives that is known.
  module _ (Valid : R → Type 0)
      (congruent : (x y : R) → Valid x → Valid y → hash x ≡ hash y → same x y ≡ true) where
    abbrev pub AllValid : List (Group R A) → Type 0
    AllValid gs = All (λ g. Valid g.0) gs

    pub AllValid-insert :
        (a : A) (gs : List (Group R A))
        → Valid (rep a)
        → AllValid gs
        → AllValid (insert rep same a gs)
    unfolding insert
    AllValid-insert a [] v h = (v, tt)
    AllValid-insert a ((r, xs) ∷ gs) v h = elim (Bool-cases (same (rep a) r)) [
      | inl e ↦ rw e h
      | inr e ↦ rw e (h.0, AllValid-insert a gs v h.1)
    ]

    find_of_has :
        (t : R) (gs : List (Group R A))
        → Valid t
        → AllValid gs
        → has (hash t) (keyed hash gs) ≡ true
        → find same t (reps gs) ≡ none
        → ⊥
    unfolding find has
    find_of_has t [] v w h n = cc
    find_of_has t ((r, xs) ∷ gs) v w h n =
        ground (arith, congruent t r v w.0, find_of_has t gs v w.1)

    pub has_of_find-none :
        (t : R) (gs : List (Group R A))
        → Valid t
        → AllValid gs
        → find same t (reps gs) ≡ none
        → has (hash t) (keyed hash gs) ≡ false
    has_of_find-none t gs v w n = elim (Bool-cases (has (hash t) (keyed hash gs))) [
      | inl h ↦ absurd (find_of_has t gs v w h n)
      | inr h ↦ h
    ]

    fresh :
        (a : A) (r : R) (gs : List (Group R A))
        → Valid (rep a)
        → Valid r
        → has (hash r) (keyed hash gs) ≡ false
        → same (rep a) r ≡ false
        → has (hash r) (keyed hash (insert rep same a gs)) ≡ false
    fresh a r gs v w s e = elim (Bool-cases (has (hash r) (keyed hash (insert rep same a gs)))) [
      | inl h ↦ ground (arith, has-insert_new a (hash r) gs h, congruent (rep a) r v w)
      | inr h ↦ h
    ]

    pub Separate-insert :
        (a : A) (gs : List (Group R A))
        → Valid (rep a)
        → AllValid gs
        → Separate hash gs
        → Separate hash (insert rep same a gs)
    unfolding insert has find
    Separate-insert a [] v w s = (refl, tt)
    Separate-insert a ((r, xs) ∷ gs) v w s = elim (Bool-cases (same (rep a) r)) [
      | inl e ↦ rw e s
      | inr e ↦ rw e (fresh a r gs v w.0 s.0 e, Separate-insert a gs v w.1 s.1)
    ]

    pub Separate-group_from :
        (gs : List (Group R A)) (xs : List A)
        → All (λ a. Valid (rep a)) xs
        → AllValid gs
        → Separate hash gs
        → Separate hash (group_from rep same gs xs)
    unfolding group_from
    Separate-group_from gs [] v w s = s
    Separate-group_from gs (a ∷ xs) v w s =
        Separate-group_from (insert rep same a gs) xs v.1 (AllValid-insert a gs v.0 w)
          (Separate-insert a gs v.0 w s)

module _ {R A : Type 0} (rep : A → R) (same : R → R → Bool) (P : A → Type 0) where
  -- A property of all items is one of the items of each group.
  abbrev pub AllItems : List (Group R A) → Type 0
  AllItems gs = All (λ g. All P g.1) gs

  AllItems-insert :
      (a : A) (gs : List (Group R A)) → P a → AllItems gs → AllItems (insert rep same a gs)
  unfolding insert
  AllItems-insert a [] p h = ((p, tt), tt)
  AllItems-insert a ((r, xs) ∷ gs) p h = elim (Bool-cases (same (rep a) r)) [
    | inl e ↦ rw e (All-append P xs (a ∷ []) h.0 (p, tt), h.1)
    | inr e ↦ rw e (h.0, AllItems-insert a gs p h.1)
  ]

  pub AllItems-group_from :
      (gs : List (Group R A)) (xs : List A)
      → All P xs
      → AllItems gs
      → AllItems (group_from rep same gs xs)
  unfolding group_from
  AllItems-group_from gs [] p h = h
  AllItems-group_from gs (a ∷ xs) p h =
      AllItems-group_from (insert rep same a gs) xs p.1 (AllItems-insert a gs p.0 h)
