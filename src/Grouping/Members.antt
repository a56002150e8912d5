-- ===== src/Grouping/Members.antt =====
-- What each group of a grouping holds.
use side_channel_fuzzer.Prelude.{
  ℕ, ◌≡◌, refl, sym, filter-append, ◌∙◌, ap, Bool, true, false, not, ◌&&◌, ◌||◌, Option, none, some,
  List, [], ◌∷◌, ◌++◌, arith, ◌==◌, if◌then◌else◌, any, filter, append_assoc, append-nil, ==→eq,
  Bool-cases, inl, inr,
}
use side_channel_fuzzer.Prelude.Dict.{has}
use side_channel_fuzzer.Grouping.{Group, reps, insert, group_from, keyed, Separate}

abbrev pub first : {A : Type 0} → List A → Option A
first [] = none
first (a ∷ xs) = some a

abbrev pub is_nonempty : {A : Type 0} → List A → Bool
is_nonempty [] = false
is_nonempty (a ∷ xs) = true

-- at least two entries
abbrev pub is_many : {A : Type 0} → List A → Bool
is_many [] = false
is_many (a ∷ []) = false
is_many (a ∷ b ∷ xs) = true

module _ {R A : Type 0} (rep : A → R) where
  -- Each group is there with the item that opened it in front.
  abbrev pub Headed : List (Group R A) → Type 0
  Headed [] = Unit
  Headed ((r, []) ∷ gs) = ⊥
  Headed ((r, a ∷ xs) ∷ gs) = (rep a ≡ r) × Headed gs

  module _ (same : R → R → Bool) where
    pub Headed-insert : (a : A) (gs : List (Group R A)) → Headed gs → Headed (insert rep same a gs)
    unfolding insert
    Headed-insert a [] h = (refl, tt)
    Headed-insert a ((r, []) ∷ gs) h = absurd h
    Headed-insert a ((r, b ∷ xs) ∷ gs) h = ground (arith, Headed-insert a gs)

    pub Headed-group_from :
        (gs : List (Group R A)) (xs : List A) → Headed gs → Headed (group_from rep same gs xs)
    unfolding group_from
    Headed-group_from gs [] h = h
    Headed-group_from gs (a ∷ xs) h =
        Headed-group_from (insert rep same a gs) xs (Headed-insert a gs h)

    first-insert :
        (a : A) (r : R) (gs : List (Group R A))
        → first (reps gs) ≡ some r
        → first (reps (insert rep same a gs)) ≡ some r
    unfolding insert
    first-insert a r [] h = cc
    first-insert a r (g ∷ gs) h = ground arith

    many-insert :
        (a : A) (r : R) (gs : List (Group R A))
        → first (reps gs) ≡ some r
        → is_many (insert rep same a gs) ≡ (is_many gs || not (same (rep a) r))
    unfolding insert
    many-insert a r [] h = cc
    many-insert a r (g ∷ []) h = ground arith
    many-insert a r (g ∷ g' ∷ gs) h = ground arith

    many-group_from :
        (r : R) (gs : List (Group R A)) (xs : List A)
        → first (reps gs) ≡ some r
        → is_many (group_from rep same gs xs) ≡ (is_many gs || any (λ a. not (same (rep a) r)) xs)
    unfolding group_from
    many-group_from r gs [] h = ground arith
    many-group_from r gs (a ∷ xs) h = ground (
      arith,
      many-insert a r gs h,
      many-group_from r (insert rep same a gs) xs (first-insert a r gs h),
    )

    -- A grouping splits exactly when some later item does not match the first one.
    pub many-group :
        (a : A) (xs : List A)
        → is_many (group_from rep same [] (a ∷ xs)) ≡ any (λ b. not (same (rep b) (rep a))) xs
    unfolding group_from insert
    many-group a xs = many-group_from (rep a) ((rep a, a ∷ []) ∷ []) xs refl

module _ {R A : Type 0} (hash : R → ℕ) (rep : A → R) where
  -- The grouping by equality of hashes.
  abbrev pub same_hash : R → R → Bool
  same_hash x y = hash x == hash y

  -- the items of the group with a given hash
  unfoldable pub members : ℕ → List (Group R A) → List A
  members h [] = []
  members h ((r, ms) ∷ gs) = if hash r == h then ms else members h gs

  abbrev has_hash : ℕ → A → Bool
  has_hash h a = hash (rep a) == h

  members-insert :
      (h : ℕ) (a : A) (gs : List (Group R A))
      → members h (insert rep same_hash a gs) ≡ members h gs ++ filter (has_hash h) (a ∷ [])
  unfolding members insert
  members-insert h a [] = ground arith
  members-insert h a ((r, ms) ∷ gs) = elim (Bool-cases (hash (rep a) == hash r)) [
    | inl e ↦ rw e (grind (arith, append_assoc, append-nil))
    | inr e ↦ rw e (ground (arith, members-insert h a gs, append-nil ms))
  ]

  pub members-group_from :
      (h : ℕ) (gs : List (Group R A)) (xs : List A)
      → members h (group_from rep same_hash gs xs) ≡ members h gs ++ filter (has_hash h) xs
  unfolding group_from
  members-group_from h gs [] = rw append-nil
  members-group_from h gs (a ∷ xs) =
      members-group_from h (insert rep same_hash a gs) xs
      ∙ ap (λ l. l ++ filter (has_hash h) xs) (members-insert h a gs)
      ∙ append_assoc (members h gs) (filter (has_hash h) (a ∷ [])) (filter (has_hash h) xs)
      ∙ ap (λ l. members h gs ++ l) (sym (filter-append (has_hash h) (a ∷ []) xs))

  other-members :
      (h : ℕ) (q : List A → Bool) (gs : List (Group R A))
      → has h (keyed hash gs) ≡ false
      → any (λ g. hash g.0 == h && q g.1) gs ≡ false
  unfolding has
  other-members h q [] s = refl
  other-members h q (g ∷ gs) s = ground (arith, other-members h q gs)

  -- a question about the group with hash `h`, asked of every group
  pub any-members :
      (h : ℕ) (q : List A → Bool) (gs : List (Group R A))
      → Separate hash gs
      → Headed rep gs
      → any (λ g. hash g.0 == h && q g.1) gs ≡ (is_nonempty (members h gs) && q (members h gs))
  unfolding members has
  any-members h q [] s hd = refl
  any-members h q ((r, []) ∷ gs) s hd = absurd hd
  any-members h q ((r, a ∷ ms) ∷ gs) s hd = elim (Bool-cases (hash r == h)) [
    | inl e ↦ rw (e, other-members h q gs (rw (==→eq _ _ e) at s.0)) (ground arith)
    | inr e ↦ rw e (any-members h q gs s.1 hd.1)
  ]
