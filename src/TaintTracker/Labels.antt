-- ===== src/TaintTracker/Labels.antt =====
-- Sets and dictionaries of rvzr/model_unicorn/taint_tracker.py. A set is a list without repetition,
-- whose order nothing depends on. A label is a name, or a memory address (the text `hex(i)`).
use side_channel_fuzzer.Prelude.{
  ℕ, ◌≡◌, refl, sym, ap, ◌∙◌, subst, Bool, true, false, ◌&&◌, ◌||◌, Option, none, some, List, [],
  ◌∷◌, ◌++◌, arith, ◌==◌, if◌then◌else◌, Bool-cases, inl, inr, filter, ==_refl, ==→eq,
}
use side_channel_fuzzer.Prelude.Texts.{Text, text_eq, text_eq→eq, text_eq_refl}

-- A type whose equality is decided by `same`.
pub record Key (K : Type 0) : Type 0 where
  pub same : K → K → Bool
  pub same→eq : (a b : K) → same a b ≡ true → a ≡ b
  pub same_refl : (a : K) → same a a ≡ true

pub data Label : Type 0 where
  mem : ℕ → Label
  name : Text → Label

-- equality of labels: a name does not start with "0x", so it is no address
abbrev pub label_eq : Label → Label → Bool
label_eq (mem a) (mem b) = a == b
label_eq (mem a) (name t) = false
label_eq (name s) (mem b) = false
label_eq (name s) (name t) = text_eq s t

pub label_eq→eq : (a b : Label) → label_eq a b ≡ true → a ≡ b
label_eq→eq (mem a) (mem b) h = ap mem (==→eq a b h)
label_eq→eq (mem a) (name t) h = cc
label_eq→eq (name s) (mem b) h = cc
label_eq→eq (name s) (name t) h = ap name (text_eq→eq s t h)

pub label_eq_refl : (a : Label) → label_eq a a ≡ true
label_eq_refl (mem a) = ==_refl a
label_eq_refl (name s) = text_eq_refl s

instance abbrev pub number_key : Key ℕ
number_key = record { same = λ a b. a == b; same→eq = ==→eq; same_refl = ==_refl }

instance abbrev pub text_key : Key Text
text_key = record { same = text_eq; same→eq = text_eq→eq; same_refl = text_eq_refl }

instance abbrev pub label_key : Key Label
label_key = record { same = label_eq; same→eq = label_eq→eq; same_refl = label_eq_refl }

module _ {K : Type 0} ⦃e : Key K⦄ where
  -- x in s
  unfoldable pub is_in : K → List K → Bool
  is_in x [] = false
  is_in x (y ∷ s) = e.same y x || is_in x s

  -- s.add(x)
  unfoldable pub add : K → List K → List K
  unfolding is_in
  add x s = if is_in x s then s else s ++ x ∷ []

  -- s.update(t)
  unfoldable pub update : List K → List K → List K
  unfolding add
  update s [] = s
  update s (x ∷ t) = update (add x s) t

  pub same_trans : (a b c : K) → e.same a b ≡ true → e.same a c ≡ e.same b c
  same_trans a b c h = ap (λ x. e.same x c) (e.same→eq a b h)

  is_in-append : (x : K) (s t : List K) → is_in x (s ++ t) ≡ (is_in x s || is_in x t)
  unfolding is_in
  is_in-append x [] t = refl
  is_in-append x (y ∷ s) t = ground (arith, is_in-append x s t)

  is_in_of_same : (x y : K) (s : List K) → e.same x y ≡ true → is_in x s ≡ is_in y s
  is_in_of_same x y s h = ap (λ z. is_in z s) (e.same→eq x y h)

  pub is_in-add : (x y : K) (s : List K) → is_in y (add x s) ≡ (e.same x y || is_in y s)
  unfolding add
  is_in-add x y s = elim (Bool-cases (is_in x s)) [
    | inl old ↦ ground (arith, is_in_of_same x y s)
    | inr new ↦ rw (new, is_in-append y s (x ∷ [])) (unfold is_in in ground arith)
  ]

  pub is_in-update : (y : K) (s t : List K) → is_in y (update s t) ≡ (is_in y s || is_in y t)
  unfolding update is_in
  is_in-update y s [] = ground arith
  is_in-update y s (x ∷ t) = ground (arith, is_in-update y (add x s) t, is_in-add x y s)

  pub is_in-filter : (y : K) (p : K → Bool) (s : List K) → is_in y (filter p s) ≡ (is_in y s && p y)
  unfolding is_in
  is_in-filter y p [] = refl
  is_in-filter y p (x ∷ s) = elim (Bool-cases (e.same x y)) [
    | inl h ↦ elim (Bool-cases (p x)) [
      | inl q ↦ rw (q, h) (sym (subst (λ z. p z ≡ true) (e.same→eq x y h) q))
      | inr q ↦
          rw (q, h)
            (is_in-filter y p s ∙ ground (arith, subst (λ z. p z ≡ false) (e.same→eq x y h) q))
    ]
    | inr h ↦ ground (arith, is_in-filter y p s)
  ]

  module _ {V : Type 0} where
    -- d.get(k)
    unfoldable pub find : K → List (K × V) → Option V
    find k [] = none
    find k ((j, v) ∷ d) = if e.same j k then some v else find k d

    -- d[k] = v
    unfoldable pub put : K → V → List (K × V) → List (K × V)
    put k v [] = (k, v) ∷ []
    put k v ((j, w) ∷ d) = let rest = put k v d in if e.same j k then (j, v) ∷ d else (j, w) ∷ rest

    pub find-put :
        (k j : K) (v : V) (d : List (K × V))
        → find j (put k v d) ≡ (if e.same k j then some v else find j d)
    unfolding find put
    find-put k j v [] = refl
    find-put k j v ((i, w) ∷ d) = elim (Bool-cases (e.same i k)) [
      | inl h ↦ ground (arith, same_trans i k j h)
      | inr h ↦ ground (arith, find-put k j v d, same_trans k j i, meet i k j h)
    ]
      where
        meet : (i k j : K) → e.same i k ≡ false → (e.same i j && e.same k j) ≡ false
        meet i k j h = elim (Bool-cases (e.same k j)) [
          | inl q ↦ rw q (ground (arith, subst (λ z. e.same i z ≡ false) (e.same→eq k j q) h))
          | inr q ↦ ground arith
        ]
