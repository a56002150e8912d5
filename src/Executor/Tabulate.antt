-- ===== src/Executor/Tabulate.antt =====
-- Arrays as tables of a function: reading, writing, and equality.
use side_channel_fuzzer.Prelude.{
  ℕ, zero, suc, ◌+◌, ◌≤◌, ◌<◌, ◌≡◌, refl, ap, ◌∙◌, true, false, some, ◌∷◌, arith, if◌then◌else◌,
  ◌==◌, length, get_elem?, set,
}
use side_channel_fuzzer.Executor.{tabulate}

module _ {A : Type 0} where
  pub length-tabulate : (h : ℕ → A) (s n : ℕ) → length (tabulate h s n) ≡ n
  unfolding tabulate
  length-tabulate h s zero = refl
  length-tabulate h s (suc n) = ap suc (length-tabulate h (suc s) n)

  pub get_elem?-tabulate :
      (h : ℕ → A) (s n i : ℕ) → i < n → get_elem? (tabulate h s n) i ≡ some (h (s + i))
  unfolding tabulate
  get_elem?-tabulate h s zero i b = absurd (omega arith)
  get_elem?-tabulate h s (suc n) zero b = let e : s ≡ s + 0 = omega arith in ap (λ j. some (h j)) e
  get_elem?-tabulate h s (suc n) (suc i) b =
      let e : suc s + i ≡ s + suc i = omega arith in
      get_elem?-tabulate h (suc s) n i (omega arith) ∙ ap (λ j. some (h j)) e

  pub tabulate_ext :
      (h k : ℕ → A) (s n : ℕ)
      → ((j : ℕ) → s ≤ j → j < s + n → h j ≡ k j)
      → tabulate h s n ≡ tabulate k s n
  unfolding tabulate
  tabulate_ext h k s zero e = refl
  tabulate_ext h k s (suc n) e = rw (
    e s (omega arith) (omega arith),
    tabulate_ext h k (suc s) n (λ j p q. e j (omega arith) (omega arith)),
  )

  -- h with another value at `i`
  abbrev pub update : ℕ → A → (ℕ → A) → ℕ → A
  update i v h j = if j == i then v else h j

  pub set-tabulate :
      (h : ℕ → A) (s n i : ℕ) (v : A)
      → i < n
      → set (tabulate h s n) i v ≡ tabulate (update (s + i) v h) s n
  unfolding tabulate
  set-tabulate h s zero i v b = absurd (omega arith)
  set-tabulate h s (suc n) zero v b =
      let here : (s == s + 0) ≡ true = ground arith in
      rw (here, tabulate_ext h (update (s + 0) v h) (suc s) n (λ j p q. later j p))
    where
      later : (j : ℕ) → suc s ≤ j → h j ≡ update (s + 0) v h j
      later j p = let e : (j == s + 0) ≡ false = ground arith in rw e refl
  set-tabulate h s (suc n) (suc i) v b =
      let here : (s == s + suc i) ≡ false = ground arith in
      let e : suc s + i ≡ s + suc i = omega arith in
      rw here (
        ap (λ l. h s ∷ l)
          (set-tabulate h (suc s) n i v (omega arith)
            ∙ ap (λ q. tabulate (update q v h) (suc s) n) e))
