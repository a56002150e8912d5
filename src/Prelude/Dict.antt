-- ===== src/Prelude/Dict.antt =====
-- Python's `dict` with integer keys: iteration follows the order of first insertion. The keys that
-- `hash` makes of digests.
use side_channel_fuzzer.Prelude.Tests.{◌==◌, ltb, if◌then◌else◌}
use Prim.Native.Nat.{ℕ, ◌%◌, ◌^◌, ◌-◌, ◌<◌}
use mathlib.Core.Path.{◌≡◌, refl}
use mathlib.Core.Bool.{Bool, false, ◌||◌}
use mathlib.Core.List.{List, [], ◌∷◌, ◌++◌, map}
use mathlib.Core.Option.{Option, none, some}
use native.Mathlib.Omega.{arith}

abbrev pub Dict {ℓ} : Type ℓ → Type ℓ
Dict V = List (ℕ × V)

-- hash(x), where x.__hash__() returns n: a number that does not fit in 63 bits is reduced
unfoldable pub hash_key : ℕ → ℕ
hash_key n = if ltb n (2 ^ 63) then n else n % (2 ^ 61 - 1)

pub hash_key_small : (n : ℕ) → n < 2 ^ 63 → hash_key n ≡ n
unfolding hash_key
hash_key_small n h = ground arith

module _ {ℓ} {V : Type ℓ} where
  -- d.get(k)
  unfoldable pub get : ℕ → Dict V → Option V
  get k [] = none
  get k ((j, v) ∷ d) = if j == k then some v else get k d

  -- k in d
  unfoldable pub has : ℕ → Dict V → Bool
  has k [] = false
  has k ((j, v) ∷ d) = j == k || has k d

  -- d[k] = v: an old key keeps its place, a new one goes to the end
  unfoldable pub put : ℕ → V → Dict V → Dict V
  put k v [] = (k, v) ∷ []
  put k v ((j, w) ∷ d) = let rest = put k v d in if j == k then (j, v) ∷ d else (j, w) ∷ rest

  -- d.values()
  abbrev pub values : Dict V → List V
  values d = map (λ e. e.1) d

  pub get-put :
      (k j : ℕ) (v : V) (d : Dict V) → get j (put k v d) ≡ (if k == j then some v else get j d)
  unfolding get put
  get-put k j v [] = refl
  get-put k j v ((i, w) ∷ d) = ground (arith, get-put k j v d)

  pub has-put : (k j : ℕ) (v : V) (d : Dict V) → has j (put k v d) ≡ (k == j || has j d)
  unfolding has put
  has-put k j v [] = ground arith
  has-put k j v ((i, w) ∷ d) = ground (arith, has-put k j v d)

  pub get_of_has-false : (k : ℕ) (d : Dict V) → has k d ≡ false → get k d ≡ none
  unfolding has get
  get_of_has-false k [] h = refl
  get_of_has-false k ((i, w) ∷ d) h = ground (arith, get_of_has-false k d)

  -- A new key goes to the end.
  pub put-append : (k : ℕ) (v : V) (d : Dict V) → has k d ≡ false → put k v d ≡ d ++ (k, v) ∷ []
  unfolding has put
  put-append k v [] h = refl
  put-append k v ((i, w) ∷ d) h = ground (arith, put-append k v d)
