-- ===== src/Fuzzer/Priming/LastOnly.antt =====
-- Which violations the priming check looks at.
use side_channel_fuzzer.Prelude.{◌≡◌, refl, ◌∙◌, some, List, [], ◌∷◌, ◌++◌, arith, ◌⊎◌, sym}
use side_channel_fuzzer.Traces.Classes.{Violation}
use side_channel_fuzzer.Fuzzer.{Modules, RoundManager}
use side_channel_fuzzer.Fuzzer.Priming.{pop, prime_violation, priming_check}

pop-append : {A : Type 0} (xs : List A) (x : A) → pop (xs ++ x ∷ []) ≡ some (x, xs)
unfolding pop
pop-append [] x = refl
pop-append (y ∷ []) x = refl
pop-append (y ∷ z ∷ xs) x = rw (pop-append (z ∷ xs) x)

module _ {I T P W : Type 0} (m : Modules I T P W) where
  same_priming :
      (r : RoundManager I P W) (earlier : List (Violation I P)) (v : Violation I P)
      → priming_check m (record r { violations = earlier ++ v ∷ [] })
        ≡ priming_check m (record r { violations = v ∷ [] })
  unfolding priming_check prime_violation pop
  same_priming r earlier v = rw (pop-append earlier v, priming_check)

  -- If the priming check returns, the violations before the last one made no difference to its
  -- result, and none of them survives: what is left is the last violation or nothing.
  pub priming_check-last :
      (r r' : RoundManager I P W) (earlier : List (Violation I P)) (v : Violation I P)
      → priming_check m (record r { violations = earlier ++ v ∷ [] }) ≡ some r'
      → (priming_check m (record r { violations = v ∷ [] }) ≡ some r')
        × ((r'.violations ≡ []) ⊎ (r'.violations ≡ v ∷ []))
  unfolding priming_check prime_violation pop
  priming_check-last r r' earlier v h =
      (sym (same_priming r earlier v) ∙ h, ground (arith, pop-append earlier v))
