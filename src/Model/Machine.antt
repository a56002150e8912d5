-- ===== src/Model/Machine.antt =====
-- How the state machine ends, and what it does on faults.
use side_channel_fuzzer.Prelude.{
  ℕ, zero, suc, ◌≡◌, ◌≢◌, false, Option, none, some, arith, Option-cases, inl, inr,
}
use side_channel_fuzzer.Model.{
  Services, TestCase, ModelState, Round, goes_on, returns, raises, Handled, next_addr, unhandled,
  roll_back, handle_fault, finish_round, after_fault, fault_round, enter, after_round, run_emulator,
  enter_round, round, reset_after_em_stop, finished, run_from, run_state_machine,
}

module _ {S : Type 0} (v : Services S) (tc : TestCase) where
  roll_back-never_returns : (st st' : ModelState S) → roll_back v tc st ≢ returns st'
  unfolding roll_back
  roll_back-never_returns st st' h = elim (Option-cases (v.rollback st.services)) [
    | inl e ↦ absurd (ground (arith, e))
    | inr (p, e) ↦ absurd (ground (arith, e))
  ]

  finish_round-quiet :
      (st st' : ModelState S)
      → finish_round v tc st ≡ returns st'
      → v.in_speculation st'.services ≡ false
  unfolding finish_round
  finish_round-quiet st st' h = ground (arith, roll_back-never_returns st st')

  after_fault-quiet :
      (r : Handled S) (st' : ModelState S)
      → after_fault v tc r ≡ returns st'
      → v.in_speculation st'.services ≡ false
  unfolding after_fault
  after_fault-quiet unhandled st' h = absurd (ground arith)
  after_fault-quiet (next_addr pc st) st' h = ground (arith, finish_round-quiet st st')

  fault_round-quiet :
      (o : Option S) (st st' : ModelState S)
      → fault_round v tc o st ≡ returns st'
      → v.in_speculation st'.services ≡ false
  unfolding fault_round
  fault_round-quiet none st st' h = absurd (ground arith)
  fault_round-quiet (some services) st st' h =
      after_fault-quiet (handle_fault v tc (record st { services = services })) st' h

  run_emulator-quiet :
      (pc : ℕ) (st st' : ModelState S)
      → run_emulator v tc pc st ≡ returns st'
      → v.in_speculation st'.services ≡ false
  unfolding run_emulator
  run_emulator-quiet pc st st' h =
      let (errno, services) = v.emu_start pc st.services in
      let st1 = record st { services = services; pending_fault = errno } in
      ground
        (arith, finish_round-quiet st1 st', fault_round-quiet (v.patch_context services) st1 st')

  enter_round-quiet :
      (pc : ℕ) (st st' : ModelState S)
      → enter_round v tc pc st ≡ returns st'
      → v.in_speculation st'.services ≡ false
  unfolding enter_round
  enter_round-quiet pc st st' h =
      ground (arith, run_emulator-quiet pc st st', roll_back-never_returns st st')

  round-quiet :
      (pc : ℕ) (st st' : ModelState S)
      → round v tc pc st ≡ returns st'
      → v.in_speculation st'.services ≡ false
  unfolding round
  round-quiet pc st st' h = entered (reset_after_em_stop v tc pc st) h
    where
      entered :
          (o : Option (ModelState S))
          → enter v tc pc o ≡ returns st'
          → v.in_speculation st'.services ≡ false
      entered none h = absurd (ground arith)
      entered (some st1) h = enter_round-quiet pc st1 st' h

  run_from-quiet :
      (fuel pc : ℕ) (st st' : ModelState S)
      → run_from v tc fuel pc st ≡ finished st'
      → v.in_speculation st'.services ≡ false
  unfolding run_from
  run_from-quiet zero pc st st' h = absurd (ground arith)
  run_from-quiet (suc fuel) pc st st' h =
      by_round (λ pc' st1. run_from-quiet fuel pc' st1 st') (round v tc pc st) (round-quiet pc st) h
    where
      by_round :
          ((pc' : ℕ) (st1 : ModelState S)
            → run_from v tc fuel pc' st1 ≡ finished st'
            → v.in_speculation st'.services ≡ false)
          → (r : Round S)
          → ((st1 : ModelState S) → r ≡ returns st1 → v.in_speculation st1.services ≡ false)
          → after_round v tc (λ pc' st1. run_from v tc fuel pc' st1) r ≡ finished st'
          → v.in_speculation st'.services ≡ false
      by_round again (goes_on pc' st1) quiet h = again pc' st1 h
      by_round again (returns st1) quiet h = quiet st' (ground arith)
      by_round again raises quiet h = absurd (ground arith)

  -- If the state machine finishes, it is not in speculation then.
  pub run_state_machine-quiet :
      (fuel : ℕ) (st st' : ModelState S)
      → run_state_machine v tc fuel st ≡ finished st'
      → v.in_speculation st'.services ≡ false
  unfolding run_state_machine
  run_state_machine-quiet fuel st st' h = run_from-quiet fuel tc.code_start st st' h
