-- ===== src/Model/Sequential.antt =====
-- The state machine of a model without speculation: at most one fault, then the end.
use side_channel_fuzzer.Prelude.{
  ℕ, suc, ◌≡◌, ◌≢◌, refl, Bool, true, false, Option, none, some, arith, ◌>>=◌,
}
use side_channel_fuzzer.Model.{
  Services, TestCase, ModelState, Round, goes_on, returns, raises, unhandled, handle_fault,
  finish_round, after_fault, fault_round, run_emulator, enter, enter_round, round,
  reset_after_em_stop, End, out_of_fuel, after_round, run_from, run_state_machine,
}

-- a round that goes on, and the flag of a fault in the state that it goes on with
abbrev goes : {S : Type 0} → Round S → Bool
goes (goes_on pc st) = true
goes _ = false

abbrev flag_of : {S : Type 0} → Round S → Bool
flag_of (goes_on pc st) = st.had_arch_fault
flag_of _ = true

module _ {S : Type 0} (v : Services S) (tc : TestCase)
    (sequential : (s : S) → v.in_speculation s ≡ false)
    (no_mechanism : (errno : ℕ) (s : S) → (v.speculate_fault errno s).0 ≡ 0) where
  finish_lem : (st : ModelState S) → finish_round v tc st ≡ returns st
  unfolding finish_round
  finish_lem st = ground (arith, sequential st.services)

  -- after a fault, the next one is an error
  nested_fault : (st : ModelState S) → st.had_arch_fault ≡ true → handle_fault v tc st ≡ unhandled
  unfolding handle_fault
  nested_fault st had =
      let s = v.observe_fault st.pending_fault st.services in
      ground (
        arith,
        no_mechanism st.pending_fault s,
        sequential (v.speculate_fault st.pending_fault s).1,
      )

  after_fault-flag : (st : ModelState S) → flag_of (after_fault v tc (handle_fault v tc st)) ≡ true
  unfolding handle_fault after_fault
  after_fault-flag st =
      let s = v.observe_fault st.pending_fault st.services in
      let s1 = (v.speculate_fault st.pending_fault s).1 in
      ground (
        arith,
        no_mechanism st.pending_fault s,
        sequential s1,
        finish_lem (record st { pending_fault = 0; services = s1; had_arch_fault = true }),
      )

  fault_round-flag : (o : Option S) (st : ModelState S) → flag_of (fault_round v tc o st) ≡ true
  unfolding fault_round
  fault_round-flag none st = refl
  fault_round-flag (some services) st = after_fault-flag (record st { services = services })

  fault_round-ends :
      (o : Option S) (st : ModelState S)
      → st.had_arch_fault ≡ true
      → goes (fault_round v tc o st) ≡ false
  unfolding fault_round after_fault
  fault_round-ends none st had = refl
  fault_round-ends (some services) st had =
      ground (arith, nested_fault (record st { services = services }) had)

  run_emulator-flag : (pc : ℕ) (st : ModelState S) → flag_of (run_emulator v tc pc st) ≡ true
  unfolding run_emulator
  run_emulator-flag pc st =
      let (errno, services) = v.emu_start pc st.services in
      let st1 = record st { services = services; pending_fault = errno } in
      ground (arith, finish_lem st1, fault_round-flag (v.patch_context services) st1)

  run_emulator-ends :
      (pc : ℕ) (st : ModelState S)
      → st.had_arch_fault ≡ true
      → goes (run_emulator v tc pc st) ≡ false
  unfolding run_emulator
  run_emulator-ends pc st had =
      let (errno, services) = v.emu_start pc st.services in
      let st1 = record st { services = services; pending_fault = errno } in
      ground (arith, finish_lem st1, fault_round-ends (v.patch_context services) st1 had)

  enter-flag : (pc : ℕ) (o : Option (ModelState S)) → flag_of (enter v tc pc o) ≡ true
  unfolding enter_round
  enter-flag pc none = refl
  enter-flag pc (some st) = ground (arith, sequential st.services, run_emulator-flag pc st)

  enter-ends :
      (pc : ℕ) (st : ModelState S)
      → st.had_arch_fault ≡ true
      → goes (enter_round v tc pc st) ≡ false
  unfolding enter_round
  enter-ends pc st had = ground (arith, sequential st.services, run_emulator-ends pc st had)

  round-ends :
      (pc : ℕ) (st : ModelState S) → st.had_arch_fault ≡ true → goes (round v tc pc st) ≡ false
  unfolding round reset_after_em_stop
  round-ends pc st had = by_actor (tc.actor_is_main pc)
    where
      by_actor :
          (o : Option Bool)
          → goes (
              enter v tc pc
                (o >>= λ m. some (record st { pending_fault = 0; current_actor_is_main = m })))
            ≡ false
      by_actor none = refl
      by_actor (some m) =
          enter-ends pc (record st { pending_fault = 0; current_actor_is_main = m }) had

  -- In a model without speculation, the state machine ends after two rounds at most: it finishes or
  -- raises an error, whatever the emulator does.
  pub run_state_machine_total :
      (fuel : ℕ) (st : ModelState S) → run_state_machine v tc (suc (suc fuel)) st ≢ out_of_fuel
  unfolding run_state_machine run_from
  run_state_machine_total fuel st =
      first (round v tc tc.code_start st)
        (unfold round in enter-flag tc.code_start (reset_after_em_stop v tc tc.code_start st))
    where
      second :
          (again : ℕ → ModelState S → End v tc) (r : Round S)
          → goes r ≡ false
          → after_round v tc again r ≢ out_of_fuel
      second again (goes_on pc st1) ends h = ground arith
      second again (returns st1) ends h = ground arith
      second again raises ends h = ground arith

      first :
          (r : Round S)
          → flag_of r ≡ true
          → after_round v tc
              (λ pc st1.
                after_round v tc (λ pc' st2. run_from v tc fuel pc' st2) (round v tc pc st1))
              r
            ≢ out_of_fuel
      first (goes_on pc st1) had h =
          second (λ pc' st2. run_from v tc fuel pc' st2) (round v tc pc st1) (round-ends pc st1 had)
            h
      first (returns st1) had h = ground arith
      first raises had h = ground arith
