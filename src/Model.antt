-- ===== src/Model.antt =====
-- rvzr/model_unicorn/model.py and rvzr/model_unicorn/execution_context.py: the state machine that
-- runs a test case on the emulator, and the handling of faults.
pub mod Machine
pub mod Sequential
use side_channel_fuzzer.Prelude.{
  ℕ, zero, suc, Bool, true, false, not, ◌&&◌, ◌||◌, Option, none, some, List, [], ◌∷◌, ◌==◌, ltb,
  if◌then◌else◌, ◌>>=◌, any,
}

-- The emulator and the service objects, with their state `S`. `emu_start` runs the emulator with its
-- hooks from an address, and ends with the number of a fault (0 is none), also of a soft fault that a
-- hook has signalled.
pub record Services (S : Type 0) : Type 0 where
  pub emu_start : ℕ → S → ℕ × S
  -- the context restore of UnicornModel._patch_context_after_fault; `none`: no previous context
  pub patch_context : S → Option S
  -- UnicornTracer.observe_mem_access of the fault frame that the CPU stores
  pub observe_fault : ℕ → S → S
  -- UnicornSpeculator.handle_fault, rollback and in_speculation
  pub speculate_fault : ℕ → S → ℕ × S
  pub rollback : S → Option (ℕ × S)
  pub in_speculation : S → Bool

-- What a test case fixes: addresses, the faults that do not end the execution, and for every
-- address if it belongs to the main actor (`none`: no such actor, a KeyError).
pub record TestCase : Type 0 where
  pub code_start : ℕ
  pub exit_addr : ℕ
  pub fault_handler_addr : ℕ
  pub handled_faults : List ℕ
  pub actor_is_main : ℕ → Option Bool

-- ModelExecutionState
pub record ModelState (S : Type 0) : Type 0 where
  pub services : S
  pub pending_fault : ℕ
  pub had_arch_fault : Bool
  pub current_actor_is_main : Bool

-- One round of the loop of _run_state_machine: the machine goes on at an address, returns, or
-- raises an error.
pub data Round (S : Type 0) : Type 0 where
  goes_on : ℕ → ModelState S → Round S
  returns : ModelState S → Round S
  raises : Round S

-- What _handle_fault returns: an address (0 stands for a rollback), or an error.
pub data Handled (S : Type 0) : Type 0 where
  next_addr : ℕ → ModelState S → Handled S
  unhandled : Handled S

module _ {S : Type 0} (v : Services S) (tc : TestCase) where
  -- ModelExecutionState.full_reset
  unfoldable pub full_reset : ModelState S → ModelState S
  full_reset st = record st {
    had_arch_fault = false;
    pending_fault = 0;
    current_actor_is_main = true;
  }

  -- ModelExecutionState.reset_after_em_stop
  unfoldable pub reset_after_em_stop : ℕ → ModelState S → Option (ModelState S)
  reset_after_em_stop start_pc st = do
    is_main ← tc.actor_is_main start_pc
    some (record st { pending_fault = 0; current_actor_is_main = is_main })

  -- ModelExecutionState.is_exit_addr
  unfoldable pub is_exit_addr : ℕ → ModelState S → Bool
  is_exit_addr address st =
      address == tc.exit_addr || (st.current_actor_is_main && ltb tc.exit_addr address)

  -- the rollback of the state machine
  unfoldable pub roll_back : ModelState S → Round S
  roll_back st = elim (v.rollback st.services) [
    | none ↦ raises
    | some (pc, services) ↦ goes_on pc (record st { services = services })
  ]

  -- UnicornModel._handle_fault
  unfoldable pub handle_fault : ModelState S → Handled S
  handle_fault st =
      let errno = st.pending_fault in
      let (next, services) = v.speculate_fault errno (v.observe_fault errno st.services) in
      let st1 = record st { pending_fault = 0; services = services } in
      if not (next == 0)
      then next_addr next st1
      else if v.in_speculation services
      then next_addr 0 st1
      else if st1.had_arch_fault
      then unhandled
      else if any (λ e. e == errno) tc.handled_faults
      then next_addr tc.fault_handler_addr (record st1 { had_arch_fault = true })
      else unhandled

  -- the end of a round, in or out of speculation
  unfoldable pub finish_round : ModelState S → Round S
  unfolding roll_back
  finish_round st = if v.in_speculation st.services then roll_back st else returns st

  -- a round after the fault was handled
  unfoldable pub after_fault : Handled S → Round S
  unfolding finish_round
  after_fault unhandled = raises
  after_fault (next_addr pc st) =
      if not (pc == 0) && not (pc == tc.exit_addr) then goes_on pc st else finish_round st

  -- the branch of a round on a fault
  unfoldable pub fault_round : Option S → ModelState S → Round S
  unfolding handle_fault after_fault
  fault_round none st = raises
  fault_round (some services) st = after_fault (handle_fault (record st { services = services }))

  -- the round from the start of the emulator on
  unfoldable pub run_emulator : ℕ → ModelState S → Round S
  unfolding fault_round finish_round
  run_emulator pc st =
      let (errno, services) = v.emu_start pc st.services in
      let st1 = record st { services = services; pending_fault = errno } in
      if errno == 0 then finish_round st1 else fault_round (v.patch_context services) st1

  -- the tests of a round when the loop is entered again
  unfoldable pub enter_round : ℕ → ModelState S → Round S
  unfolding is_exit_addr roll_back run_emulator
  enter_round pc st =
      if pc == tc.code_start
      then run_emulator pc st
      else if is_exit_addr pc st && not (v.in_speculation st.services)
      then returns st
      else if is_exit_addr pc st && v.in_speculation st.services
      then roll_back st
      else if pc == tc.fault_handler_addr && v.in_speculation st.services
      then roll_back st
      else run_emulator pc st

  -- one round of the loop of UnicornModel._run_state_machine
  abbrev pub enter : ℕ → Option (ModelState S) → Round S
  enter pc none = raises
  enter pc (some st) = enter_round pc st

  unfoldable pub round : ℕ → ModelState S → Round S
  unfolding reset_after_em_stop enter_round
  round pc st = enter pc (reset_after_em_stop pc st)

  -- UnicornModel._run_state_machine: the outer `none` is an error, and the fuel may run out.
  pub data End : Type 0 where
    finished : ModelState S → End
    raised : End
    out_of_fuel : End

  abbrev pub after_round : (ℕ → ModelState S → End) → Round S → End
  after_round again (goes_on pc st) = again pc st
  after_round again (returns st) = finished st
  after_round again raises = raised

  unfoldable pub run_from : ℕ → ℕ → ModelState S → End
  unfolding round
  run_from zero pc st = out_of_fuel
  run_from (suc fuel) pc st = after_round (λ pc' st'. run_from fuel pc' st') (round pc st)

  unfoldable pub run_state_machine : ℕ → ModelState S → End
  unfolding run_from
  run_state_machine fuel st = run_from fuel tc.code_start st
