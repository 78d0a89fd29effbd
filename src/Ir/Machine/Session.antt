-- ===== src/Ir/Machine/Session.antt =====
-- `Executor::resume` and the trace of crates/audesys-hal-ir/src/executor.rs: a session with
-- breakpoints beside a run without them.
use audesys.Base.{
  ℕ, ◌≡◌, refl, inl, inr, false, Bool-cases, ltb, length, get_elem?, expect, Outcome, ok, panic,
  ◌>>=◌, if◌then◌else◌, Post, returns, panics, Post-bind, Post-any, assert-Post,
}
use audesys.Hal.Platform.{Platform}
use audesys.Ir.Exec.{execute_instruction}
use audesys.Ir.Exec.Common.{ExecutorResult, continue, halted, breaked}
use audesys.Ir.Machine.{
  Executor, new_debug_state, at_breakpoint, record_trace, run_instruction, step, resume,
  disable_debug,
}

-- The executor with its debugging taken away.
abbrev pub bare : Executor → Executor
bare e = record e { debug_state = new_debug_state }

-- What a debugger does to go on: resume at a breakpoint, step elsewhere.
abbrev pub proceed : Platform → Executor → Outcome (Executor × ExecutorResult)
proceed pl e = if at_breakpoint e then resume pl e else step pl e

-- At most `n` moves, up to one that does not continue.
unfoldable pub iterate :
    (Executor → Outcome (Executor × ExecutorResult))
    → ℕ
    → Executor
    → Outcome (Executor × ExecutorResult)
iterate move ℕ.zero e = ok (e, continue)
iterate move (ℕ.suc n) e = move e >>= λ r. elim r.1 [
  | continue ↦ iterate move n r.0
  | halted ↦ ok (r.0, halted)
  | breaked ↦ ok (r.0, breaked)
]

Post-self : {A : Type 0} (m : Outcome A) → Post (λ a. m ≡ ok a) m
Post-self (ok a) = returns refl
Post-self panic = panics

-- The moves from the bare executor give the same, but for the debugging.
abbrev pub Mirrors :
    Outcome (Executor × ExecutorResult) → Outcome (Executor × ExecutorResult) → Type 0
Mirrors plain debugged =
    Post (λ (r : Executor × ExecutorResult). plain ≡ ok (bare r.0, r.1)) debugged

run_instruction-bare :
    (pl : Platform) (e : Executor) → Mirrors (run_instruction pl (bare e)) (run_instruction pl e)
unfolding run_instruction record_trace
run_instruction-bare pl e =
    Post-bind (Post-self (expect (get_elem? e.program.instructions e.vm.ip))) λ inst found.
      Post-bind (Post-self (execute_instruction pl inst e.vm)) λ r done.
        Post-bind (Post-any (record_trace e.vm.ip inst.opcode r.0 e.debug_state))
          λ d _. returns (rw (found, done) refl)

step-bare :
    (pl : Platform) (e : Executor)
    → at_breakpoint e ≡ false
    → Mirrors (step pl (bare e)) (step pl e)
unfolding step
step-bare pl e quiet =
    assert-Post (ltb e.vm.ip (length e.program.instructions))
      λ inside. rw (inside, quiet) (run_instruction-bare pl e)

proceed-bare : (pl : Platform) (e : Executor) → Mirrors (step pl (bare e)) (proceed pl e)
unfolding resume
proceed-bare pl e = elim (Bool-cases (at_breakpoint e)) [
  | inl stops ↦ rw stops (Post-bind (step-bare pl (disable_debug e) refl) λ r same. returns same)
  | inr goes ↦ rw goes (step-bare pl e goes)
]

-- With any breakpoints, debug mode and trace, a session of any number of moves, each of which
-- resumes at a breakpoint and steps elsewhere, up to one that does not continue, leaves, where it
-- does not panic, the machine and the program and gives the result that as many steps of the
-- executor without debugging do.
pub iterate-proceed :
    (pl : Platform) (n : ℕ) (e : Executor)
    → Mirrors (iterate (step pl) n (bare e)) (iterate (proceed pl) n e)
unfolding iterate
iterate-proceed pl ℕ.zero e = returns refl
iterate-proceed pl (ℕ.suc n) e =
    Post-bind (proceed-bare pl e) λ r same. rw same (go r.1 r.0 (iterate-proceed pl n r.0))
  where
    go :
        (result : ExecutorResult) (next : Executor)
        → Mirrors (iterate (step pl) n (bare next)) (iterate (proceed pl) n next)
        → Mirrors
            (elim result [
              | continue ↦ iterate (step pl) n (bare next)
              | halted ↦ ok (bare next, halted)
              | breaked ↦ ok (bare next, breaked)
            ])
            (elim result [
              | continue ↦ iterate (proceed pl) n next
              | halted ↦ ok (next, halted)
              | breaked ↦ ok (next, breaked)
            ])
    go continue next h = h
    go halted next h = returns refl
    go breaked next h = returns refl
