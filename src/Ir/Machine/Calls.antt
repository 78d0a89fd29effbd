-- ===== src/Ir/Machine/Calls.antt =====
-- The call stack under an instruction: calls push, returns pop, and every other one leaves it.
use audesys.Base.{
  ℕ, ◌+◌, ◌≡◌, refl, inl, inr, false, Bool-cases, List, [], ◌∷◌, All, Option, none, some, Post,
  returns, Post-bind, Post-weaken, Post-any,
}
use audesys.Hal.Platform.{Platform}
use audesys.Hal.Value.{u32}
use audesys.Ir.Instr.{Opcode, Operand, register, immediate}
use audesys.Ir.Vm.State.{Vm, read_register, pop_call_ip, pop_from}
use audesys.Ir.Exec.{execute_opcode}
use audesys.Ir.Exec.Common.{Exec, ExecutorResult}
use audesys.Ir.Exec.Common.Frame.{write_register-Same}
use audesys.Ir.Exec.Flow.{
  exec_jump, exec_jump_if, jump_if_to, jump_target, exec_call, exec_ret, return_to, copy_result,
}
use audesys.Ir.Exec.Frame.{is_flow, execute_opcode-Stays}

-- Each address of the call stack has a property that the address behind a call has.
module _ (P : ℕ → Type 0) where
  abbrev Stacks : Exec → Type 0
  Stacks m = Post (λ (r : Vm × ExecutorResult). All P r.0.call_stack) m

  jump-Stacks : (ops : List Operand) (vm : Vm) → All P vm.call_stack → Stacks (exec_jump ops vm)
  unfolding exec_jump
  jump-Stacks (immediate (u32 target) ∷ _) vm h = returns h
  jump-Stacks _ vm h = returns h

  stays-Stacks :
      (pl : Platform) (opcode : Opcode) (ops : List Operand) (vm : Vm)
      → is_flow opcode ≡ false
      → All P vm.call_stack
      → Stacks (execute_opcode pl opcode ops vm)
  stays-Stacks pl opcode ops vm flow h =
      Post-weaken (execute_opcode-Stays pl opcode ops vm flow) λ r k. rw k.2 h

  jump_if-Stacks :
      (target : Option ℕ) (vm : Vm) → All P vm.call_stack → Stacks (jump_if_to target vm)
  unfolding jump_if_to
  jump_if-Stacks none vm h = returns h
  jump_if-Stacks (some target) vm h = elim (Bool-cases vm.flags_zero) [
    | inl e ↦ rw e (returns h)
    | inr e ↦ rw e (returns h)
  ]

  copy-Stacks :
      (ops : List Operand) (vm : Vm)
      → All P vm.call_stack
      → Post (λ (u : Vm). All P u.call_stack) (copy_result ops vm)
  unfolding copy_result
  copy-Stacks (register r ∷ _) vm h =
      Post-bind (Post-any (read_register vm r))
        λ v _. Post-weaken (write_register-Same vm 0 v) λ u e. rw e.1 h
  copy-Stacks _ vm h = returns h

  ret-Stacks : (ops : List Operand) (vm : Vm) → All P vm.call_stack → Stacks (exec_ret ops vm)
  unfolding exec_ret pop_call_ip return_to pop_from
  ret-Stacks ops vm h' = go vm.call_stack h'
    where
      go : (stack : List ℕ) → All P stack → Stacks (return_to (pop_from stack vm) ops vm)
      go [] h = returns h'
      go (a ∷ rest) h = Post-bind (copy-Stacks ops _ h.1) λ u k. returns k

  pub opcode-Stacks :
      (pl : Platform) (opcode : Opcode) (ops : List Operand) (vm : Vm)
      → (opcode ≡ Opcode.call → P (vm.ip + 1))
      → All P vm.call_stack
      → Stacks (execute_opcode pl opcode ops vm)
  unfolding execute_opcode exec_jump_if exec_call
  opcode-Stacks pl Opcode.jump ops vm p h = jump-Stacks ops vm h
  opcode-Stacks pl Opcode.jump_if ops vm p h = jump_if-Stacks (jump_target ops) vm h
  opcode-Stacks pl Opcode.call ops vm p h = returns (p refl, h)
  opcode-Stacks pl Opcode.ret ops vm p h = ret-Stacks ops vm h
  opcode-Stacks pl Opcode.halt ops vm p h = returns h
  opcode-Stacks pl opcode ops vm p h = stays-Stacks pl opcode ops vm refl h
