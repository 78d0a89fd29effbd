-- ===== src/Ir/Exec/Common/Frame.antt =====
-- Instructions and the instruction pointer: the shared lemmas.
use audesys.Base.{
  ℕ, List, ◌≡◌, ◌∙◌, Post-weaken, refl, ◌>>=◌, Outcome, Post, returns, Post-bind, Post-any,
  assert-Post, ltb,
}
use audesys.Hal.Value.{HalValue, u32}
use audesys.Ir.Instr.{Operand, register, immediate, signal_name}
use audesys.Ir.Vm.State.{Vm, register_count, write_register}
use audesys.Ir.Exec.Common.{
  ExecutorResult, continue, Exec, continue_with, on_register, on_u32, write_and_continue,
}

-- The executor goes on, with the instruction pointer at `n` and the call stack `stack`.
abbrev pub Stays : ℕ → List ℕ → Exec → Type 0
Stays n stack m =
    Post (λ (r : Vm × ExecutorResult). (r.0.ip ≡ n) × (r.1 ≡ continue) × (r.0.call_stack ≡ stack)) m

abbrev pub here : (vm : Vm) → Stays vm.ip vm.call_stack (continue_with vm)
here vm = returns (refl, refl, refl)

pub on_register-Stays :
    {n : ℕ} {stack : List ℕ} (op : Operand) (other : Exec) (k : ℕ → Exec)
    → Stays n stack other
    → ((r : ℕ) → Stays n stack (k r))
    → Stays n stack (on_register op other k)
on_register-Stays (register r) other k p q = q r
on_register-Stays (immediate v) other k p q = p
on_register-Stays (signal_name s) other k p q = p

pub on_u32-Stays :
    {n : ℕ} {stack : List ℕ} (op : Operand) (other : Exec) (k : ℕ → Exec)
    → Stays n stack other
    → ((i : ℕ) → Stays n stack (k i))
    → Stays n stack (on_u32 op other k)
on_u32-Stays (immediate (u32 i)) other k p q = q i
on_u32-Stays _ other k p q = p

-- Any outcome, and then instructions that stay.
pub after_any :
    {A : Type 0} {n : ℕ} {stack : List ℕ} (m : Outcome A) {k : A → Exec}
    → ((a : A) → Stays n stack (k a))
    → Stays n stack (m >>= k)
after_any m q = Post-bind (Post-any m) λ a _. q a

abbrev Same : Vm → Vm → Type 0
Same vm u = (u.ip ≡ vm.ip) × (u.call_stack ≡ vm.call_stack)

-- A written register is no part of the control state.
pub write_register-Same : (vm : Vm) (r : ℕ) (v : HalValue) → Post (Same vm) (write_register vm r v)
unfolding write_register
write_register-Same vm r v = assert-Post (ltb r register_count) λ _. returns (refl, refl)

pub write-Stays :
    (vm : Vm) (r : ℕ) (v : HalValue) → Stays vm.ip vm.call_stack (write_and_continue vm r v)
write-Stays vm r v = Post-bind (write_register-Same vm r v) λ u e. returns (e.0, refl, e.1)

pub write_both-Stays :
    (vm : Vm) (r s : ℕ) (v w : HalValue)
    → Stays vm.ip vm.call_stack (write_register vm r v >>= λ vm'. write_and_continue vm' s w)
write_both-Stays vm r s v w =
    Post-bind (write_register-Same vm r v)
      λ u e. Post-weaken (write-Stays u s w) λ x k. (k.0 ∙ e.0, k.1, k.2 ∙ e.1)
