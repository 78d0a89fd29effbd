-- ===== src/Ir/Build.antt =====
-- crates/audesys-hal-ir/src/instruction.rs: the functions that build instructions.
use audesys.Base.{ℕ, [], ◌∷◌, Option, none, some}
use audesys.Hal.Value.{HalValue, u32}
use audesys.Ir.Instr.{Operand, register, immediate, Opcode, Instruction, instruction}

abbrev imm : ℕ → Operand
imm n = immediate (u32 n)

abbrev pub nop : Instruction
nop = instruction Opcode.nop []

abbrev pub halt : Instruction
halt = instruction Opcode.halt []

abbrev pub load_imm : ℕ → HalValue → Instruction
load_imm reg val = instruction Opcode.load (register reg ∷ immediate val ∷ [])

abbrev pub arith_op : Opcode → ℕ → ℕ → ℕ → Instruction
arith_op opcode a b out = instruction opcode (register a ∷ register b ∷ register out ∷ [])

abbrev pub cmp : Opcode → ℕ → ℕ → Instruction
cmp opcode a b = instruction opcode (register a ∷ register b ∷ [])

abbrev pub jump : ℕ → Instruction
jump target = instruction Opcode.jump (imm target ∷ [])

abbrev pub jump_if : ℕ → Instruction
jump_if target = instruction Opcode.jump_if (imm target ∷ [])

abbrev pub call : ℕ → Instruction
call target = instruction Opcode.call (imm target ∷ [])

abbrev pub ret : Option ℕ → Instruction
ret none = instruction Opcode.ret []
ret (some r) = instruction Opcode.ret (register r ∷ [])

abbrev pub load_index : ℕ → ℕ → ℕ → Instruction
load_index dest array idx =
    instruction Opcode.load_index (register dest ∷ register array ∷ register idx ∷ [])

abbrev pub store_index : ℕ → ℕ → ℕ → Instruction
store_index array idx value =
    instruction Opcode.store_index (register array ∷ register idx ∷ register value ∷ [])

abbrev pub timer_run : ℕ → ℕ → ℕ → ℕ → Instruction
timer_run timer_idx in_reg pt_ms kind =
    instruction Opcode.timer_run (imm timer_idx ∷ register in_reg ∷ imm pt_ms ∷ imm kind ∷ [])

abbrev pub read_timer : ℕ → ℕ → ℕ → Instruction
read_timer timer_idx q_dest et_dest =
    instruction Opcode.read_timer (imm timer_idx ∷ register q_dest ∷ register et_dest ∷ [])

abbrev pub counter_run : ℕ → ℕ → ℕ → ℕ → ℕ → Instruction
counter_run counter_idx cu_reg cd_reg pv kind =
    instruction Opcode.counter_run
      (imm counter_idx ∷ register cu_reg ∷ register cd_reg ∷ imm pv ∷ imm kind ∷ [])

abbrev pub read_counter : ℕ → ℕ → ℕ → Instruction
read_counter counter_idx q_dest cv_dest =
    instruction Opcode.read_counter (imm counter_idx ∷ register q_dest ∷ register cv_dest ∷ [])

abbrev pub sr_run : ℕ → ℕ → ℕ → ℕ → Instruction
sr_run idx s1_reg r_reg kind =
    instruction Opcode.sr_run (imm idx ∷ register s1_reg ∷ register r_reg ∷ imm kind ∷ [])

abbrev pub read_sr : ℕ → ℕ → ℕ → Instruction
read_sr idx q1_dest q2_dest =
    instruction Opcode.read_sr (imm idx ∷ register q1_dest ∷ register q2_dest ∷ [])

abbrev pub edge_run : ℕ → ℕ → ℕ → Instruction
edge_run idx clk_reg kind = instruction Opcode.edge_run (imm idx ∷ register clk_reg ∷ imm kind ∷ [])

abbrev pub read_edge : ℕ → ℕ → Instruction
read_edge idx q_dest = instruction Opcode.read_edge (imm idx ∷ register q_dest ∷ [])
