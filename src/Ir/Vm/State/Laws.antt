-- ===== src/Ir/Vm/State/Laws.antt =====
-- Registers and signals of the machine: reading after writing.
use audesys.Base.{
  map_get-map_insert_self, map_get-map_insert_ne, ℕ, ◌<◌, ◌≡◌, ◌≢◌, refl, ap, lt→ltb, List, some,
  get_elem?-set_self, get_elem?-set_ne, ok, expect, length,
}
use audesys.Hal.Value.{HalValue}
use audesys.Ir.Vm.State.{
  Vm, register_count, read_register, write_register, write_signal, read_signal,
}

-- A signal reads as what was written to it last, and a write changes no other signal.
pub read_signal-write_signal :
    (vm : Vm) (name key : List ℕ) (v : HalValue)
    → (read_signal (write_signal vm name v) name ≡ some v)
      × (name ≢ key → read_signal (write_signal vm name v) key ≡ read_signal vm key)
unfolding read_signal write_signal
read_signal-write_signal vm name key v =
    (map_get-map_insert_self name v vm.signals, map_get-map_insert_ne name key v vm.signals)

-- In a machine with sixteen registers a write to one of them succeeds, the register then reads as
-- what was written, and every other register as before.
pub read_register-write_register :
    (vm : Vm) (idx other : ℕ) (v : HalValue)
    → length vm.registers ≡ register_count
    → idx < register_count
    → (vm' : Vm) × (write_register vm idx v ≡ ok vm')
      × (read_register vm' idx ≡ ok v)
      × (idx ≢ other → read_register vm' other ≡ read_register vm other)
unfolding read_register write_register
read_register-write_register vm idx other v sixteen inside = rw (lt→ltb idx register_count inside) (
  _,
  refl,
  ap expect (get_elem?-set_self vm.registers idx v (rw sixteen inside)),
  λ ne. rw (get_elem?-set_ne vm.registers idx other v ne) refl,
)
