-- ===== src/Nv.antt =====
-- src/nv_mem.c: the settings that survive a power cycle.
use ledger_iota_app.Prelude.{ℕ, ◌-◌, ◌==◌, u8, if◌then◌else◌}
use ledger_iota_app.Device.{Device, NvMem}

unfoldable pub nv_init : NvMem → NvMem
nv_init nv = if nv.initialized == 0xa5 then nv else record { blindsigning = 0; initialized = 0xa5 }

abbrev pub nv_get_blindsigning : Device → ℕ
nv_get_blindsigning d = d.nv.blindsigning

-- `1 - value` as a byte
unfoldable pub nv_toggle_blindsigning : NvMem → NvMem
nv_toggle_blindsigning nv = record nv { blindsigning = u8 (257 - nv.blindsigning) }
