-- ===== src/Boot/Dynamic.antt =====
-- internal/boot/dynamic.go: what the firmware is told in memory.
use rvwasm.Base.{ℕ, zero, suc, ◌/◌, List, [], ◌∷◌, ◌++◌, u8}

abbrev pub fw_dynamic_info_magic : ℕ
fw_dynamic_info_magic = 0x4942_534f

abbrev pub fw_dynamic_info_version : ℕ
fw_dynamic_info_version = 2

pub record FwDynamicInfo : Type 0 where
  pub next_addr : ℕ
  pub next_mode : ℕ
  pub options : ℕ
  pub boot_hart : ℕ

-- The bytes of a number from the lowest on, `n` of them.
unfoldable pub le_bytes : ℕ → ℕ → List ℕ
le_bytes zero v = []
le_bytes (suc n) v = u8 v ∷ le_bytes n (v / 256)

unfoldable pub build_fw_dynamic_info : FwDynamicInfo → List ℕ
build_fw_dynamic_info info =
    le_bytes 8 fw_dynamic_info_magic
    ++ le_bytes 8 fw_dynamic_info_version
    ++ le_bytes 8 info.next_addr
    ++ le_bytes 8 info.next_mode
    ++ le_bytes 8 info.options
    ++ le_bytes 8 info.boot_hart
