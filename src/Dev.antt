-- ===== src/Dev.antt =====
-- internal/dev: the interrupt controllers, the serial port and the reset register. A call of a
-- callback (`SetPending`, `Notify`, `IRQ`, `Out`, `OnPoweroff`, `OnReboot`) is a value in a list.
pub mod Registers
pub mod Plic
pub mod Clint
pub mod Uart
pub mod Syscon
