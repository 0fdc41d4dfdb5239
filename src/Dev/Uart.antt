-- ===== src/Dev/Uart.antt =====
-- internal/dev/uart.go: the serial port.
pub mod Fifo
use rvwasm.Base.{
  ℕ, ◌^◌, Bool, true, false, ◌&&◌, ◌||◌, List, [], ◌∷◌, ◌++◌, ◌==◌, if◌then◌else◌, has, bit_or, low,
  u8, sub64,
}

abbrev pub uart_base : ℕ
uart_base = 0x1000_0000

abbrev uart_ier_data_ready : ℕ
uart_ier_data_ready = 2 ^ 0

abbrev uart_ier_thre : ℕ
uart_ier_thre = 2 ^ 1

abbrev pub uart_lcr_dlab : ℕ
uart_lcr_dlab = 2 ^ 7

abbrev uart_lsr_data_ready : ℕ
uart_lsr_data_ready = 2 ^ 0

abbrev uart_lsr_thre : ℕ
uart_lsr_thre = 2 ^ 5

abbrev uart_lsr_temt : ℕ
uart_lsr_temt = 2 ^ 6

-- The calls of `Out` and of `IRQ`.
pub data UartEvent : Type 0 where
  out : ℕ → UartEvent
  irq : Bool → UartEvent

pub record Uart : Type 0 where
  pub ier : ℕ
  pub lcr : ℕ
  pub mcr : ℕ
  pub dll : ℕ
  pub dlm : ℕ
  pub rx : List ℕ

unfoldable pub has_data : List ℕ → Bool
has_data [] = false
has_data (b ∷ bs) = true

-- `updateIRQ`
unfoldable pub irq_level : Uart → Bool
irq_level u = has u.ier uart_ier_data_ready && has_data u.rx || has u.ier uart_ier_thre

unfoldable pub inject : Uart → List ℕ → Uart × List UartEvent
inject u [] = (u, [])
inject u (b ∷ bs) =
    let u' = record u { rx = u.rx ++ b ∷ bs } in (u', UartEvent.irq (irq_level u') ∷ [])

-- A read of the receive register takes the byte.
unfoldable pub receive : Uart → List ℕ → ℕ × Uart × List UartEvent
receive u [] = (0, u, [])
receive u (b ∷ bs) = let u' = record u { rx = bs } in (b, u', UartEvent.irq (irq_level u') ∷ [])

unfoldable pub uart_read : Uart → ℕ → ℕ × Uart × List UartEvent
uart_read u addr =
    let reg = low (sub64 addr uart_base) 3 in
    let dlab = has u.lcr uart_lcr_dlab in
    let ready = has_data u.rx in
    if reg == 0
    then (if dlab then (u.dll, u, []) else receive u u.rx)
    else if reg == 1
    then (if dlab then u.dlm else u.ier, u, [])
    else if reg == 2
    then (
      if has u.ier uart_ier_data_ready && ready
          then 4
          else if has u.ier uart_ier_thre
          then 2
          else 1,
      u,
      [],
    )
    else if reg == 3
    then (u.lcr, u, [])
    else if reg == 4
    then (u.mcr, u, [])
    else if reg == 5
    then (
      let idle = bit_or uart_lsr_thre uart_lsr_temt in
          if ready then bit_or idle uart_lsr_data_ready else idle,
      u,
      [],
    )
    else (0, u, [])

unfoldable pub uart_write : Uart → ℕ → ℕ → Uart × List UartEvent
uart_write u addr val =
    let reg = low (sub64 addr uart_base) 3 in
    let v = u8 val in
    let dlab = has u.lcr uart_lcr_dlab in
    let enabled = record u { ier = v } in
    if reg == 0
    then (if dlab then (record u { dll = v }, []) else (u, UartEvent.out v ∷ []))
    else if reg == 1
    then (if dlab
        then (record u { dlm = v }, [])
        else (enabled, UartEvent.irq (irq_level enabled) ∷ []))
    else if reg == 3
    then (record u { lcr = v }, [])
    else if reg == 4
    then (record u { mcr = v }, [])
    else (u, [])
