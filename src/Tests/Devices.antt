-- ===== src/Tests/Devices.antt =====
-- The theorems on the devices of internal/dev.
use rvwasm.Base.{[], ◌∷◌, true, false, ◌≡◌, ◌≢◌, ◌⊎◌, refl, arith, ◌==◌, if◌then◌else◌, ones64}
use rvwasm.Dev.Plic.{Plic, best, best_from, is_candidate, enabled, claim}
use rvwasm.Dev.Plic.Best.{IsBest, best-IsBest, claim-claim}
use rvwasm.Dev.Uart.{Uart, inject, uart_read, uart_write, irq_level, has_data}
use rvwasm.Dev.Uart.Fifo.{reads, line_after, reads-inject, uart_read-line, uart_write-line}
use rvwasm.Dev.Clint.{Clint, clint_tick, clint_write}
use rvwasm.Dev.Clint.Lines.{IsTracked, Levels, receive, tick-IsTracked, clint_write-IsTracked}

-- Sources 3 and 5 pending at different priorities, both enabled for context 1.
abbrev plic : Plic
plic = record {
  priority = λ i. if i == 5 then 7 else 1;
  pending = λ i. if i == 3 then true else i == 5;
  contexts = 2;
  enable = λ _ _. 0x28;
  threshold = λ _. 0;
}

best-IsBest_example : IsBest plic 1 (best plic 1)
best-IsBest_example = best-IsBest plic 1 (omega arith)

offers : best plic 1 ≡ 5
unfolding best best_from is_candidate enabled
offers = refl

claim-claim_example :
    ((claim (claim plic 1).1 1).0 ≡ 0) ⊎ ((claim (claim plic 1).1 1).0 ≢ (claim plic 1).0)
claim-claim_example = claim-claim plic 1 (omega arith)

-- Two harts, the second with a compare that the tick reaches.
abbrev clint : Clint
clint = record {
  harts = 2;
  msip = λ _. 0;
  mtimecmp = λ i. if i == 1 then 100 else ones64;
  mtime = 99;
}

abbrev low_lines : Levels
low_lines = λ _ _. false

clint-IsTracked : IsTracked clint low_lines
clint-IsTracked hart h = (refl, ground (arith, h))

tick-IsTracked_example : IsTracked (clint_tick clint 1).0 (receive (clint_tick clint 1).1 low_lines)
tick-IsTracked_example = tick-IsTracked clint 1 low_lines (omega arith) clint-IsTracked

-- The write of the low half of the first hart's compare.
clint_write-IsTracked_example :
    let (c, signals) = clint_write clint 0x0200_4000 4 10 in IsTracked c (receive signals low_lines)
clint_write-IsTracked_example = clint_write-IsTracked clint 0x0200_4000 4 10 low_lines

-- A port with a byte waiting and its receive interrupt on.
abbrev uart : Uart
uart = record { ier = 1; lcr = 3; mcr = 0; dll = 0; dlm = 0; rx = 0x61 ∷ [] }

reads-inject_example : reads 3 (inject uart (0x62 ∷ 0x63 ∷ [])).0 ≡ 0x61 ∷ 0x62 ∷ 0x63 ∷ []
reads-inject_example = reads-inject uart (0x62 ∷ 0x63 ∷ []) refl

line_on : true ≡ irq_level uart
unfolding irq_level has_data
line_on = refl

uart_read-line_example :
    let (v, u, events) = uart_read uart 0x1000_0000 in line_after events true ≡ irq_level u
uart_read-line_example = uart_read-line uart 0x1000_0000 true line_on

uart_write-line_example :
    let (u, events) = uart_write uart 0x1000_0001 0 in line_after events true ≡ irq_level u
uart_write-line_example = uart_write-line uart 0x1000_0001 0 true line_on
