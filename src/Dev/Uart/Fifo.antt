-- ===== src/Dev/Uart/Fifo.antt =====
-- What a guest reads from the serial port of internal/dev/uart.go, and when it is interrupted.
use rvwasm.Base.{ℕ, zero, suc, Bool, false, ◌≡◌, refl, ap, List, [], ◌∷◌, ◌++◌, has, arith}
use rvwasm.Base.Arrays.{length}
use rvwasm.Dev.Uart.{
  Uart, UartEvent, uart_base, uart_lcr_dlab, inject, receive, uart_read, uart_write, irq_level,
}

-- The bytes of `n` reads of the receive register, and the port after them.
unfoldable pub reads : ℕ → Uart → List ℕ
reads zero u = []
reads (suc n) u = let (v, u', events) = uart_read u uart_base in v ∷ reads n u'

reads-queue :
    (u : Uart) (bs : List ℕ)
    → has u.lcr uart_lcr_dlab ≡ false
    → reads (length bs) (record u { rx = bs }) ≡ bs
unfolding reads uart_read receive
reads-queue u [] e = refl
reads-queue u (b ∷ bs) e = rw e (ap (λ (t : List ℕ). b ∷ t) (reads-queue u bs e))

append-nil : (bs : List ℕ) → bs ++ [] ≡ bs
append-nil [] = refl
append-nil (b ∷ bs) = ap (λ (t : List ℕ). b ∷ t) (append-nil bs)

-- With the divisor latch off, bytes that are injected queue behind those that wait: as many reads
-- of the receive register as there are bytes give them all in order.
pub reads-inject :
    (u : Uart) (bs : List ℕ)
    → has u.lcr uart_lcr_dlab ≡ false
    → reads (length (u.rx ++ bs)) (inject u bs).0 ≡ u.rx ++ bs
unfolding inject
reads-inject u [] e = rw (append-nil u.rx) (reads-queue u u.rx e)
reads-inject u (b ∷ bs) e = reads-queue u (u.rx ++ b ∷ bs) e

-- The level of the interrupt line after the calls of `IRQ`.
unfoldable pub line_after : List UartEvent → Bool → Bool
line_after [] line = line
line_after (UartEvent.out v ∷ es) line = line_after es line
line_after (UartEvent.irq level ∷ es) line = line_after es level

-- If the interrupt line of the serial port is what its state asks for, it is so after a write to
-- any address.
pub uart_write-line :
    (u : Uart) (addr val : ℕ) (line : Bool)
    → line ≡ irq_level u
    → let (u', events) = uart_write u addr val in line_after events line ≡ irq_level u'
unfolding uart_write irq_level line_after
uart_write-line u addr val line e = ground (arith, e)

receive-line :
    (u : Uart) (bs : List ℕ) (line : Bool)
    → line ≡ irq_level u
    → let (v, u', events) = receive u bs in line_after events line ≡ irq_level u'
unfolding receive line_after
receive-line u [] line e = e
receive-line u (b ∷ bs) line e = refl

-- If the interrupt line of the serial port is what its state asks for, it is so after a read of
-- any address.
pub uart_read-line :
    (u : Uart) (addr : ℕ) (line : Bool)
    → line ≡ irq_level u
    → let (v, u', events) = uart_read u addr in line_after events line ≡ irq_level u'
unfolding uart_read line_after
uart_read-line u addr line e = ground (arith, e, receive-line u u.rx line e)
