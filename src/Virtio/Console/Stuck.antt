-- ===== src/Virtio/Console/Stuck.antt =====
-- `processTx` of internal/dev/virtio_console.go when the used ring cannot be read.
use rvwasm.Base.{
  ℕ, ◌*◌, ◌%◌, true, ◌||◌, List, [], ◌∷◌, ◌≡◌, ◌≢◌, some, ◌==◌, if-keeps, add32, add64, u16,
}
use rvwasm.Virtio.Guest.{Memory, Answer, ok, err, copy_from_guest}
use rvwasm.Virtio.Guest.Keeps.{AreKeptByReads, copy_from_guest-Keeps}
use rvwasm.Virtio.Chain.{VirtqDesc, is_writable, read_chain}
use rvwasm.Virtio.Chain.Keeps.{read_chain-Keeps}
use rvwasm.Virtio.Transport.{VirtQueue, Failure}
use rvwasm.Virtio.Queue.{Device, queue_of, queue_ready, process_tx}
use rvwasm.Virtio.Queue.Ends.{Unended}
use rvwasm.Virtio.Queue.Position.{IsAt, run-IsAt, fail-IsAt}
use rvwasm.Virtio.Queue.Steady.{IsSteady, IsReadable, IsUnreadable, IsTotal, tx_round-Unended}
use rvwasm.Virtio.Console.{
  Console, queue_tx, send_out, on_tx_data, tx_descs, on_tx_chain, consume_tx, console_process_tx,
}

module _ {M : Type 0} (ops : Memory M) (J : M → Type 0) (reads : AreKeptByReads ops J)
    (q : VirtQueue) (l : ℕ) where
  abbrev At : Device M Console → Type 0
  At d = IsAt J 1 q l d

  on_tx_data-IsAt :
      (n used : ℕ) (rest : ℕ → Device M Console → ℕ × Device M Console)
      (p : Answer (List ℕ) × Device M Console)
      → At p.1
      → ((u : ℕ) (d : Device M Console) → At d → At (rest u d).1)
      → At (on_tx_data ops n used rest p).1
  unfolding on_tx_data send_out IsAt
  on_tx_data-IsAt n used rest (err e, d) h k = fail-IsAt J 1 q l Failure.no_data d h
  on_tx_data-IsAt n used rest (ok buf, d) h k = k (add32 used n) (send_out buf n d) h

  tx_descs-IsAt :
      (xs : List VirtqDesc) (used : ℕ) (d : Device M Console) → At d → At (tx_descs ops xs used d).1
  unfolding tx_descs
  tx_descs-IsAt [] used d h = h
  tx_descs-IsAt (x ∷ xs) used d h =
      if-keeps (λ (p : ℕ × Device M Console). At p.1) (is_writable x || x.len == 0)
        (tx_descs-IsAt xs used d h)
        (on_tx_data-IsAt x.len used _ _
          (run-IsAt J 1 q l (copy_from_guest ops x.len x.addr) d
            (copy_from_guest-Keeps ops J reads x.len x.addr) h)
          (tx_descs-IsAt xs))

  on_tx_chain-IsAt :
      (p : Answer (List VirtqDesc) × Device M Console) → At p.1 → At (on_tx_chain ops p).1
  unfolding on_tx_chain
  on_tx_chain-IsAt (err e, d) h = fail-IsAt J 1 q l (Failure.bad_chain e) d h
  on_tx_chain-IsAt (ok descs, d) h = tx_descs-IsAt descs 0 d h

  consume_tx-IsTotal :
      (head : ℕ) (d : Device M Console) → At d → IsTotal J 1 q l (some (consume_tx ops head d))
  unfolding consume_tx IsTotal
  consume_tx-IsTotal head d h =
      let r = queue_of queue_tx d in
      on_tx_chain-IsAt _ (
        run-IsAt J 1 q l (read_chain ops r.num r.desc head) d
          (read_chain-Keeps ops J reads r.num r.desc head) h)

-- If the transmit queue of the console is ready and has a chain, and the bus reads the available
-- ring but never the index of the used ring, the loop over the queue does not end in any number of
-- rounds.
pub console_process_tx-Unended :
    {M : Type 0} (ops : Memory M) (J : M → Type 0) (q : VirtQueue) (idx l : ℕ)
    (d : Device M Console)
    → AreKeptByReads ops J
    → IsSteady ops J q idx
    → IsReadable ops J (add64 (add64 q.driver 4) (l % u16 q.num * 2))
    → IsUnreadable ops J (add64 q.device 2)
    → IsAt J 1 q l d
    → l ≢ idx
    → queue_ready 1 d ≡ true
    → (fuel : ℕ) → Unended (console_process_tx ops fuel d)
unfolding console_process_tx process_tx
console_process_tx-Unended ops J q idx l d reads steady ring bad h ne ready fuel = rw ready (
    tx_round-Unended ops J reads 1 q _ l (consume_tx-IsTotal ops J reads q l) idx ne steady ring bad
      fuel d h)
