-- ===== src/Tests/Blocks.antt =====
-- The work of the block device on its queue (internal/dev/virtio_blk.go) in a memory that it writes.
use rvwasm.Base.{
  ℕ, Bool, true, false, add64, ◌≡◌, ◌⊎◌, inl, inr, refl, sym, ap, ◌∙◌, ◌^◌, List, [], ◌∷◌, arith,
}
use rvwasm.Virtio.Guest.{
  ok, read16, read32, read64, answer_of, and_then, copy_to_guest, copy_from_guest, after_byte,
}
use rvwasm.Virtio.Chain.{read_chain, read_desc_at, walk_chain, first_indirect, read_direct_chain}
use rvwasm.Virtio.Queue.{
  Device, Round, run, advance, raise_if, on_flags, update_irq, put, should_interrupt, on_used,
  publish_used, on_avail, on_head, next_head, on_served, on_next, queue_round, copy_out, queue_of,
}
use rvwasm.Virtio.Queue.Ends.{Ended, IsKept}
use rvwasm.Virtio.Queue.Steady.{ReadsAvail}
use rvwasm.Cpu.Csr.{elem}
use rvwasm.Virtio.Transport.{irq_level, set_queue}
use rvwasm.Virtio.Block.{
  block_process, process_request, on_request, serve_request, on_transfer, transfer, send_disk,
  on_sent, set_status, status_place,
}
use rvwasm.Virtio.Block.Ends.{block_process-Ended}
use rvwasm.Mem.Bytes.{get_le, put_le}
use rvwasm.Tests.Virtio.{ram, on_ram}

-- The work on the chain that is available: the byte 7 of the disk goes to 0x500 and the status to 0x600,
-- and the used ring moves on. The rings, the descriptors and the buffers are all in one RAM.
abbrev before : Device (ℕ → ℕ) (List ℕ)
before = on_ram (7 ∷ 8 ∷ [])

-- The device with which a round goes on.
abbrev next_of : Round (Device (ℕ → ℕ) (List ℕ)) → Device (ℕ → ℕ) (List ℕ)
next_of (Round.again s) = s
next_of (Round.stopped s) = s
next_of Round.panicked = before

abbrev after : Device (ℕ → ℕ) (List ℕ)
after = next_of (queue_round ram 0 (process_request ram) before)

AtStart : Device (ℕ → ℕ) (List ℕ) → Type 0
AtStart d = (d ≡ before) ⊎ (d ≡ after)

-- What the round came to.
data_sent : (after.mem 0x500 ≡ 7) × (after.mem 0x302 ≡ 1) × ((queue_of 0 after).last_avail ≡ 1)
unfolding queue_round next_head on_avail on_head on_next on_served publish_used on_used run read16
    and_then answer_of get_le process_request on_request read_chain read_desc_at read64 read32
    read_direct_chain walk_chain elem serve_request on_transfer transfer on_sent send_disk
    set_status status_place first_indirect after_byte copy_to_guest copy_from_guest advance copy_out
    on_flags put raise_if should_interrupt update_irq irq_level set_queue put_le
data_sent = (refl, refl, refl)

round_before : queue_round ram 0 (process_request ram) before ≡ Round.again after
unfolding queue_round next_head on_avail on_head on_next on_served publish_used on_used run read16
    and_then answer_of get_le process_request on_request read_chain read_desc_at read64 read32
    read_direct_chain walk_chain elem serve_request on_transfer transfer on_sent send_disk
    set_status status_place first_indirect after_byte copy_to_guest copy_from_guest advance copy_out
    on_flags put raise_if should_interrupt update_irq irq_level set_queue put_le
round_before = refl

goes_on : Round (Device (ℕ → ℕ) (List ℕ)) → Bool
goes_on (Round.again s) = true
goes_on (Round.stopped s) = false
goes_on Round.panicked = false

round_after : goes_on (queue_round ram 0 (process_request ram) after) ≡ false
unfolding goes_on queue_round next_head on_avail on_head on_next on_served publish_used on_used run
    read16 and_then answer_of get_le process_request on_request read_chain read_desc_at read64
    read32 read_direct_chain walk_chain elem serve_request on_transfer transfer on_sent send_disk
    set_status status_place first_indirect after_byte copy_to_guest copy_from_guest advance copy_out
    on_flags put raise_if should_interrupt update_irq irq_level set_queue put_le
round_after = refl

AtStart-IsKept : IsKept AtStart (queue_round ram 0 (process_request ram))
unfolding IsKept AtStart goes_on
AtStart-IsKept s s' (inl e) r =
    inr (ap next_of (sym r ∙ ap (queue_round ram 0 (process_request ram)) e ∙ round_before))
AtStart-IsKept s s' (inr e) r =
    let clash : true ≡ false =
      ap goes_on (sym r ∙ ap (queue_round ram 0 (process_request ram)) e) ∙ round_after in
    absurd (ground (arith, clash))

avail_before : (read16 ram 0x202 before.mem).0 ≡ ok 1
unfolding read16 and_then answer_of get_le
avail_before = refl

avail_after : (read16 ram (add64 (queue_of 0 after).driver 2) after.mem).0 ≡ ok 1
unfolding queue_round next_head on_avail on_head on_next on_served publish_used on_used run read16
    and_then answer_of get_le process_request on_request read_chain read_desc_at read64 read32
    read_direct_chain walk_chain elem serve_request on_transfer transfer on_sent send_disk
    set_status status_place first_indirect after_byte copy_to_guest copy_from_guest advance copy_out
    on_flags put raise_if should_interrupt update_irq irq_level set_queue put_le
avail_after = refl

AtStart-ReadsAvail : ReadsAvail ram 0 1 AtStart
unfolding ReadsAvail AtStart
AtStart-ReadsAvail s (inl e) = rw e avail_before
AtStart-ReadsAvail s (inr e) = rw e avail_after

before-AtStart : AtStart before
unfolding AtStart
before-AtStart = inl refl

block_process-Ended_example : Ended (block_process ram (2 ^ 16) before)
block_process-Ended_example =
    block_process-Ended ram AtStart 1 before AtStart-IsKept AtStart-ReadsAvail before-AtStart
      (omega arith) (omega arith)
