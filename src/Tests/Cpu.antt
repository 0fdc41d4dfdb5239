-- ===== src/Tests/Cpu.antt =====
-- The theorems on the hart of internal/cpu, on the small machine.
use rvwasm.Base.{
  zero, suc, ap, ◌+◌, ℕ, true, false, ◌≡◌, ◌≤◌, refl, subst, has, u8, ◌>>>◌, ◌*◌, ◌==◌, inl,
  if◌then◌else◌, [], ◌∷◌, arith,
}
use rvwasm.Cpu.Addr
use rvwasm.Cpu.Hart.{Hart, priv_m}
use rvwasm.Cpu.Access.{AccessKind}
use rvwasm.Base.Bits.{bit}
use rvwasm.Cpu.Csr.{legal_mstatus}
use rvwasm.Cpu.Status.{mpp-legal_mstatus}
use rvwasm.Cpu.Pmp.{
  pmp_entry_count, pmp_permits, pmp_range, pmp_mode, pmp_l, pmp_cfg, check_pmp, check_bytes,
  any_configured_from, pmp_cfg_csr_for_entry, merge_cfg,
}
use rvwasm.Cpu.Trap.{trap, take_first, check_interrupt, deliverable, delegated, mret, sret, mpp}
use rvwasm.Cpu.Mmu.{translate}
use rvwasm.Cpu.Mmu.Offset.{IsTranslation, translate-IsTranslation}
use rvwasm.Cpu.Step.{run, reset, step}
use rvwasm.Cpu.Step.Zero.{run-reset-x0, step-x0}
use rvwasm.Cpu.Legal.{IsLegal, IsLegalCore, run-IsLegal}
use rvwasm.Cpu.Protect.Rule.{OnPmp}
use rvwasm.Cpu.Protect.Cache.{IsCached, run-IsCached, pmp_range-off, check_pmp-check_bytes}
use rvwasm.Cpu.Protect.Lock.{IsEntry, run-locked, merge_cfg-byte}
use rvwasm.Cpu.Trap.Return.{mret-trap, sret-trap, mode-trap, IsResumed, mret_bits, sret_bits}
use rvwasm.Cpu.Trap.Priority.{IsFirst, AreOff, check_interrupt-IsFirst, check_interrupt-masked}
use rvwasm.Base.Arrays.{update}
use rvwasm.Mem.Bus.{Bus}
use rvwasm.Cpu.Protect.Rights.{in_range, any_range, pmp_permits-machine, pmp_permits-denied}
use rvwasm.Tests.Machine.{machine, machine-keeps, hart, machine_hart, start}

-- Entry 0 through twenty steps, the write of pmpcfg0 among them.
hart-locked : has (pmp_cfg hart.csr 0) pmp_l ≡ true
unfolding pmp_cfg pmp_cfg_csr_for_entry
hart-locked = refl

run-locked_example :
    let t = (run machine 20 hart).0 in
    (pmp_cfg t.csr 0 ≡ pmp_cfg hart.csr 0) × (t.csr Addr.csr_pmpaddr0 ≡ hart.csr Addr.csr_pmpaddr0)
run-locked_example =
    run-locked machine 0 (omega arith) 20 hart hart-locked
      (machine-keeps (OnPmp (IsEntry 0 (pmp_cfg hart.csr 0) (hart.csr Addr.csr_pmpaddr0))))

run-IsLegal_example : IsLegal (run machine 20 (reset hart start 0)).0
run-IsLegal_example = run-IsLegal machine (machine-keeps IsLegalCore) 20 hart start 0

run-IsCached_example :
    let t = (run machine 20 (reset hart start 0)).0 in IsCached t.csr t.pmp_active t.pmp_checked
run-IsCached_example = run-IsCached machine (machine-keeps (OnPmp IsCached)) 20 hart start 0

hart-IsCached : IsCached hart.csr hart.pmp_active hart.pmp_checked
unfolding any_configured_from pmp_cfg pmp_cfg_csr_for_entry
hart-IsCached _ = refl

check_pmp-check_bytes_example :
    (check_pmp hart start 8 AccessKind.store 1).0 ≡ check_bytes hart 8 0 start AccessKind.store 1
check_pmp-check_bytes_example = check_pmp-check_bytes hart start 8 AccessKind.store 1 hart-IsCached

translate-IsTranslation_example :
    IsTranslation start AccessKind.fetch (translate machine start AccessKind.fetch hart).0
translate-IsTranslation_example = translate-IsTranslation machine start AccessKind.fetch hart

run-reset-x0_example : (run machine 20 (reset hart start 0)).0.x 0 ≡ 0
run-reset-x0_example = run-reset-x0 machine 20 hart start 0

step-x0_example : (step machine hart).0.x 0 ≡ 0
step-x0_example = step-x0 machine hart refl

-- An illegal instruction is not delegated, and an ecall from U-mode is.
hart-undelegated : delegated hart 2 false ≡ false
unfolding delegated bit
hart-undelegated = refl

hart-delegated : delegated hart 8 false ≡ true
unfolding delegated bit
hart-delegated = refl

mret-trap_example :
    IsResumed hart false (mret (trap hart 2 0 false)) (mret_bits 1 (hart.csr Addr.csr_mstatus))
mret-trap_example = mret-trap hart 2 0 false hart-undelegated (omega arith)

sret-trap_example :
    IsResumed hart false (sret (trap hart 8 0 false)) (sret_bits (hart.csr Addr.csr_mstatus))
sret-trap_example = sret-trap hart 8 0 false hart-delegated

mode-trap_example : hart.mode ≤ (trap hart 2 0 false).mode
mode-trap_example = mode-trap hart 2 0 false (omega arith)

-- The machine timer is pending and enabled, as is that of the supervisor, which comes later.
check_interrupt-IsFirst_example : IsFirst hart (11 ∷ 3 ∷ 7 ∷ 9 ∷ 1 ∷ 5 ∷ []) (check_interrupt hart)
check_interrupt-IsFirst_example = check_interrupt-IsFirst hart

timer_first : check_interrupt hart ≡ (trap hart 7 0 true, true)
unfolding check_interrupt take_first deliverable
timer_first = refl

-- In M-mode with MIE off no interrupt is taken.
machine_hart-AreOff : AreOff machine_hart
unfolding AreOff bit
machine_hart-AreOff = inl (refl, refl)

check_interrupt-masked_example : check_interrupt machine_hart ≡ (machine_hart, false)
check_interrupt-masked_example = check_interrupt-masked machine_hart machine_hart-AreOff

-- Byte 0 is locked and byte 1 is not.
merge_cfg-byte_example : u8 (merge_cfg 8 0 0x189f 0x1f07 0 >>> (1 * 8)) ≡ (
    if bit (u8 (0x189f >>> (1 * 8))) 7 == 1
    then u8 (0x189f >>> (1 * 8))
    else u8 (0x1f07 >>> (1 * 8)))
merge_cfg-byte_example = merge_cfg-byte 0x189f 0x1f07 1 (omega arith)

mpp-legal_mstatus_example : mpp (legal_mstatus 0x1000) ≡ (if mpp 0x1000 == 2 then 0 else mpp 0x1000)
mpp-legal_mstatus_example = mpp-legal_mstatus 0x1000

-- Without configuration, M-mode may read; with the first entry on, its range has no byte at 0.
unlocked_machine : (j : ℕ) → has (pmp_cfg (λ _. 0) j) pmp_l ≡ false
unfolding pmp_cfg
unlocked_machine j = ground arith

pmp_permits-machine_example :
    pmp_permits (record machine_hart { csr = λ _. 0 }) start AccessKind.load priv_m ≡ true
pmp_permits-machine_example =
    pmp_permits-machine (record machine_hart { csr = λ _. 0 }) start AccessKind.load
      unlocked_machine

-- Only entry 0 is on, with the four bytes from 0x80000000 on.
abbrev one_entry : Hart (Bus (Unit {0}))
one_entry = record hart {
  csr = update (update (λ _. 0) Addr.csr_pmpcfg0 0x17) Addr.csr_pmpaddr0 0x2000_0000;
}

others_off : (j : ℕ) → pmp_cfg one_entry.csr (8 + j) ≡ 0
unfolding pmp_cfg pmp_cfg_csr_for_entry
others_off j = ground arith

nothing_later : (j : ℕ) → in_range 0 (pmp_range one_entry (8 + j)) ≡ false
nothing_later j = ap (in_range 0) (pmp_range-off one_entry (8 + j) (ap pmp_mode (others_off j)))

nothing_at_zero : (j : ℕ) → in_range 0 (pmp_range one_entry j) ≡ false
unfolding pmp_range pmp_cfg pmp_cfg_csr_for_entry
nothing_at_zero zero = refl
nothing_at_zero (suc zero) = refl
nothing_at_zero (suc (suc zero)) = refl
nothing_at_zero (suc (suc (suc zero))) = refl
nothing_at_zero (suc (suc (suc (suc zero)))) = refl
nothing_at_zero (suc (suc (suc (suc (suc zero))))) = refl
nothing_at_zero (suc (suc (suc (suc (suc (suc zero)))))) = refl
nothing_at_zero (suc (suc (suc (suc (suc (suc (suc zero))))))) = refl
nothing_at_zero (suc (suc (suc (suc (suc (suc (suc (suc j)))))))) =
    let past : 8 + j ≡ suc (suc (suc (suc (suc (suc (suc (suc j))))))) = omega arith in
    subst (λ (i : ℕ). in_range 0 (pmp_range one_entry i) ≡ false) past (nothing_later j)

entry_on : any_range one_entry pmp_entry_count 0 ≡ true
unfolding any_range pmp_range pmp_cfg pmp_cfg_csr_for_entry
entry_on = refl

pmp_permits-denied_example : pmp_permits one_entry 0 AccessKind.store 1 ≡ false
pmp_permits-denied_example =
    pmp_permits-denied one_entry 0 AccessKind.store 1 refl nothing_at_zero entry_on
