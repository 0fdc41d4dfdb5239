-- ===== src/Cpu/Protect/Lock.antt =====
-- The lock of a PMP entry (`pmpSetCfgCSR` and `pmpSetAddrCSR` in internal/cpu/pmp.go).
use rvwasm.Base.{
  ℕ, zero, suc, Bool, true, false, ◌≡◌, refl, sym, subst, ap, Bool-cases, inl, inr, ◌∙◌, arith,
  ◌==◌, ◌+◌, ◌*◌, ◌%◌, ◌^◌, ◌<◌, ◌-◌, leb, if◌then◌else◌, u8, ◌>>>◌, shl64, has, bit_or,
}
use rvwasm.Base.Arrays.{update, update-same}
use rvwasm.Base.Bits.{bit, bit_or-disjoint, has-pow}
use rvwasm.Cpu.Addr
use rvwasm.Cpu.Hart.{Hart, Platform}
use rvwasm.Cpu.Pmp.{
  is_pmp_cfg_csr, is_pmp_addr_csr, pmp_cfg, pmp_cfg_csr_for_entry, pmp_l, merge_cfg, merged_byte,
}
use rvwasm.Cpu.Step.{run}
use rvwasm.Cpu.Invariant.Core.{HandlerKeeps}
use rvwasm.Cpu.Invariant.Step.{run-keeps}
use rvwasm.Cpu.Protect.Rule.{IsProtected, OnPmp, protected_invariant}
use rvwasm.Cpu.Protect.Cache.{pmp_cfg-update}

merged_byte-lt : (old val i : ℕ) → merged_byte old val i < 256
unfolding merged_byte
merged_byte-lt old val i = ground arith

-- One round puts its byte above the bytes so far.
put_byte :
    (k o o' b : ℕ)
    → o ≡ o'
    → o' < 2 ^ k
    → shl64 b k ≡ b * 2 ^ k
    → bit_or o (shl64 b k) ≡ o' + b * 2 ^ k
put_byte k o o' b e p f =
    ap (λ (t : ℕ). bit_or t (shl64 b k)) e
    ∙ ap (λ (t : ℕ). bit_or o' t) f
    ∙ bit_or-disjoint k o' b p

-- What a write of a pmpcfg register stores, as a sum of its bytes.
merge_cfg-sum :
    (old val : ℕ)
    → let b = merged_byte old val in
      merge_cfg 8 0 old val 0
      ≡ b 0
        + b 1 * 2 ^ 8
        + b 2 * 2 ^ 16
        + b 3 * 2 ^ 24
        + b 4 * 2 ^ 32
        + b 5 * 2 ^ 40
        + b 6 * 2 ^ 48
        + b 7 * 2 ^ 56
unfolding merge_cfg
merge_cfg-sum old val =
    let b = merged_byte old val in
    let r : (i : ℕ) → b i < 256 = merged_byte-lt old val in
    let r0 = r 0 in
    let r1 = r 1 in
    let r2 = r 2 in
    let r3 = r 3 in
    let r4 = r 4 in
    let r5 = r 5 in
    let r6 = r 6 in
    let r7 = r 7 in
    put_byte 56 _ _ (b 7)
      (put_byte 48 _ _ (b 6)
        (put_byte 40 _ _ (b 5)
          (put_byte 32 _ _ (b 4)
            (put_byte 24 _ _ (b 3)
              (put_byte 16 _ _ (b 2)
                (put_byte 8 _ (b 0) (b 1)
                  (put_byte 0 0 0 (b 0) refl (omega arith) (omega arith) ∙ omega arith)
                  (omega arith) (omega arith))
                (omega arith) (omega arith))
              (omega arith) (omega arith))
            (omega arith) (omega arith))
          (omega arith) (omega arith))
        (omega arith) (omega arith))
      (omega arith) (omega arith)

bytes-lt :
    (old val : ℕ)
    → let b = merged_byte old val in
      (b 0 < 256)
      × (b 1 < 256)
      × (b 2 < 256)
      × (b 3 < 256)
      × (b 4 < 256)
      × (b 5 < 256)
      × (b 6 < 256)
      × (b 7 < 256)
bytes-lt old val = let r = merged_byte-lt old val in (r 0, r 1, r 2, r 3, r 4, r 5, r 6, r 7)

-- Each byte of the merged value is `merged_byte`.
merge_cfg-merged_byte :
    (old val i : ℕ) → i < 8 → u8 (merge_cfg 8 0 old val 0 >>> (i * 8)) ≡ merged_byte old val i
merge_cfg-merged_byte old val zero p = omega (arith, merge_cfg-sum old val, bytes-lt old val)
merge_cfg-merged_byte old val (suc zero) p = omega (arith, merge_cfg-sum old val, bytes-lt old val)
merge_cfg-merged_byte old val (suc (suc zero)) p =
    omega (arith, merge_cfg-sum old val, bytes-lt old val)
merge_cfg-merged_byte old val (suc (suc (suc zero))) p =
    omega (arith, merge_cfg-sum old val, bytes-lt old val)
merge_cfg-merged_byte old val (suc (suc (suc (suc zero)))) p =
    omega (arith, merge_cfg-sum old val, bytes-lt old val)
merge_cfg-merged_byte old val (suc (suc (suc (suc (suc zero))))) p =
    omega (arith, merge_cfg-sum old val, bytes-lt old val)
merge_cfg-merged_byte old val (suc (suc (suc (suc (suc (suc zero)))))) p =
    omega (arith, merge_cfg-sum old val, bytes-lt old val)
merge_cfg-merged_byte old val (suc (suc (suc (suc (suc (suc (suc zero))))))) p =
    omega (arith, merge_cfg-sum old val, bytes-lt old val)
merge_cfg-merged_byte old val (suc (suc (suc (suc (suc (suc (suc (suc i)))))))) p =
    absurd (omega arith)

-- Each of the eight bytes that a write to a pmpcfg register stores is the old byte where bit 7 of
-- the old byte, the lock, is set, and the byte written where it is not.
pub merge_cfg-byte :
    (old val i : ℕ)
    → i < 8
    → u8 (merge_cfg 8 0 old val 0 >>> (i * 8))
      ≡ (if bit (u8 (old >>> (i * 8))) 7 == 1 then u8 (old >>> (i * 8)) else u8 (val >>> (i * 8)))
unfolding merged_byte
merge_cfg-byte old val i p =
    merge_cfg-merged_byte old val i p
    ∙ ap (λ (t : Bool). if t then u8 (old >>> (i * 8)) else u8 (val >>> (i * 8)))
        (has-pow 7 (u8 (old >>> (i * 8))))

own_register :
    (csr : ℕ → ℕ) (v i : ℕ)
    → i < 64
    → has (pmp_cfg csr i) pmp_l ≡ true
    → let a = pmp_cfg_csr_for_entry i in
      pmp_cfg (update csr a (merge_cfg 8 0 (csr a) v 0)) i ≡ pmp_cfg csr i
unfolding pmp_cfg merged_byte
own_register csr v i p locked =
    let a = pmp_cfg_csr_for_entry i in
    let m = merge_cfg 8 0 (csr a) v 0 in
    let inside : leb 64 i ≡ false = ground arith in
    let byte = merge_cfg-merged_byte (csr a) v (i % 8) (omega arith) in
    rw (inside, update-same csr a m, byte, own inside) refl
  where
    own : leb 64 i ≡ false → has (u8 (csr (pmp_cfg_csr_for_entry i) >>> (i % 8 * 8))) pmp_l ≡ true
    own e =
        subst
          (λ (t : Bool).
            has (if t then 0 else u8 (csr (pmp_cfg_csr_for_entry i) >>> (i % 8 * 8))) pmp_l ≡ true)
          e locked

-- A write of any pmpcfg register leaves the configuration of a locked entry.
pub pmp_cfg-locked :
    (csr : ℕ → ℕ) (a v i : ℕ)
    → i < 64
    → has (pmp_cfg csr i) pmp_l ≡ true
    → pmp_cfg (update csr a (merge_cfg 8 0 (csr a) v 0)) i ≡ pmp_cfg csr i
pmp_cfg-locked csr a v i p locked = elim (Bool-cases (a == pmp_cfg_csr_for_entry i)) [
  | inl e ↦
      subst (λ (t : ℕ). pmp_cfg (update csr t (merge_cfg 8 0 (csr t) v 0)) i ≡ pmp_cfg csr i)
        (sym (let f : a ≡ pmp_cfg_csr_for_entry i = ground (arith, e) in f))
        (own_register csr v i p locked)
  | inr e ↦ unfold pmp_cfg in rw e refl
]

-- What is asked of the registers: entry `i` has the configuration `cfg` and the address `addr`.
abbrev pub IsEntry : ℕ → ℕ → ℕ → (ℕ → ℕ) → Bool → Bool → Type 0
IsEntry i cfg addr csr active checked = (pmp_cfg csr i ≡ cfg) × (csr (Addr.csr_pmpaddr0 + i) ≡ addr)

other_address :
    (csr : ℕ → ℕ) (i cfg addr a v : ℕ)
    → (pmp_cfg csr i ≡ cfg) × (csr (Addr.csr_pmpaddr0 + i) ≡ addr)
    → has cfg pmp_l ≡ true
    → has (pmp_cfg csr (a - Addr.csr_pmpaddr0)) pmp_l ≡ false
    → update csr a v (Addr.csr_pmpaddr0 + i) ≡ addr
other_address csr i cfg addr a v q locked l = elim (Bool-cases (a == Addr.csr_pmpaddr0 + i)) [
  | inl e ↦
      let j : a - Addr.csr_pmpaddr0 ≡ i = ground (arith, e) in
      let clash : true ≡ false =
        sym locked
        ∙ ap (λ (t : ℕ). has t pmp_l) (sym q.0)
        ∙ ap (λ (t : ℕ). has (pmp_cfg csr t) pmp_l) (sym j)
        ∙ l in
      absurd (ground (arith, clash))
  | inr e ↦ rw e q.1
]

IsEntry-IsProtected :
    (i cfg addr : ℕ) → i < 64 → has cfg pmp_l ≡ true → IsProtected (IsEntry i cfg addr)
unfolding is_pmp_cfg_csr is_pmp_addr_csr
IsEntry-IsProtected i cfg addr p locked = record {
  far = λ {csr} a v n m q. (pmp_cfg-update csr a v i n ∙ q.0, ground (arith, q.1));
  refreshed = λ q. q;
  configured = λ {csr} a v c q. (
    pmp_cfg-locked csr a v i p (ap (λ (t : ℕ). has t pmp_l) q.0 ∙ locked) ∙ q.0,
    ground (arith, q.1),
  );
  addressed = λ {csr} a v c l q.
      (pmp_cfg-update csr a v i (ground arith) ∙ q.0, other_address csr i cfg addr a v q locked l);
}

module _ {S : Type 0} where
  -- From any hart in which PMP entry i (below 64) is locked, any number of steps leaves the
  -- configuration byte and the address register of that entry as they are, in every mode and
  -- whatever the instructions, traps and devices do; an SBI handler, where there is one, is asked
  -- to keep the two values.
  pub run-locked :
      (p : Platform S) (i : ℕ)
      → i < 64
      → (n : ℕ) (h : Hart S) → has (pmp_cfg h.csr i) pmp_l ≡ true
      → HandlerKeeps (OnPmp (IsEntry i (pmp_cfg h.csr i) (h.csr (Addr.csr_pmpaddr0 + i)))) p
      → let t = (run p n h).0 in
        (pmp_cfg t.csr i ≡ pmp_cfg h.csr i)
        × (t.csr (Addr.csr_pmpaddr0 + i) ≡ h.csr (Addr.csr_pmpaddr0 + i))
  run-locked p i b n h locked kept =
      let P = IsEntry i (pmp_cfg h.csr i) (h.csr (Addr.csr_pmpaddr0 + i)) in
      run-keeps (OnPmp P) (protected_invariant P (IsEntry-IsProtected i _ _ b locked)) p kept n h
        (refl, refl)
