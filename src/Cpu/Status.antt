-- ===== src/Cpu/Status.antt =====
-- The bits of mstatus (internal/cpu/trap.go and csr.go): what each change of it does to each field.
use rvwasm.Base.{
  ℕ, zero, suc, ◌+◌, ◌*◌, ◌/◌, ◌%◌, ◌^◌, ◌<◌, not, ◌≡◌, refl, ◌∙◌, arith, ◌==◌, ◌||◌, ◌&&◌,
  if◌then◌else◌, and_not, bit_and, bit_or, ◌>>>◌, Bool-cases, inl, inr,
}
use rvwasm.Base.Bits.{
  bit, bit-zero, bit-lt, bit-bit_and, bit-bit_or, bit-and_not, bit-pow, has-pow, two_bits,
}
use rvwasm.Cpu.Addr
use rvwasm.Cpu.Hart.{priv_m, priv_s}
use rvwasm.Cpu.Trap.{mpp, copy_bit, s_trap_status, m_trap_status, mret_status, sret_status}
use rvwasm.Cpu.Csr.{merge, legal_mstatus, sstatus_mask, xl_64}

pub mpp-bits : (st : ℕ) → mpp st ≡ bit st 11 + 2 * bit st 12
unfolding mpp
mpp-bits st = omega (arith, two_bits 11 st)

pub bit-merge :
    (old val mask k : ℕ)
    → bit (merge old val mask) k ≡ (if bit mask k == 1 then bit val k else bit old k)
unfolding merge
bit-merge old val mask k = ground (
  arith,
  bit-bit_or (and_not old mask) (bit_and val mask) k,
  bit-and_not old mask k,
  bit-bit_and val mask k,
  bit-lt old k,
  bit-lt val k,
  bit-lt mask k,
)

-- `if st&from != 0 { st |= to } else { st &^= to }` copies one bit and keeps the others.
pub bit-copy_bit :
    (from to k st : ℕ)
    → bit (copy_bit st (2 ^ from) (2 ^ to)) k ≡ (if k == to then bit st from else bit st k)
unfolding copy_bit
bit-copy_bit from to k st = ground (
  arith,
  has-pow from st,
  bit-bit_or st (2 ^ to) k,
  bit-and_not st (2 ^ to) k,
  bit-pow to k,
  bit-lt st k,
  bit-lt st from,
)

-- The MPP mask, and a mode in its place.
bit-mpp_mask : (k : ℕ) → bit Addr.mstatus_mpp_mask k ≡ (if k == 11 || k == 12 then 1 else 0)
bit-mpp_mask k = ground (arith, bit-bit_or (2 ^ 11) (2 ^ 12) k, bit-pow 11 k, bit-pow 12 k)

bit-shifted_mode :
    (mode k : ℕ)
    → mode < 4
    → bit (mode * 2 ^ 11) k ≡ (if k == 11 then mode % 2 else if k == 12 then mode / 2 else 0)
bit-shifted_mode zero k h = ground (arith, bit-zero k)
bit-shifted_mode (suc zero) k h = ground (arith, bit-pow 11 k)
bit-shifted_mode (suc (suc zero)) k h = ground (arith, bit-pow 12 k)
bit-shifted_mode (suc (suc (suc zero))) k h = ground (arith, bit-mpp_mask k)
bit-shifted_mode (suc (suc (suc (suc mode)))) k h = absurd (omega arith)

-- A trap to M-mode: MPP takes the mode, MPIE takes MIE, MIE is cleared, and all else stays.
pub bit-m_trap_status :
    (mode st k : ℕ)
    → mode < 4
    → bit (m_trap_status mode st) k ≡ (
        if k == 11
        then mode % 2
        else if k == 12
        then mode / 2
        else if k == 7
        then bit st 3
        else if k == 3
        then 0
        else bit st k)
unfolding m_trap_status
bit-m_trap_status mode st k h =
    let a = copy_bit st (2 ^ 3) (2 ^ 7) in
    let b = and_not a (2 ^ 3) in
    let c = and_not b Addr.mstatus_mpp_mask in
    ground (
      arith,
      bit-bit_or c (mode * 2 ^ 11) k,
      bit-shifted_mode mode k h,
      bit-and_not b Addr.mstatus_mpp_mask k,
      bit-mpp_mask k,
      bit-and_not a (2 ^ 3) k,
      bit-pow 3 k,
      bit-copy_bit 3 7 k st,
      bit-lt st k,
      bit-lt st 3,
    )

-- A trap to S-mode: SPP says whether it came from S-mode, SPIE takes SIE, SIE is cleared.
pub bit-s_trap_status :
    (mode st k : ℕ)
    → bit (s_trap_status mode st) k ≡ (
        if k == 8
        then (if mode == priv_s then 1 else 0)
        else if k == 5
        then bit st 1
        else if k == 1
        then 0
        else bit st k)
unfolding s_trap_status
bit-s_trap_status mode st k =
    let a = copy_bit st (2 ^ 1) (2 ^ 5) in
    let b = and_not a (2 ^ 1) in
    ground (
      arith,
      bit-bit_or b (2 ^ 8) k,
      bit-and_not b (2 ^ 8) k,
      bit-pow 8 k,
      bit-and_not a (2 ^ 1) k,
      bit-pow 1 k,
      bit-copy_bit 1 5 k st,
      bit-lt st k,
      bit-lt st 1,
    )

-- `mret`: MIE takes MPIE, MPIE is set, MPP becomes U, and MPRV is cleared on leaving M-mode.
pub bit-mret_status :
    (st k : ℕ)
    → bit (mret_status st) k ≡ (
        if k == 3
        then bit st 7
        else if k == 7
        then 1
        else if k == 11 || k == 12
        then 0
        else if k == 17 && not (mpp st == priv_m)
        then 0
        else bit st k)
unfolding mret_status
bit-mret_status st k =
    let a = copy_bit st (2 ^ 7) (2 ^ 3) in
    let b = bit_or a (2 ^ 7) in
    let c = and_not b Addr.mstatus_mpp_mask in
    ground (
      arith,
      bit-and_not c (2 ^ 17) k,
      bit-pow 17 k,
      bit-and_not b Addr.mstatus_mpp_mask k,
      bit-mpp_mask k,
      bit-bit_or a (2 ^ 7) k,
      bit-pow 7 k,
      bit-copy_bit 7 3 k st,
      bit-lt st k,
      bit-lt st 7,
    )

-- `sret`: SIE takes SPIE, SPIE is set, and SPP becomes U.
pub bit-sret_status :
    (st k : ℕ)
    → bit (sret_status st) k
      ≡ (if k == 1 then bit st 5 else if k == 5 then 1 else if k == 8 then 0 else bit st k)
unfolding sret_status
bit-sret_status st k =
    let a = copy_bit st (2 ^ 5) (2 ^ 1) in
    let b = bit_or a (2 ^ 5) in
    ground (
      arith,
      bit-and_not b (2 ^ 8) k,
      bit-pow 8 k,
      bit-bit_or a (2 ^ 5) k,
      bit-pow 5 k,
      bit-copy_bit 5 1 k st,
      bit-lt st k,
      bit-lt st 5,
    )

-- MPP after each change.
pub mpp-m_trap_status : (mode st : ℕ) → mode < 4 → mpp (m_trap_status mode st) ≡ mode
mpp-m_trap_status mode st h = ground (
  arith,
  mpp-bits (m_trap_status mode st),
  bit-m_trap_status mode st 11 h,
  bit-m_trap_status mode st 12 h,
)

pub mpp-s_trap_status : (mode st : ℕ) → mpp (s_trap_status mode st) ≡ mpp st
mpp-s_trap_status mode st = ground (
  arith,
  mpp-bits (s_trap_status mode st),
  mpp-bits st,
  bit-s_trap_status mode st 11,
  bit-s_trap_status mode st 12,
)

pub mpp-mret_status : (st : ℕ) → mpp (mret_status st) ≡ 0
mpp-mret_status st =
    ground (arith, mpp-bits (mret_status st), bit-mret_status st 11, bit-mret_status st 12)

pub mpp-sret_status : (st : ℕ) → mpp (sret_status st) ≡ mpp st
mpp-sret_status st =
    ground
      (arith, mpp-bits (sret_status st), mpp-bits st, bit-sret_status st 11, bit-sret_status st 12)

-- sstatus shows no bit of MPP, so a write of it leaves MPP alone.
sstatus_mask_clear : (bit sstatus_mask 11 ≡ 0) × (bit sstatus_mask 12 ≡ 0)
unfolding bit
sstatus_mask_clear = (refl, refl)

pub mpp-merge_sstatus : (old val : ℕ) → mpp (merge old val sstatus_mask) ≡ mpp old
mpp-merge_sstatus old val =
    let st = merge old val sstatus_mask in
    let (e, f) = sstatus_mask_clear in
    ground (
      arith,
      mpp-bits st,
      mpp-bits old,
      bit-merge old val sstatus_mask 11,
      bit-merge old val sstatus_mask 12,
    )

-- A write of mstatus stores no MPP of 2, whatever is written.
abbrev fixed_fields : ℕ
fixed_fields = bit_or (bit_or Addr.mstatus_uxl_mask Addr.mstatus_sxl_mask) Addr.mstatus_sd

fixed_fields_clear :
    (bit fixed_fields 11 ≡ 0) × (bit fixed_fields 12 ≡ 0) × (bit xl_64 11 ≡ 0) × (bit xl_64 12 ≡ 0)
unfolding bit
fixed_fields_clear = (refl, refl, refl, refl)

-- The fixed fields do not touch MPP.
mpp-fixed : (v : ℕ) → mpp (bit_or (and_not v fixed_fields) xl_64) ≡ mpp v
mpp-fixed v =
    let (a, b, c, d) = fixed_fields_clear in
    let st = bit_or (and_not v fixed_fields) xl_64 in
    ground (
      arith,
      mpp-bits st,
      mpp-bits v,
      bit-bit_or (and_not v fixed_fields) xl_64 11,
      bit-bit_or (and_not v fixed_fields) xl_64 12,
      bit-and_not v fixed_fields 11,
      bit-and_not v fixed_fields 12,
    )

mpp-cleared : (v : ℕ) → mpp (and_not v Addr.mstatus_mpp_mask) ≡ 0
mpp-cleared v = ground (
  arith,
  mpp-bits (and_not v Addr.mstatus_mpp_mask),
  bit-and_not v Addr.mstatus_mpp_mask 11,
  bit-and_not v Addr.mstatus_mpp_mask 12,
  bit-mpp_mask 11,
  bit-mpp_mask 12,
  bit-lt v 11,
  bit-lt v 12,
)

-- Whatever is written to mstatus, the MPP that is stored is the one written, with the reserved
-- value 2 stored as 0.
pub mpp-legal_mstatus : (val : ℕ) → mpp (legal_mstatus val) ≡ (if mpp val == 2 then 0 else mpp val)
unfolding legal_mstatus mpp
mpp-legal_mstatus val = elim (Bool-cases (bit_and val Addr.mstatus_mpp_mask >>> 11 == 2)) [
  | inl e ↦ rw e (mpp-fixed (and_not val Addr.mstatus_mpp_mask) ∙ mpp-cleared val)
  | inr e ↦ rw e (mpp-fixed val)
]
