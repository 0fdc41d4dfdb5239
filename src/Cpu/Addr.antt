-- ===== src/Cpu/Addr.antt =====
-- The constants of internal/cpu/csr.go: addresses of the control and status registers, and the
-- masks of the fields of mstatus and mip.
use rvwasm.Base.{ℕ, ◌*◌, ◌^◌}

abbrev pub csr_ustatus : ℕ
csr_ustatus = 0x000

abbrev pub csr_fflags : ℕ
csr_fflags = 0x001

abbrev pub csr_frm : ℕ
csr_frm = 0x002

abbrev pub csr_fcsr : ℕ
csr_fcsr = 0x003

abbrev pub csr_uie : ℕ
csr_uie = 0x004

abbrev pub csr_utvec : ℕ
csr_utvec = 0x005

abbrev pub csr_uscratch : ℕ
csr_uscratch = 0x040

abbrev pub csr_uepc : ℕ
csr_uepc = 0x041

abbrev pub csr_ucause : ℕ
csr_ucause = 0x042

abbrev pub csr_utval : ℕ
csr_utval = 0x043

abbrev pub csr_uip : ℕ
csr_uip = 0x044

abbrev pub csr_sstatus : ℕ
csr_sstatus = 0x100

abbrev pub csr_sedeleg : ℕ
csr_sedeleg = 0x102

abbrev pub csr_sideleg : ℕ
csr_sideleg = 0x103

abbrev pub csr_sie : ℕ
csr_sie = 0x104

abbrev pub csr_stvec : ℕ
csr_stvec = 0x105

abbrev pub csr_scounteren : ℕ
csr_scounteren = 0x106

abbrev pub csr_senvcfg : ℕ
csr_senvcfg = 0x10a

abbrev pub csr_sscratch : ℕ
csr_sscratch = 0x140

abbrev pub csr_sepc : ℕ
csr_sepc = 0x141

abbrev pub csr_scause : ℕ
csr_scause = 0x142

abbrev pub csr_stval : ℕ
csr_stval = 0x143

abbrev pub csr_sip : ℕ
csr_sip = 0x144

abbrev pub csr_satp : ℕ
csr_satp = 0x180

abbrev pub csr_mvendorid : ℕ
csr_mvendorid = 0xf11

abbrev pub csr_marchid : ℕ
csr_marchid = 0xf12

abbrev pub csr_mimpid : ℕ
csr_mimpid = 0xf13

abbrev pub csr_mhartid : ℕ
csr_mhartid = 0xf14

abbrev pub csr_mconfigptr : ℕ
csr_mconfigptr = 0xf15

abbrev pub csr_pmpcfg0 : ℕ
csr_pmpcfg0 = 0x3a0

abbrev pub csr_pmpcfg1 : ℕ
csr_pmpcfg1 = 0x3a1

abbrev pub csr_pmpcfg2 : ℕ
csr_pmpcfg2 = 0x3a2

abbrev pub csr_pmpcfg3 : ℕ
csr_pmpcfg3 = 0x3a3

abbrev pub csr_pmpcfg4 : ℕ
csr_pmpcfg4 = 0x3a4

abbrev pub csr_pmpcfg5 : ℕ
csr_pmpcfg5 = 0x3a5

abbrev pub csr_pmpcfg6 : ℕ
csr_pmpcfg6 = 0x3a6

abbrev pub csr_pmpcfg7 : ℕ
csr_pmpcfg7 = 0x3a7

abbrev pub csr_pmpaddr0 : ℕ
csr_pmpaddr0 = 0x3b0

abbrev pub csr_mstatus : ℕ
csr_mstatus = 0x300

abbrev pub csr_misa : ℕ
csr_misa = 0x301

abbrev pub csr_medeleg : ℕ
csr_medeleg = 0x302

abbrev pub csr_mideleg : ℕ
csr_mideleg = 0x303

abbrev pub csr_mie : ℕ
csr_mie = 0x304

abbrev pub csr_mtvec : ℕ
csr_mtvec = 0x305

abbrev pub csr_mcounteren : ℕ
csr_mcounteren = 0x306

abbrev pub csr_mcountinhibit : ℕ
csr_mcountinhibit = 0x320

abbrev pub csr_mstatush : ℕ
csr_mstatush = 0x310

abbrev pub csr_menvcfg : ℕ
csr_menvcfg = 0x30a

abbrev pub csr_menvcfgh : ℕ
csr_menvcfgh = 0x31a

abbrev pub csr_mstateen0 : ℕ
csr_mstateen0 = 0x30c

abbrev pub csr_mstateen1 : ℕ
csr_mstateen1 = 0x30d

abbrev pub csr_mstateen2 : ℕ
csr_mstateen2 = 0x30e

abbrev pub csr_mstateen3 : ℕ
csr_mstateen3 = 0x30f

abbrev pub csr_mseccfg : ℕ
csr_mseccfg = 0x747

abbrev pub csr_mscratch : ℕ
csr_mscratch = 0x340

abbrev pub csr_mepc : ℕ
csr_mepc = 0x341

abbrev pub csr_mcause : ℕ
csr_mcause = 0x342

abbrev pub csr_mtval : ℕ
csr_mtval = 0x343

abbrev pub csr_mip : ℕ
csr_mip = 0x344

abbrev pub csr_mtinst : ℕ
csr_mtinst = 0x34a

abbrev pub csr_mtval2 : ℕ
csr_mtval2 = 0x34b

abbrev pub csr_mcycle : ℕ
csr_mcycle = 0xb00

abbrev pub csr_minstret : ℕ
csr_minstret = 0xb02

abbrev pub csr_cycle : ℕ
csr_cycle = 0xc00

abbrev pub csr_time : ℕ
csr_time = 0xc01

abbrev pub csr_instret : ℕ
csr_instret = 0xc02

abbrev pub csr_hpmcounter3 : ℕ
csr_hpmcounter3 = 0xc03

abbrev pub csr_mhpmcounter3 : ℕ
csr_mhpmcounter3 = 0xb03

abbrev pub mstatus_tsr : ℕ
mstatus_tsr = 2 ^ 22

abbrev pub mstatus_uxl_mask : ℕ
mstatus_uxl_mask = 3 * 2 ^ 32

abbrev pub mstatus_sxl_mask : ℕ
mstatus_sxl_mask = 3 * 2 ^ 34

abbrev pub mstatus_sd : ℕ
mstatus_sd = 2 ^ 63

abbrev pub mip_ssip : ℕ
mip_ssip = 2 ^ 1

abbrev pub mip_msip : ℕ
mip_msip = 2 ^ 3

abbrev pub mip_stip : ℕ
mip_stip = 2 ^ 5

abbrev pub mip_mtip : ℕ
mip_mtip = 2 ^ 7

abbrev pub mip_seip : ℕ
mip_seip = 2 ^ 9

abbrev pub mip_meip : ℕ
mip_meip = 2 ^ 11

abbrev pub mstatus_uie : ℕ
mstatus_uie = 2 ^ 0

abbrev pub mstatus_sie : ℕ
mstatus_sie = 2 ^ 1

abbrev pub mstatus_mie : ℕ
mstatus_mie = 2 ^ 3

abbrev pub mstatus_upie : ℕ
mstatus_upie = 2 ^ 4

abbrev pub mstatus_spie : ℕ
mstatus_spie = 2 ^ 5

abbrev pub mstatus_mpie : ℕ
mstatus_mpie = 2 ^ 7

abbrev pub mstatus_spp : ℕ
mstatus_spp = 2 ^ 8

abbrev pub mstatus_mpp_shift : ℕ
mstatus_mpp_shift = 11

abbrev pub mstatus_mpp_mask : ℕ
mstatus_mpp_mask = 3 * 2 ^ 11

abbrev pub mstatus_mprv : ℕ
mstatus_mprv = 2 ^ 17

abbrev pub mstatus_fs_mask : ℕ
mstatus_fs_mask = 3 * 2 ^ 13

abbrev pub mstatus_xs_mask : ℕ
mstatus_xs_mask = 3 * 2 ^ 15

abbrev pub mstatus_sum : ℕ
mstatus_sum = 2 ^ 18

abbrev pub mstatus_mxr : ℕ
mstatus_mxr = 2 ^ 19

abbrev pub mstatus_tvm : ℕ
mstatus_tvm = 2 ^ 20

abbrev pub mstatus_tw : ℕ
mstatus_tw = 2 ^ 21
