-- ===== src/Cpu/Mmu/Keeps.antt =====
-- Memory accesses (internal/cpu/mmu.go) and a property of the hart. An access changes the hart in three
-- ways: it replaces the bus, it takes signals of devices, and it fills the PMP cache.
use rvwasm.Base.{
  ℕ, zero, suc, ◌+◌, ◌*◌, Bool, ◌||◌, List, [], ◌∷◌, Option, none, some, bit_and, bit_or, low,
  ◌>>>◌, shl64, add64, ◌==◌, if-keeps, arith,
}
use rvwasm.Cpu.Hart.{Hart, Platform, Access}
use rvwasm.Cpu.Csr.{set_pending}
use rvwasm.Cpu.Pmp.{refresh_pmp_active, cached_pmp, check_pmp}
use rvwasm.Cpu.Access.{AccessKind, AccessError, Result, ok, err, Action, pure, or_fail, ◌>>=◌}
use rvwasm.Cpu.Addr
use rvwasm.Cpu.Mmu.{
  leaf_ppn, vpn, page_size, effective_priv, needed, walk_fault, use_entry, deliver, finish,
  require_pmp, bus_read, bus_read_no_trace, bus_write, set_used, use_leaf, walk, translate, locate,
  read_bytes, read_through, read_virtual, read_virtual_fetch, write_bytes, write_virtual,
}

module _ {S : Type 0} where
  pub record IsAccessInvariant (P : Hart S → Type 0) : Type 0 where
    pub keeps_bus : (h : Hart S) (b : S) → P h → P (record h { bus = b })
    pub keeps_pending : (h : Hart S) (mask : ℕ) (level : Bool) → P h → P (set_pending h mask level)
    pub keeps_refresh : (h : Hart S) → P h → P (refresh_pmp_active h)

  abbrev pub Keeps : {A : Type 0} → (Hart S → Type 0) → Action S A → Type 0
  Keeps P m = (h : Hart S) → P h → P (m h).1

  >>=-Keeps :
      {A B : Type 0} (P : Hart S → Type 0) (m : Action S A) (f : A → Action S B)
      → Keeps P m
      → ((a : A) → Keeps P (f a))
      → Keeps P (m >>= f)
  >>=-Keeps {A} {B} P m f km kf h q = go (m h).0 (m h).1 (km h q)
    where
      go :
          (r : Result A) (h' : Hart S)
          → P h'
          → P (elim r as (λ _. Result B × Hart S) [ ok a ↦ f a h' | err e ↦ (err e, h') ]).1
      go (ok a) h' q' = kf a h' q'
      go (err e) h' q' = q'

  or_fail-Keeps :
      {A : Type 0} (P : Hart S → Type 0) (m : Action S A) (e : AccessError)
      → Keeps P m
      → Keeps P (or_fail m e)
  or_fail-Keeps {A} P m e km h q = go (m h).0 (m h).1 (km h q)
    where
      go :
          (r : Result A) (h' : Hart S)
          → P h'
          → P (elim r as (λ _. Result A × Hart S) [ ok a ↦ (ok a, h') | err _ ↦ (err e, h') ]).1
      go (ok a) h' q' = q'
      go (err _) h' q' = q'

module _ {S : Type 0} (P : Hart S → Type 0) (inv : IsAccessInvariant P) where
  pub deliver-keeps : (signals : List (ℕ × Bool)) (h : Hart S) → P h → P (deliver signals h)
  unfolding deliver
  deliver-keeps [] h q = q
  deliver-keeps ((mask, level) ∷ signals) h q =
      deliver-keeps signals (set_pending h mask level) (inv.keeps_pending h mask level q)

  finish-Keeps : (a : Access S) → Keeps P (finish a)
  unfolding finish
  finish-Keeps a h q =
      go a.value (deliver-keeps a.signals (record h { bus = a.after }) (inv.keeps_bus h a.after q))
    where
      go :
          (v : Option ℕ) {h' : Hart S}
          → P h'
          → P
              (elim v as (λ _. Result ℕ × Hart S) [
                | none ↦ (err AccessError.bus_fault, h')
                | some w ↦ (ok w, h')
              ]).1
      go none q' = q'
      go (some w) q' = q'

  cached_pmp-keeps : (h : Hart S) → P h → P (cached_pmp h)
  unfolding cached_pmp
  cached_pmp-keeps h q = if-keeps P (h.pmp_active || h.pmp_checked) q (inv.keeps_refresh h q)

  require_pmp-Keeps :
      (pa size : ℕ) (k : AccessKind) (priv : ℕ) → Keeps P (require_pmp pa size k priv)
  unfolding require_pmp check_pmp
  require_pmp-Keeps pa size k priv h q = go (check_pmp h pa size k priv).0 (cached_pmp-keeps h q)
    where
      go :
          (e : Option AccessError) {h' : Hart S}
          → P h'
          → P
              (elim e as (λ _. Result (Unit {0}) × Hart S) [
                | none ↦ (ok tt, h')
                | some fault ↦ (err fault, h')
              ]).1
      go none q' = q'
      go (some fault) q' = q'

module _ {S : Type 0} (P : Hart S → Type 0) (inv : IsAccessInvariant P) (p : Platform S) where
  abbrev Ends : {A : Type 0} → Result A × Hart S → Type 0
  Ends r = P r.1

  bus_read-Keeps : (addr size : ℕ) → Keeps P (bus_read p addr size)
  unfolding bus_read
  bus_read-Keeps addr size h q = finish-Keeps P inv (p.read h.bus addr size) h q

  bus_read_no_trace-Keeps : (addr size : ℕ) → Keeps P (bus_read_no_trace p addr size)
  unfolding bus_read_no_trace
  bus_read_no_trace-Keeps addr size h q = finish-Keeps P inv (p.read_no_trace h.bus addr size) h q

  bus_write-Keeps : (addr size val : ℕ) → Keeps P (bus_write p addr size val)
  unfolding bus_write
  bus_write-Keeps addr size val h q = finish-Keeps P inv (p.write h.bus addr size val) h q

  set_used-Keeps :
      (vaddr : ℕ) (k : AccessKind) (pte_addr pte : ℕ) → Keeps P (set_used p vaddr k pte_addr pte)
  unfolding set_used
  set_used-Keeps vaddr k pte_addr pte h q =
      let used = bit_or pte (needed k) in
      let write = or_fail (bus_write p pte_addr 8 used) (walk_fault vaddr k) in
      let written =
        or_fail-Keeps P (bus_write p pte_addr 8 used) (walk_fault vaddr k)
          (bus_write-Keeps pte_addr 8 used) in
      if-keeps Ends (bit_and pte (needed k) == needed k) {x = (ok pte, h)}
        {y = (write >>= λ _. pure used) h} q
        (>>=-Keeps P write (λ _. pure used) written (λ _ h' q'. q') h q)

  use_leaf-Keeps :
      (vaddr : ℕ) (k : AccessKind) (priv level pte_addr pte : ℕ)
      → Keeps P (use_leaf p vaddr k priv level pte_addr pte)
  unfolding use_leaf
  use_leaf-Keeps vaddr k priv level pte_addr pte h q =
      let fault : Result ℕ × Hart S = (err (walk_fault vaddr k), h) in
      let place =
        λ (used : ℕ). pure {S = S} (leaf_ppn level used vaddr * page_size + low vaddr 12) in
      let used =
        >>=-Keeps P (set_used p vaddr k pte_addr pte) place (set_used-Keeps vaddr k pte_addr pte)
          (λ _ h' q'. q') h q in
      if-keeps Ends _ {x = fault} q
        (if-keeps Ends _ {x = fault} {y = (set_used p vaddr k pte_addr pte >>= place) h} q used)

  use_entry-Keeps :
      (vaddr : ℕ) (k : AccessKind) (priv level pte_addr pte : ℕ) (below : Action S ℕ)
      → Keeps P below
      → Keeps P (use_entry p vaddr k priv level pte_addr pte below)
  unfolding use_entry
  use_entry-Keeps vaddr k priv level pte_addr pte below kept h q =
      if-keeps Ends _ {x = (err (walk_fault vaddr k), h)} q (
        if-keeps Ends _ {x = below h} {y = use_leaf p vaddr k priv level pte_addr pte h} (kept h q)
          (use_leaf-Keeps vaddr k priv level pte_addr pte h q))

  walk-Keeps : (n vaddr : ℕ) (k : AccessKind) (priv pt : ℕ) → Keeps P (walk p n vaddr k priv pt)
  unfolding walk
  walk-Keeps zero vaddr k priv pt h q = q
  walk-Keeps (suc level) vaddr k priv pt h q =
      let pte_addr = pt + vpn vaddr level * 8 in
      let descend = λ (pte : ℕ). walk p level vaddr k priv (low (pte >>> 10) 44 * page_size) in
      >>=-Keeps P (or_fail (bus_read p pte_addr 8) (walk_fault vaddr k))
        (λ pte. use_entry p vaddr k priv level pte_addr pte (descend pte))
        (or_fail-Keeps P (bus_read p pte_addr 8) (walk_fault vaddr k) (bus_read-Keeps pte_addr 8))
        (λ pte.
          use_entry-Keeps vaddr k priv level pte_addr pte (descend pte)
            (walk-Keeps level vaddr k priv (low (pte >>> 10) 44 * page_size)))
        h q

  pub translate-Keeps : (vaddr : ℕ) (k : AccessKind) → Keeps P (translate p vaddr k)
  unfolding translate
  translate-Keeps vaddr k h q =
      let base = low (h.csr Addr.csr_satp) 44 * page_size in
      ground (arith, walk-Keeps 3 vaddr k (effective_priv h k) base h q)

  abbrev checked : ℕ → AccessKind → ℕ → ℕ → Action S ℕ
  checked size k priv pa = require_pmp pa size k priv >>= λ _. pure pa

  locate-Keeps : (addr size : ℕ) (k : AccessKind) (priv : ℕ) → Keeps P (locate p addr size k priv)
  unfolding locate
  locate-Keeps addr size k priv =
      >>=-Keeps P (translate p addr k) (checked size k priv) (translate-Keeps addr k) (λ pa.
        >>=-Keeps P (require_pmp pa size k priv) (λ _. pure pa)
          (require_pmp-Keeps P inv pa size k priv) (λ _ h' q'. q'))

  read_bytes-Keeps :
      (bus : ℕ → ℕ → Action S ℕ)
      → ((addr size : ℕ) → Keeps P (bus addr size))
      → (n i addr : ℕ) (k : AccessKind) (priv out : ℕ)
      → Keeps P (read_bytes p bus n i addr k priv out)
  unfolding read_bytes
  read_bytes-Keeps bus kept zero i addr k priv out h q = q
  read_bytes-Keeps bus kept (suc n) i addr k priv out h q =
      let rest = λ (b : ℕ). read_bytes p bus n (i + 1) addr k priv (bit_or out (shl64 b (8 * i))) in
      >>=-Keeps P (locate p (add64 addr i) 1 k priv) (λ pa. bus pa 1 >>= rest)
        (locate-Keeps (add64 addr i) 1 k priv)
        (λ pa.
          >>=-Keeps P (bus pa 1) rest (kept pa 1)
            (λ b. read_bytes-Keeps bus kept n (i + 1) addr k priv (bit_or out (shl64 b (8 * i)))))
        h q

  read_through-Keeps :
      (bus : ℕ → ℕ → Action S ℕ)
      → ((addr size : ℕ) → Keeps P (bus addr size))
      → (addr size : ℕ) (k : AccessKind) → Keeps P (read_through p bus addr size k)
  read_through-Keeps bus kept addr size k h q =
      let priv = effective_priv h k in
      let whole = locate p addr size k priv >>= λ pa. bus pa size in
      if-keeps Ends _ {x = (err AccessError.bus_fault, h)} q (
        if-keeps Ends _ {x = whole h} {y = read_bytes p bus size 0 addr k priv 0 h}
          (>>=-Keeps P (locate p addr size k priv) (λ pa. bus pa size)
            (locate-Keeps addr size k priv) (λ pa. kept pa size) h q)
          (read_bytes-Keeps bus kept size 0 addr k priv 0 h q))

  pub read_virtual-Keeps : (addr size : ℕ) (k : AccessKind) → Keeps P (read_virtual p addr size k)
  unfolding read_virtual
  read_virtual-Keeps addr size k = read_through-Keeps (bus_read p) bus_read-Keeps addr size k

  pub read_virtual_fetch-Keeps : (addr size : ℕ) → Keeps P (read_virtual_fetch p addr size)
  unfolding read_virtual_fetch
  read_virtual_fetch-Keeps addr size =
      read_through-Keeps (bus_read_no_trace p) bus_read_no_trace-Keeps addr size AccessKind.fetch

  write_bytes-Keeps : (n i addr priv val : ℕ) → Keeps P (write_bytes p n i addr priv val)
  unfolding write_bytes
  write_bytes-Keeps zero i addr priv val h q = q
  write_bytes-Keeps (suc n) i addr priv val h q =
      let rest = λ (_ : ℕ). write_bytes p n (i + 1) addr priv val in
      let byte = val >>> (8 * i) in
      >>=-Keeps P (locate p (add64 addr i) 1 AccessKind.store priv)
        (λ pa. bus_write p pa 1 byte >>= rest) (locate-Keeps (add64 addr i) 1 AccessKind.store priv)
        (λ pa.
          >>=-Keeps P (bus_write p pa 1 byte) rest (bus_write-Keeps pa 1 byte)
            (λ _. write_bytes-Keeps n (i + 1) addr priv val))
        h q

  pub write_virtual-Keeps : (addr size val : ℕ) → Keeps P (write_virtual p addr size val)
  unfolding write_virtual
  write_virtual-Keeps addr size val h q =
      let priv = effective_priv h AccessKind.store in
      let finally = λ (pa : ℕ). bus_write p pa size val >>= λ _. pure tt in
      if-keeps Ends _ {x = (err AccessError.bus_fault, h)} q (
        if-keeps Ends _ {x = (locate p addr size AccessKind.store priv >>= finally) h}
          {y = write_bytes p size 0 addr priv val h}
          (>>=-Keeps P (locate p addr size AccessKind.store priv) finally
            (locate-Keeps addr size AccessKind.store priv)
            (λ pa.
              >>=-Keeps P (bus_write p pa size val) (λ _. pure tt) (bus_write-Keeps pa size val)
                (λ _ h' q'. q'))
            h q)
          (write_bytes-Keeps size 0 addr priv val h q))
