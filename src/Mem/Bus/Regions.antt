-- ===== src/Mem/Bus/Regions.antt =====
-- Which region an access to a device goes to (`findRegion` in internal/mem/bus.go).
use rvwasm.Base.{
  ℕ, ◌+◌, ◌^◌, ◌≤◌, ◌<◌, Option, none, some, List, [], ◌∷◌, arith, ◌&&◌, leb, add64, Bool-cases,
  inl, inr,
}
use rvwasm.Mem.Bus.{Region, find_region}

-- The access from `addr` on lies in the region, as intervals of numbers that do not wrap.
abbrev pub IsWithin : ℕ → ℕ → Region → Type 0
IsWithin addr size r = (r.base ≤ addr) × (addr + size ≤ r.base + r.size)

-- No region reaches the end of the address space.
abbrev pub AllFit : List Region → Type 0
AllFit [] = Unit {0}
AllFit (r ∷ rs) = (r.base + r.size < 2 ^ 64) × AllFit rs

-- What the search answers is right: a region that it finds has the access within it, and when it
-- finds none then no region has.
abbrev pub IsFound : ℕ → ℕ → List Region → Option Region → Type 0
IsFound addr size rs (some r) = IsWithin addr size r
IsFound addr size [] none = Unit {0}
IsFound addr size (r ∷ rs) none = (¬ IsWithin addr size r) × IsFound addr size rs none

further :
    (addr size : ℕ) (r : Region) (rs : List Region) (o : Option Region)
    → ¬ IsWithin addr size r
    → IsFound addr size rs o
    → IsFound addr size (r ∷ rs) o
further addr size r rs none n q = (n, q)
further addr size r rs (some s) n q = q

-- When neither the access nor any region reaches the end of the address space, the region that the
-- bus finds has the whole access within it, and the bus finds none only if no region has.
pub find_region-IsFound :
    (addr size : ℕ) (rs : List Region)
    → addr + size < 2 ^ 64
    → AllFit rs
    → IsFound addr size rs (find_region addr size rs)
unfolding find_region
find_region-IsFound addr size [] room fit = tt
find_region-IsFound addr size (r ∷ rs) room fit =
    elim (Bool-cases (leb r.base addr && leb (add64 addr size) (add64 r.base r.size))) [
      | inl e ↦ rw e (ground (arith, e, room, fit.0))
      | inr e ↦ rw e (
          further addr size r rs (find_region addr size rs) (λ w. ground (arith, e, room, fit.0, w))
            (find_region-IsFound addr size rs room fit.1))
    ]
