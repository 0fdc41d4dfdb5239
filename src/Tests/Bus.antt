-- ===== src/Tests/Bus.antt =====
-- The theorems on the bus of internal/mem and on the rings of the logs.
use rvwasm.Base.{true, ◌≡◌, ◌^◌, ◌%◌, ◌*◌, ◌-◌, refl, List, [], ◌∷◌, some, arith, inr}
use rvwasm.Ring.{recent}
use rvwasm.Ring.Recent.{fill, window, shown, recent-fill}
use rvwasm.Mem.Bus.{Region, in_dram, read, write, find_region}
use rvwasm.Mem.Bus.Memory.{read-write, read-write_apart}
use rvwasm.Mem.Bus.Regions.{IsFound, find_region-IsFound}
use rvwasm.Tests.Machine.{no_devices, machine_bus}

-- The store that a watchpoint sees.
inside : in_dram machine_bus 0x8000_0100 8 ≡ true
unfolding in_dram
inside = refl

inside_too : in_dram machine_bus 0x8000_0108 4 ≡ true
unfolding in_dram
inside_too = refl

read-write_example :
    (read no_devices
      (write no_devices machine_bus 0x8000_0100 8 0x1_2345_6789).after
      0x8000_0100
      8).value
    ≡ some (0x1_2345_6789 % 256 ^ 8)
read-write_example = read-write no_devices machine_bus 0x8000_0100 8 0x1_2345_6789 inside refl

read-write_apart_example :
    (read no_devices
      (write no_devices machine_bus 0x8000_0100 8 0x1_2345_6789).after
      0x8000_0108
      4).value
    ≡ (read no_devices machine_bus 0x8000_0108 4).value
read-write_apart_example =
    read-write_apart no_devices machine_bus 0x8000_0100 8 0x1_2345_6789 0x8000_0108 4 inside refl
      inside_too refl (inr (omega arith))

abbrev two_regions : List Region
two_regions =
    record { base = 0x0200_0000; size = 0x1_0000; dev = 0; name = 1 }
    ∷ record { base = 0x1000_0000; size = 0x100; dev = 1; name = 2 }
    ∷ []

find_region-IsFound_example :
    IsFound 0x1000_0005 1 two_regions (find_region 0x1000_0005 1 two_regions)
find_region-IsFound_example =
    find_region-IsFound 0x1000_0005 1 two_regions (omega arith) (omega arith, (omega arith, tt))

-- The wrap of `addr + size`: the last eight bytes of the address space count as within any region.
wraps :
    find_region 0xffff_ffff_ffff_fff8 8 two_regions
    ≡ some (record { base = 0x0200_0000; size = 0x1_0000; dev = 0; name = 1 })
unfolding find_region
wraps = refl

-- Seven writes of squares to a ring of four, of which a reader asks for three.
recent-fill_example :
    recent 4 (fill 4 (λ i. i * i) 7) 3
    ≡ window 4 (λ i. i * i) (7 - shown 4 (λ i. i * i) 7 3) (shown 4 (λ i. i * i) 7 3)
recent-fill_example = recent-fill 4 (λ i. i * i) 7 3
