-- ===== src/Mm/PfnDb/Tests.antt =====
-- A machine with four page frames above the first megabyte and a hole below them.
use lapis.Base.{◌≡◌, refl, true, false, List, [], ◌∷◌, arith, ◌==◌, if◌then◌else◌}
use lapis.Mm.Page.{no_flags}
use lapis.Mm.PfnDb.{Region, MemMap, reserved_flags, fill}
use lapis.Mm.PfnDb.Boot.{covered, fill_lem}

abbrev regions : List Region
regions =
    record { base = 0; length = 0x1000; usable = false }
    ∷ (record { base = 0x1000; length = 0x4000; usable = true } ∷ [])

abbrev garbage : MemMap
garbage i = record { next = 1; u2 = 2; flags = record no_flags { dirty = true }; refcount = 3 }

frame2 : covered 2 regions ≡ true
unfolding covered
frame2 = refl

fill_lem_example :
    ((fill 0x8000 4 regions garbage 2).flags ≡ (
      if 2 == 0
      then reserved_flags
      else if covered 2 regions
      then record no_flags { free = true }
      else reserved_flags))
    × ((fill 0x8000 4 regions garbage 2).refcount ≡ 0)
fill_lem_example = fill_lem 0x8000 4 2 regions garbage (omega arith)
