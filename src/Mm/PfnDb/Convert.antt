-- ===== src/Mm/PfnDb/Convert.antt =====
-- Frames, physical addresses and descriptors name each other.
use lapis.Base.{
  ℕ, ◌+◌, ◌-◌, ◌*◌, ◌/◌, ◌%◌, ◌<◌, ◌≤◌, ◌≡◌, refl, ◌≢◌, false, ◌||◌, ◌==◌, if◌then◌else◌, arith,
  ltb, mod64,
}
use lapis.Mm.Page.{sizeof_page, page_size}
use lapis.Mm.PfnDb.{getptr, getpfn, page_to_phys, phys_to_page, pfnaddr, outside}

module _ (db max pfn : ℕ) (z : db ≢ 0) (k : pfn ≤ max) where
  ptr : getptr db max pfn ≡ db + sizeof_page * pfn
  unfolding getptr
  ptr = ground arith

  inside : outside db max (db + sizeof_page * pfn) ≡ false
  unfolding outside
  inside = ground arith

  index : (db + sizeof_page * pfn - db) / sizeof_page ≡ pfn
  index = omega arith

  set : (db + sizeof_page * pfn == 0 || db == 0) ≡ false
  set = ground arith

  -- The frame of a descriptor is the one that it was looked up for, if the database is there and
  -- has the frame.
  pub getpfn-getptr : getpfn db max (getptr db max pfn) ≡ pfn
  unfolding getpfn
  getpfn-getptr = rw (ptr, set, inside, index) refl

  -- The descriptor of a frame of the database has the physical address of the frame, if that frame
  -- lies within 64 bits, and the address leads back to the descriptor, wherever it lies in the
  -- page.
  pub page_to_phys-getptr :
      (offset : ℕ)
      → offset < page_size
      → pfn * page_size + page_size ≤ mod64
      → (page_to_phys db max (getptr db max pfn) ≡ pfn * page_size)
        × (page_to_phys db max (getptr db max pfn) ≡ pfnaddr max pfn)
        × (phys_to_page db max (page_to_phys db max (getptr db max pfn) + offset)
            ≡ getptr db max pfn)
  unfolding page_to_phys pfnaddr phys_to_page
  page_to_phys-getptr offset o b = rw (ptr, set, inside, index) (exact, known, back)
    where
      exact : pfn * page_size % mod64 ≡ pfn * page_size
      exact = omega arith

      known : pfn * page_size % mod64 ≡ (if ltb max pfn then 0 else pfn * page_size % mod64)
      known = ground arith

      frame : (pfn * page_size % mod64 + offset) / page_size ≡ pfn
      frame = omega arith

      back : getptr db max ((pfn * page_size % mod64 + offset) / page_size) ≡ db + sizeof_page * pfn
      back = rw frame ptr
