-- ===== src/Mm/PfnDb/Boot.antt =====
-- What the database says of each frame once it is built.
use lapis.Base.{
  ℕ, zero, suc, ◌+◌, ◌-◌, ◌*◌, ◌%◌, ◌<◌, ◌≤◌, ◌≡◌, refl, ◌≢◌, ap, ◌∙◌, Bool, true, false, List, [],
  ◌∷◌, ◌&&◌, ◌||◌, ◌==◌, if◌then◌else◌, arith, ltb, leb, put, Bool-cases, inl, inr, eq_of_test,
  ne_of_test, test_self, mod64,
}
use lapis.Mm.Page.{Flags, Page, no_flags, page_size}
use lapis.Mm.PfnDb.{
  Region, MemMap, reserved_flags, blank_page, blank_loop, freed, free_loop, free_regions,
  start_frame, end_frame, fill, max_loop, calc_max_pfn, end_pfn,
}

-- A usable region has the last byte of the frame `i`: it begins at one of the bytes below
-- (i + 1) * 4096, and ends there or behind.
unfoldable pub covered : ℕ → List Region → Bool
covered i [] = false
covered i (r ∷ rs) =
    let upto = (i + 1) * 4096 in
    (r.usable && (ltb r.base upto && leb upto ((r.base + r.length) % mod64))) || covered i rs

-- The test by bytes is the one by frames.
bytes-frames :
    (i : ℕ) (r : Region)
    → (ltb r.base ((i + 1) * 4096) && leb ((i + 1) * 4096) ((r.base + r.length) % mod64))
      ≡ (leb (start_frame r) i && ltb i (end_frame r))
unfolding start_frame end_frame
bytes-frames i r = ground arith

free_loop_lem :
    (n pfn max i : ℕ) (mem : MemMap)
    → free_loop n pfn max mem i
      ≡ (if leb pfn i && (ltb i (pfn + n) && leb i max) then freed (mem i) else mem i)
unfolding free_loop put
free_loop_lem zero pfn max i mem = ground arith
free_loop_lem (suc n) pfn max i mem = elim (Bool-cases (leb pfn max)) [
  | inr h ↦ rw h (ground arith)
  | inl h ↦
      rw (h, free_loop_lem n (suc pfn) max i (put mem pfn (freed (mem pfn))))
        (elim (Bool-cases (i == pfn)) [
          | inl e ↦ rw (eq_of_test i pfn e, test_self pfn) (at_start h)
          | inr e ↦ rw e (elsewhere (ne_of_test i pfn e))
        ])
]
  where
    at_start :
        leb pfn max ≡ true
        → (if leb (suc pfn) pfn && (ltb pfn (suc pfn + n) && leb pfn max)
            then freed (freed (mem pfn))
            else freed (mem pfn))
          ≡ (if leb pfn pfn && (ltb pfn (pfn + suc n) && leb pfn max)
              then freed (mem pfn)
              else mem pfn)
    at_start h = ground arith

    elsewhere :
        i ≢ pfn
        → (if leb (suc pfn) i && (ltb i (suc pfn + n) && leb i max) then freed (mem i) else mem i)
          ≡ (if leb pfn i && (ltb i (pfn + suc n) && leb i max) then freed (mem i) else mem i)
    elsewhere ne = ground arith

-- A region with no frames is none; the frames of the others are those from its first to its last.
region_lem :
    (r : Region) (max i : ℕ) (mem : MemMap)
    → free_loop (end_frame r - start_frame r) (start_frame r) max mem i ≡ (
        if (leb (start_frame r) i && ltb i (end_frame r)) && leb i max
        then freed (mem i)
        else mem i)
region_lem r max i mem =
    free_loop_lem (end_frame r - start_frame r) (start_frame r) max i mem ∙ ground arith

free_regions_lem :
    (rs : List Region) (max i : ℕ) (mem : MemMap)
    → free_regions rs max mem i ≡ (if covered i rs && leb i max then freed (mem i) else mem i)
unfolding free_regions covered
free_regions_lem [] max i mem = refl
free_regions_lem (r ∷ rs) max i mem =
    rw (bytes-frames i r) (by_use (λ mem'. free_regions_lem rs max i mem') r.usable)
  where
    merge :
        (a b c : Bool) (p : Page)
        → (if b && c
            then freed (if a && c then freed p else p)
            else (if a && c then freed p else p))
          ≡ (if (a || b) && c then freed p else p)
    merge true true true p = refl
    merge true true false p = refl
    merge true false true p = refl
    merge true false false p = refl
    merge false true true p = refl
    merge false true false p = refl
    merge false false true p = refl
    merge false false false p = refl

    loop : MemMap
    loop = free_loop (end_frame r - start_frame r) (start_frame r) max mem

    by_use :
        ((mem' : MemMap)
          → free_regions rs max mem' i
            ≡ (if covered i rs && leb i max then freed (mem' i) else mem' i))
        → (u : Bool)
        → free_regions rs max (if u then loop else mem) i ≡ (
            if ((u && (leb (start_frame r) i && ltb i (end_frame r))) || covered i rs) && leb i max
            then freed (mem i)
            else mem i)
    by_use later false = later mem
    by_use later true =
        later loop
        ∙ ap (λ p. if covered i rs && leb i max then freed p else p) (region_lem r max i mem)
        ∙ merge (leb (start_frame r) i && ltb i (end_frame r)) (covered i rs) (leb i max) (mem i)

blank_loop_lem :
    (n db max i : ℕ) (mem : MemMap)
    → i < n
    → ((blank_loop n db max mem i).flags ≡ reserved_flags)
      × ((blank_loop n db max mem i).refcount ≡ 0)
unfolding blank_loop blank_page put
blank_loop_lem zero db max i mem k = absurd (none k)
  where
    none : {i : ℕ} → i < 0 → ⊥
    none k = omega arith
blank_loop_lem (suc n) db max i mem k = elim (Bool-cases (i == n)) [
  | inl e ↦ rw e (refl, refl)
  | inr e ↦ rw e (blank_loop_lem n db max i mem (below k (ne_of_test i n e)))
]
  where
    below : {i n : ℕ} → i < suc n → i ≢ n → i < n
    below k ne = omega arith

-- The flags of a frame `i` of the database once it is built: FREE if `i` is not 0 and a usable region
-- begins below (i + 1) * 4096 and ends, modulo 2 ^ 64, at this address or behind; RESERVED for every
-- other frame. No frame has references.
pub fill_lem :
    (db max i : ℕ) (rs : List Region) (mem : MemMap)
    → i ≤ max
    → ((fill db max rs mem i).flags ≡ (
        if i == 0
        then reserved_flags
        else if covered i rs
        then record no_flags { free = true }
        else reserved_flags))
      × ((fill db max rs mem i).refcount ≡ 0)
unfolding fill put
fill_lem db max i rs mem k =
    let b = blank_loop_lem (max + 1) db max i mem (omega arith) in
    elim (Bool-cases (i == 0)) [
      | inl e ↦ rw e (refl, refl)
      | inr e ↦
          rw (e, free_regions_lem rs max i (blank_loop (max + 1) db max mem))
            (result (covered i rs) (leb i max) (ground arith) (blank_loop (max + 1) db max mem i)
              b.0 b.1)
    ]
  where
    result :
        (a c : Bool) (h : c ≡ true) (p : Page)
        → p.flags ≡ reserved_flags
        → p.refcount ≡ 0
        → ((if a && c then freed p else p).flags
            ≡ (if a then record no_flags { free = true } else reserved_flags))
          × ((if a && c then freed p else p).refcount ≡ 0)
    result true true h p f r =
        (ap (λ (fl : Flags). record fl { free = true; allocated = false; reserved = false }) f, r)
    result false true h p f r = (f, r)
    result a false h p f r = ground arith

max_loop-grows : (m : ℕ) (rs : List Region) → m ≤ max_loop m rs
unfolding max_loop
max_loop-grows m [] = omega arith
max_loop-grows m (r ∷ rs) = by_use (λ m'. max_loop-grows m' rs) r.usable
  where
    onward : {a b c : ℕ} → a ≤ b → b ≤ c → a ≤ c
    onward k l = omega arith

    wider : (a b : ℕ) → a ≤ (if ltb a b then b else a)
    wider a b = ground arith

    by_use :
        ((m' : ℕ) → m' ≤ max_loop m' rs)
        → (u : Bool)
        → m ≤ max_loop (if u then (if ltb m (end_pfn r) then end_pfn r else m) else m) rs
    by_use later false = later m
    by_use later true =
        onward (wider m (end_pfn r)) (later (if ltb m (end_pfn r) then end_pfn r else m))

-- No region reaches the end of the address space.
abbrev pub Fit : List Region → Type 0
Fit [] = Unit {0}
Fit (r ∷ rs) = (r.base + r.length + page_size ≤ mod64) × Fit rs

max_loop-covers : (m i : ℕ) (rs : List Region) → Fit rs → covered i rs ≡ true → i < max_loop m rs
unfolding max_loop covered end_frame end_pfn
max_loop-covers m i [] f c = ground arith
max_loop-covers m i (r ∷ rs) (f, fs) c =
    by_use (λ m' h. max_loop-covers m' i rs fs h) r.usable (rw (bytes-frames i r) at c)
  where
    onward : {a b c : ℕ} → a < b → b ≤ c → a < c
    onward k l = omega arith

    top : (a b : ℕ) → b ≤ (if ltb a b then b else a)
    top a b = ground arith

    trans_le : {a b c : ℕ} → a ≤ b → b ≤ c → a ≤ c
    trans_le k l = omega arith

    frame : i < end_frame r → i < end_pfn r
    frame k = omega arith

    by_use :
        ((m' : ℕ) → covered i rs ≡ true → i < max_loop m' rs)
        → (u : Bool)
        → ((u && (leb (start_frame r) i && ltb i (end_frame r))) || covered i rs) ≡ true
        → i < max_loop (if u then (if ltb m (end_pfn r) then end_pfn r else m) else m) rs
    by_use later false c = later m c
    by_use later true c = elim (Bool-cases (covered i rs)) [
      | inl h ↦ later (if ltb m (end_pfn r) then end_pfn r else m) h
      | inr h ↦ onward (frame (ground arith)) (
          trans_le (top m (end_pfn r))
            (max_loop-grows (if ltb m (end_pfn r) then end_pfn r else m) rs))
    ]

-- If no region reaches the end of the address space, every frame of a usable region has a number
-- below `calc_max_pfn`, so the database has it.
pub calc_max_pfn-covers :
    (i : ℕ) (rs : List Region) → Fit rs → covered i rs ≡ true → i < calc_max_pfn rs
unfolding calc_max_pfn
calc_max_pfn-covers i rs f c = max_loop-covers 0 i rs f c
