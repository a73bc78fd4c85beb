-- ===== src/Fd/Install.antt =====
-- `fdtable_install`: which slot an entry gets.
use lapis.Base.{
  ℕ, suc, ◌+◌, ◌-◌, ◌<◌, ◌≤◌, ◌≡◌, refl, ◌≢◌, sym, ap, ◌∙◌, Bool, true, false, Option, some, none,
  ◌==◌, if◌then◌else◌, arith, length, Bool-cases, inl, inr, mod32, test_ne, Option-cases, ℤ, pos,
  ◌||◌, length-append, length-replicate,
}
use lapis.Fd.{
  Fds, slot, put_entry, fdtable_grow, grown_capacity, fdtable_install, first_free, is_ok,
  fd_table_max,
}
use lapis.Fd.Slots.{
  uses, uses-append_zeros, slot-append_zeros, first_free_at, first_free-none, slot-outside,
  slot-set_self, slot-set_ne,
}
use lapis.Fd.Refs.{slots, Counted}
use lapis.Fd.Keeps.{put-Counted, slots-put, grow-Counted, grow-slots, grow-ok, wide}

module _ (ok : Bool) (t e : ℕ) (s : Fds) (tz : t ≢ 0) (z : e ≢ 0) where
  abbrev n : ℕ
  n = length (slots t s)

  abbrev grown : ℤ × Fds
  grown = fdtable_grow ok t (n + 1) s

  guard : (t == 0 || e == 0) ≡ false
  guard = rw (test_ne t 0 tz, test_ne e 0 z) refl

  abbrev by_slot : Option ℕ → ℤ × Fds
  by_slot o = elim o [
    | some i ↦ (pos i, put_entry t i e s)
    | none ↦ if is_ok grown.0 then (pos n, put_entry t n e grown.1) else (grown.0, s)
  ]

  install-slot : fdtable_install ok t e s ≡ by_slot (first_free 0 (slots t s))
  unfolding fdtable_install
  install-slot = rw guard refl

  pub install_free :
      (i : ℕ)
      → first_free 0 (slots t s) ≡ some i
      → fdtable_install ok t e s ≡ (pos i, put_entry t i e s)
  install_free i h = install-slot ∙ ap by_slot h

  pub install_grown :
      first_free 0 (slots t s) ≡ none
      → is_ok grown.0 ≡ true
      → fdtable_install ok t e s ≡ (pos n, put_entry t n e grown.1)
  install_grown h g = install-slot ∙ ap by_slot h ∙ (rw g refl)

  pub install_fails :
      first_free 0 (slots t s) ≡ none
      → is_ok grown.0 ≡ false
      → fdtable_install ok t e s ≡ (grown.0, s)
  install_fails h g = install-slot ∙ ap by_slot h ∙ (rw g refl)

  -- The first slot behind the old ones is free and in the table.
  new_slot : is_ok grown.0 ≡ true → (n < length (slots t grown.1)) × (slot (slots t grown.1) n ≡ 0)
  new_slot g =
      let w = grow-slots ok t (n + 1) s g in
      (
        rw (w.0, length-append, length-replicate) (behind (wide n (n + 1) w.1)),
        rw (w.0, slot-append_zeros) (slot-outside n (slots t s) (omega arith)),
      )
    where
      behind : {c : ℕ} → n + 1 ≤ c → n < n + (c - n)
      behind k = omega arith

  -- An installation of an entry in a table, neither of them NULL, keeps exact counts that have room
  -- exact, whether it finds a slot or not.
  pub install-Counted :
      (ext : ℕ → ℕ)
      → Counted t s ext
      → suc (uses e (slots t s) + ext e) < mod32
      → Counted t (fdtable_install ok t e s).1 ext
  install-Counted ext c room = elim (Option-cases (first_free 0 (slots t s))) [
    | inr (i, h) ↦
        let f = first_free_at i (slots t s) h in
        rw (install_free i h) (put-Counted t e i s z ext c f.0 f.1 room)
    | inl h ↦ elim (Bool-cases (is_ok grown.0)) [
      | inr g ↦ rw (install_fails h g) c
      | inl g ↦
          let w = grow-slots ok t (n + 1) s g in
          rw (install_grown h g) (
            put-Counted t e n grown.1 z ext (grow-Counted ok t (n + 1) s ext c) (new_slot g).0
              (new_slot g).1
              (rw (w.0, uses-append_zeros e (grown_capacity n (n + 1) - n) (slots t s) z) room))
    ]
  ]

-- With memory at hand and fewer descriptors than the most in a table that is not NULL, an entry
-- that is not NULL gets the lowest free descriptor, and the other descriptors keep theirs.
pub install-lowest :
    (t e : ℕ) (s : Fds)
    → t ≢ 0
    → e ≢ 0
    → length (slots t s) < fd_table_max
    → (i : ℕ) × ((fdtable_install true t e s).0 ≡ pos i)
      × (slot (slots t (fdtable_install true t e s).1) i ≡ e)
      × (slot (slots t s) i ≡ 0)
      × ((k : ℕ) → k < i → slot (slots t s) k ≢ 0)
      × ((k : ℕ) → k ≢ i → slot (slots t (fdtable_install true t e s).1) k ≡ slot (slots t s) k)
install-lowest t e s tz z small = elim (Option-cases (first_free 0 (slots t s))) [
  | inr (i, h) ↦
      let f = first_free_at i (slots t s) h in
      rw (install_free true t e s tz z i h, slots-put t e i s z)
        (
          i,
          refl,
          slot-set_self e i (slots t s) f.0,
          f.1,
          f.2,
          λ k ne. slot-set_ne e i k (slots t s) (λ q. ne (sym q)),
        )
  | inl h ↦
      let n = length (slots t s) in
      let g = grow-ok t (n + 1) s (omega arith) in
      let w = grow-slots true t (n + 1) s g in
      let r = (fdtable_grow true t (n + 1) s).1 in
      let at = new_slot true t e s tz z g in
      rw (install_grown true t e s tz z h g, slots-put t e n r z)
        (
          n,
          refl,
          slot-set_self e n (slots t r) at.0,
          slot-outside n (slots t s) (omega arith),
          first_free-none 0 (slots t s) h,
          λ k ne.
              slot-set_ne e n k (slots t r) (λ q. ne (sym q)) ∙ (rw (w.0, slot-append_zeros) refl),
        )
]
