-- ===== src/Fd/Ops.antt =====
-- Descriptors are looked up, closed and duplicated.
use lapis.Base.{
  ℕ, suc, ◌+◌, ◌<◌, ◌≡◌, refl, ◌≢◌, sym, ap, ◌∙◌, subst, Bool, true, arith, length, set, mod32,
  test_ne, test_self, pos,
}
use lapis.Fd.{
  Fds, slot, set_slots, fd_entry_ref, fd_entry_unref, fdtable_install, fdtable_get, fdtable_close,
  fdtable_dup, fd_table_max,
}
use lapis.Fd.Slots.{uses, slot-set_self, slot-set_ne, in_range}
use lapis.Fd.Refs.{slots, Counted, gain, ref-Counted, unref-Counted, tables-ref, tables-unref}
use lapis.Fd.Keeps.{take-Counted, slots-set}
use lapis.Fd.Install.{install-Counted, install-lowest}

module _ (t e i : ℕ) (s : Fds) (tz : t ≢ 0) (z : e ≢ 0) (held : slot (slots t s) i ≡ e) where
  get-held : fdtable_get t (pos i) s ≡ (e, fd_entry_ref e s)
  unfolding fdtable_get
  get-held = rw (test_ne t 0 tz, held) refl

  -- In a table, not NULL, with exact counts that have room, looking up an open descriptor gives its
  -- entry, with one more reference, for the caller.
  pub get-Counted :
      (ext : ℕ → ℕ)
      → Counted t s ext
      → suc (uses e (slots t s) + ext e) < mod32
      → ((fdtable_get t (pos i) s).0 ≡ e) × Counted t (fdtable_get t (pos i) s).1 (gain e ext)
  get-Counted ext c room = rw get-held (refl, ref-Counted t e s ext z c room)

  close-held :
      fdtable_close t (pos i) s ≡ (pos 0, fd_entry_unref e (set_slots t (set (slots t s) i 0) s))
  unfolding fdtable_close
  close-held = rw (test_ne t 0 tz, held, test_ne e 0 z) refl

  slots-close : slots t (fdtable_close t (pos i) s).1 ≡ set (slots t s) i 0
  slots-close = rw close-held (
      ap (λ f. (f t).slots) (tables-unref e (set_slots t (set (slots t s) i 0) s) z)
      ∙ slots-set t (set (slots t s) i 0) s)

  -- In a table, not NULL, with exact counts, closing an open descriptor frees it and no other, and
  -- gives back the reference of the table: the counts stay exact.
  pub close-Counted :
      (ext : ℕ → ℕ)
      → Counted t s ext
      → ((fdtable_close t (pos i) s).0 ≡ pos 0)
        × Counted t (fdtable_close t (pos i) s).1 ext
        × (slot (slots t (fdtable_close t (pos i) s).1) i ≡ 0)
        × ((k : ℕ) → k ≢ i → slot (slots t (fdtable_close t (pos i) s).1) k ≡ slot (slots t s) k)
  close-Counted ext c = (
    rw close-held refl,
    rw close-held (
        unref-Counted t e (set_slots t (set (slots t s) i 0) s) ext z
          (take-Counted t e i s z ext c held)),
    rw slots-close (slot-set_self 0 i (slots t s) (in_range i (slots t s) (λ w. z (sym held ∙ w)))),
    λ k ne. rw slots-close (slot-set_ne 0 i k (slots t s) (λ q. ne (sym q))),
  )

  abbrev taken : Fds
  taken = fd_entry_ref e s

  slots-taken : slots t taken ≡ slots t s
  slots-taken = ap (λ f. (f t).slots) (tables-ref e s)

  dup-held :
      (ok : Bool)
      → fdtable_dup ok t (pos i) s
        ≡ ((fdtable_install ok t e taken).0, fd_entry_unref e (fdtable_install ok t e taken).1)
  unfolding fdtable_dup
  dup-held ok = rw (get-held, test_ne e 0 z) refl

  slots-dup :
      (ok : Bool)
      → slots t (fdtable_dup ok t (pos i) s).1 ≡ slots t (fdtable_install ok t e taken).1
  slots-dup ok =
      rw (dup-held ok) (ap (λ f. (f t).slots) (tables-unref e (fdtable_install ok t e taken).1 z))

  -- In a table, not NULL, with exact counts that have room for two more, duplicating an open
  -- descriptor keeps the counts exact: the caller keeps no reference, whether the table had room or
  -- not.
  pub dup-Counted :
      (ok : Bool) (ext : ℕ → ℕ)
      → Counted t s ext
      → suc (suc (uses e (slots t s) + ext e)) < mod32
      → Counted t (fdtable_dup ok t (pos i) s).1 ext
  dup-Counted ok ext c room = rw (dup-held ok) (
      unref-Counted t e (fdtable_install ok t e taken).1 ext z (
        install-Counted ok t e taken tz z (gain e ext) (ref-Counted t e s ext z c (smaller room))
          (rw (slots-taken, test_self e) (shifted (uses e (slots t s)) (ext e) room))))
    where
      smaller : {n : ℕ} → suc (suc n) < mod32 → suc n < mod32
      smaller k = omega arith

      shifted : (u x : ℕ) → suc (suc (u + x)) < mod32 → suc (u + (x + 1)) < mod32
      shifted u x k = omega arith

  -- In a table, not NULL, with memory at hand and fewer descriptors than the most, the duplicate of
  -- an open descriptor is the lowest free descriptor, it has the same entry, and the other
  -- descriptors keep theirs.
  pub dup-lowest :
      length (slots t s) < fd_table_max
      → (j : ℕ) × ((fdtable_dup true t (pos i) s).0 ≡ pos j)
        × (slot (slots t (fdtable_dup true t (pos i) s).1) j ≡ e)
        × (slot (slots t s) j ≡ 0)
        × ((k : ℕ) → k < j → slot (slots t s) k ≢ 0)
        × ((k : ℕ) → k ≢ j → slot (slots t (fdtable_dup true t (pos i) s).1) k ≡ slot (slots t s) k)
  dup-lowest small =
      let r = install-lowest t e taken tz z (rw slots-taken small) in
      (
        r.0,
        rw (dup-held true) r.1,
        rw (slots-dup true) r.2,
        subst (λ xs. slot xs r.0 ≡ 0) slots-taken r.3,
        subst (λ xs. (k : ℕ) → k < r.0 → slot xs k ≢ 0) slots-taken r.4,
        λ k ne. rw (slots-dup true) (r.5 k ne ∙ ap (λ xs. slot xs k) slots-taken),
      )
