-- ===== src/Kfile/Offsets.antt =====
-- Where the reads and the writes of a file go.
use lapis.Base.{
  ℕ, zero, suc, ◌+◌, ◌-◌, ◌<◌, ◌≤◌, ◌≡◌, refl, ◌≢◌, true, false, ◌==◌, ◌||◌, if◌then◌else◌, arith,
  ltb, test_ne, add64, mod64, ℤ, pos, negsuc, ◌%◌,
}
use lapis.Kfile.{
  Kfile, seek_cur, has_flag, o_append, pipe_read_end, pipe_write_end, kread, kwrite, kseek, seek_to,
  written, write_offset, minus, is_negative,
}

-- A file that is no end of a pipe, at a place that a `size_t` holds.
pub record IsPlain (f : Kfile) : Type 0 where
  pub not_read_end : has_flag f.flags pipe_read_end ≡ false
  pub not_write_end : has_flag f.flags pipe_write_end ≡ false

module _ (read : ℕ → ℕ → ℕ → ℤ × ℕ) (file out size : ℕ) (f : Kfile) (p : IsPlain f) (fz : file ≢ 0)
    (oz : out ≢ 0) where
  guard : (file == 0 || out == 0) ≡ false
  guard = rw (test_ne file 0 fz, test_ne out 0 oz) refl

  -- With a file that is no end of a pipe, neither pointer NULL, a read that fails with an error
  -- number leaves the file as it was, and its result is that of a read that gives so many bytes.
  pub kread-error :
      (read' : ℕ → ℕ → ℕ → ℤ × ℕ) (n : ℕ)
      → suc n < mod64
      → (read f.private size f.offset).0 ≡ negsuc n
      → read' f.private size f.offset ≡ (pos 0, suc n)
      → ((kread read file out size f).1 ≡ f)
        × ((kread read file out size f).0 ≡ (kread read' file out size f).0)
  unfolding kread
  kread-error read' n k e e' = rw (guard, p.not_read_end, p.not_write_end, e, e') (refl, small n k)
    where
      small : (n : ℕ) → suc n < mod64 → suc n % mod64 ≡ suc n
      small n k = omega arith

module _ (write : ℕ → ℕ → ℕ → ℤ) (file buf : ℕ) (f : Kfile) (p : IsPlain f) (fz : file ≢ 0)
    (bz : buf ≢ 0) where
  w_guard : (file == 0 || buf == 0) ≡ false
  w_guard = rw (test_ne file 0 fz, test_ne buf 0 bz) refl

  kwrite-done :
      (size : ℕ)
      → is_negative (write f.private size (write_offset f)) ≡ false
      → kwrite write file buf size f ≡ (write f.private size (write_offset f), written size f)
  unfolding kwrite
  kwrite-done size e = rw (w_guard, p.not_read_end, p.not_write_end, e) refl

  -- On a file that is no end of a pipe, neither pointer NULL, a write that succeeds, without
  -- O_APPEND and with an end that a `size_t` holds, goes to the offset, the next one follows it,
  -- and the size of the file is at least the new offset and never shrinks.
  pub kwrite-sequential :
      (size : ℕ)
      → has_flag f.flags o_append ≡ false
      → f.offset + size < mod64
      → is_negative (write f.private size f.offset) ≡ false
      → (write_offset f ≡ f.offset)
        × (write_offset (kwrite write file buf size f).1 ≡ f.offset + size)
        × (f.offset + size ≤ (kwrite write file buf size f).1.size)
        × (f.size ≤ (kwrite write file buf size f).1.size)
  unfolding write_offset written
  kwrite-sequential size a k e =
      let here : write_offset f ≡ f.offset = rw a refl in
      rw (kwrite-done size (rw a e)) (
        here,
        rw a (ends f.offset size k),
        covers f.size f.offset size k,
        grows f.size f.offset size,
      )
    where
      ends : (o n : ℕ) → o + n < mod64 → add64 o n ≡ o + n
      ends o n k = omega arith

      covers : (s o n : ℕ) → o + n < mod64 → o + n ≤ (if ltb s (add64 o n) then add64 o n else s)
      covers s o n k = ground arith

      grows : (s o n : ℕ) → s ≤ (if ltb s (add64 o n) then add64 o n else s)
      grows s o n = ground arith

  -- On a file that is no end of a pipe, neither pointer NULL, an append that succeeds, with at
  -- least `size` bytes of the file behind the offset, does not move the end of the file, so the
  -- next append goes to the same place.
  pub kwrite-append_twice :
      (size : ℕ)
      → has_flag f.flags o_append ≡ true
      → f.offset + size ≤ f.size
      → f.size < mod64
      → is_negative (write f.private size f.size) ≡ false
      → (write_offset f ≡ f.size) × (write_offset (kwrite write file buf size f).1 ≡ write_offset f)
  unfolding write_offset written
  kwrite-append_twice size a k s e =
      rw (kwrite-done size (rw a e)) (rw a refl, rw a (stays f.size f.offset size k))
    where
      stays : (s o n : ℕ) → o + n ≤ s → (if ltb s (add64 o n) then add64 o n else s) ≡ s
      stays s o n k = ground arith

-- From an offset that a `size_t` holds, seeking forward in a file that is not NULL and back by the
-- same distance, a `size_t` too, leads back.
pub kseek-back :
    (file n : ℕ) (f : Kfile)
    → file ≢ 0
    → f.offset < mod64
    → n < mod64
    → (kseek file (minus (pos n)) seek_cur (kseek file (pos n) seek_cur f).1).0 ≡ f.offset
unfolding kseek seek_to
kseek-back file zero f z o k = rw (test_ne file 0 z) (still f.offset o)
  where
    still : (o : ℕ) → o < mod64 → add64 (add64 o (0 % mod64)) (0 % mod64) ≡ o
    still o k = omega arith
kseek-back file (suc n) f z o k = rw (test_ne file 0 z) (back f.offset n o k)
  where
    back :
        (o n : ℕ)
        → o < mod64
        → suc n < mod64
        → add64 (add64 o (suc n % mod64)) ((mod64 - suc n) % mod64) ≡ o
    back o n k l = omega arith
