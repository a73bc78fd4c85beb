-- ===== src/Kfile.antt =====
-- kernel/src/fs/vfs/kfile.c: open files, their offsets and their sizes.
pub mod Offsets
mod Mode
mod Tests
use lapis.Base.{
  ℕ, zero, suc, ◌+◌, ◌-◌, ◌/◌, ◌%◌, Bool, true, false, Option, some, none, ◌==◌, ◌||◌,
  if◌then◌else◌, ltb, add64, mod64, ℤ, pos, negsuc,
}

-- `kfile_t`, with the vnode in `private`.
pub record Kfile : Type 0 where
  pub size : ℕ
  pub flags : ℕ
  pub offset : ℕ
  pub private : ℕ

-- `fseek_t`, with the values outside the enumeration.
pub data Fseek : Type 0 where
  seek_set seek_cur seek_end other : Fseek

-- O_APPEND
abbrev pub o_append : ℕ
o_append = 0x400

-- PIPE_READ_END
abbrev pub pipe_read_end : ℕ
pipe_read_end = 0x100000

-- PIPE_WRITE_END
abbrev pub pipe_write_end : ℕ
pipe_write_end = 0x200000

-- A test of one bit.
unfoldable pub has_flag : (flags bit : ℕ) → Bool
has_flag flags bit = (flags / bit) % 2 == 1

-- A signed number as a `size_t`, and the negation of an `int`.
abbrev pub to_size : ℤ → ℕ
to_size (pos n) = n % mod64
to_size (negsuc n) = (mod64 - suc n) % mod64

abbrev pub minus : ℤ → ℤ
minus (pos zero) = pos 0
minus (pos (suc n)) = negsuc n
minus (negsuc n) = pos (suc n)

abbrev pub is_eok : ℤ → Bool
is_eok (pos zero) = true
is_eok (pos (suc n)) = false
is_eok (negsuc n) = false

abbrev pub is_negative : ℤ → Bool
is_negative (pos n) = false
is_negative (negsuc n) = true

-- `kread`: `read` is the operation of the file's vnode. It is given the vnode, the number of bytes
-- and the offset, and it gives a result and the number of bytes read.
unfoldable pub kread : (read : ℕ → ℕ → ℕ → ℤ × ℕ) (file out size : ℕ) → Kfile → ℕ × Kfile
kread read file out size f =
    let r = read f.private size f.offset in
    if file == 0 || out == 0
    then (to_size (negsuc 13), f)
    else if has_flag f.flags pipe_read_end
    then (to_size (negsuc 37), f)
    else if has_flag f.flags pipe_write_end
    then (0, f)
    else if is_eok r.0
    then (r.1, record f { offset = add64 f.offset r.1 })
    else (to_size (minus r.0), f)

-- Where `kwrite` writes.
unfoldable pub write_offset : Kfile → ℕ
write_offset f = if has_flag f.flags o_append then f.size else f.offset

-- The file behind a write of `size` bytes.
unfoldable pub written : ℕ → Kfile → Kfile
written size f =
    let end = add64 f.offset size in
    record f { size = if ltb f.size end then end else f.size; offset = end }

-- `kwrite`: `write` is `vfs_write`, which is given the vnode, the number of bytes and the offset.
unfoldable pub kwrite : (write : ℕ → ℕ → ℕ → ℤ) (file buf size : ℕ) → Kfile → ℤ × Kfile
kwrite write file buf size f =
    let r = write f.private size (write_offset f) in
    if file == 0 || buf == 0
    then (negsuc 13, f)
    else if has_flag f.flags pipe_write_end
    then (negsuc 37, f)
    else if has_flag f.flags pipe_read_end
    then (pos 0, f)
    else if is_negative r
    then (r, f)
    else (r, written size f)

unfoldable pub seek_to : ℤ → Fseek → Kfile → ℕ
seek_to offset seek_cur f = add64 f.offset (to_size offset)
seek_to offset seek_end f = add64 f.size (to_size offset)
seek_to offset seek_set f = to_size offset
seek_to offset other f = f.offset

unfoldable pub kseek : (file : ℕ) → ℤ → Fseek → Kfile → ℕ × Kfile
kseek file offset whence f =
    let to = seek_to offset whence f in
    if file == 0 then (to_size (negsuc 13), f) else (to, record f { offset = to })
