-- ===== src/Kfile/Mode.antt =====
-- kernel/src/fs/vfs/kfile.c: the flags of an open, and the mode of a file as a string.
use lapis.Base.{ℕ, ◌+◌, ◌*◌, ◌/◌, ◌%◌, ◌≡◌, refl, List, [], ◌∷◌, ◌==◌, if◌then◌else◌}
use lapis.Kfile.{has_flag}

-- `f2vflags`, with the values of O_CREATE, O_DIRECTORY, V_CREATE and V_DIR.
unfoldable f2vflags : ℕ → ℕ
f2vflags fio_flags =
    (if has_flag fio_flags 0x40 then 1 else 0) + (if has_flag fio_flags 0x10000 then 32 else 0)

-- `mode & S_IFMT`
abbrev type_bits : ℕ → ℕ
type_bits mode = mode / 0x1000 % 16 * 0x1000

-- The character of the string that `file_type_char` gives.
unfoldable file_type_char : ℕ → ℕ
file_type_char mode =
    let type = type_bits mode in
    if type == 0x8000
    then 45
    else if type == 0x4000
    then 100
    else if type == 0xa000
    then 108
    else if type == 0x2000
    then 99
    else if type == 0x6000
    then 98
    else if type == 0x1000
    then 112
    else if type == 0xc000
    then 115
    else 63

-- A letter where the bit is set, else a dash.
abbrev letter : (mode bit char : ℕ) → ℕ
letter mode bit char = if has_flag mode bit then char else 45

-- The eleven bytes that `mode_to_string` writes.
unfoldable mode_to_string : ℕ → List ℕ
mode_to_string mode =
    file_type_char mode
    ∷ letter mode 0x100 114
    ∷ letter mode 0x80 119
    ∷ letter mode 0x40 120
    ∷ letter mode 0x20 114
    ∷ letter mode 0x10 119
    ∷ letter mode 0x8 120
    ∷ letter mode 0x4 114
    ∷ letter mode 0x2 119
    ∷ letter mode 0x1 120
    ∷ 0
    ∷ []

-- A directory with the mode 0755 is `drwxr-xr-x`.
directory_mode :
    mode_to_string 0x41ed ≡ 100 ∷ 114 ∷ 119 ∷ 120 ∷ 114 ∷ 45 ∷ 120 ∷ 114 ∷ 45 ∷ 120 ∷ 0 ∷ []
unfolding mode_to_string file_type_char has_flag
directory_mode = refl

create_flags : f2vflags 0x10042 ≡ 33
unfolding f2vflags has_flag
create_flags = refl
