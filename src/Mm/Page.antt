-- ===== src/Mm/Page.antt =====
-- kernel/src/mm/page.h: the descriptor of a physical page.
use lapis.Base.{ℕ, Bool, false}

-- The PAGE_* bits of `flags`, one truth value each; no other bit is ever set.
pub record Flags : Type 0 where
  pub free : Bool
  pub allocated : Bool
  pub reserved : Bool
  pub shared : Bool
  pub cow : Bool
  pub dirty : Bool

-- `u2` is the union of `prev` and `sharecount`, one 64-bit word: a page reads as the one what was
-- written as the other. Pointers are addresses, and NULL is 0.
pub record Page : Type 0 where
  pub next : ℕ
  pub u2 : ℕ
  pub flags : Flags
  pub refcount : ℕ

abbrev pub sizeof_page : ℕ
sizeof_page = 64

abbrev pub page_size : ℕ
page_size = 0x1000

abbrev pub no_flags : Flags
no_flags = record {
  free = false;
  allocated = false;
  reserved = false;
  shared = false;
  cow = false;
  dirty = false;
}
