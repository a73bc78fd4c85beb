-- ===== src/Dll.antt =====
-- Doubly linked lists of the kernel, seen through the two link fields of their nodes: the free list
-- of kernel/src/mm/pmm.c, the wait queues of kernel/src/sched/waitqueue.c and the run queues of
-- kernel/src/sched/sched.c. A node is its address, and NULL is 0.
pub mod Neighbours
pub mod Unlink
pub mod Ends
use lapis.Base.{
  ℕ, ◌≡◌, refl, ◌≢◌, ◌⊎◌, inl, inr, true, false, List, [], ◌∷◌, ◌++◌, arith, ◌==◌, ap, sym, ◌∙◌,
  subst, Bool-cases, eq_of_test, test_ne, if◌then◌else◌, ne_zero-of_has, not-has-zero, has, erase,
  first_of, last_of, Distinct,
}

-- From a node behind `prev` on, the links run through the given nodes in order; the last `next` is
-- NULL.
abbrev pub Links : (nx pv : ℕ → ℕ) → ℕ → List ℕ → Type 0
Links nx pv prev [] = Unit {0}
Links nx pv prev (x ∷ xs) = (pv x ≡ prev) × (nx x ≡ first_of xs) × Links nx pv x xs

-- The links survive a change that spares the nodes.
pub Links-frame :
    {nx pv nx' pv' : ℕ → ℕ} (prev : ℕ) (xs : List ℕ)
    → ((a : ℕ) → has a xs ≡ true → (nx' a ≡ nx a) × (pv' a ≡ pv a))
    → Links nx pv prev xs
    → Links nx' pv' prev xs
Links-frame prev [] same l = tt
Links-frame prev (x ∷ xs) same (p, n, l) = (
  ground (arith, same x),
  ground (arith, same x),
  Links-frame x xs (λ a h. same a (ground arith)) l,
)

-- A new node in front.
pub Links-cons :
    {nx pv nx' pv' : ℕ → ℕ} (a : ℕ) (xs : List ℕ)
    → has a xs ≡ false
    → Distinct xs
    → nx' a ≡ first_of xs
    → pv' a ≡ 0
    → ((b : ℕ) → has b xs ≡ true → nx' b ≡ nx b)
    → ((b : ℕ) → has b xs ≡ true → b ≢ first_of xs → pv' b ≡ pv b)
    → (first_of xs ≢ 0 → pv' (first_of xs) ≡ a)
    → Links nx pv 0 xs
    → Links nx' pv' 0 (a ∷ xs)
Links-cons a [] out d en ep sn sp link l = (ep, en, tt)
Links-cons {nx} {pv} {nx'} {pv'} a (x ∷ xs) out (z, f, d) en ep sn sp link (p, n, l) = (
  ep,
  en,
  (
    link z,
    ground (arith, sn x),
    Links-frame x xs
        (λ b h. (sn b (ground arith), sp b (ground arith) (ground (arith, eq_of_test b x)))) l,
  ),
)

pub has-last_of : (x : ℕ) (xs : List ℕ) → has (last_of x xs) (x ∷ xs) ≡ true
has-last_of x [] = ground arith
has-last_of x (y ∷ ys) = ground (arith, has-last_of y ys)

pub ne-of_has : (a b : ℕ) (xs : List ℕ) → has a xs ≡ true → has b xs ≡ false → a ≢ b
ne-of_has a b xs h k e = cc

-- A new node at the end, behind the last one.
pub Links-snoc :
    {nx pv nx' pv' : ℕ → ℕ} (a prev : ℕ) (xs : List ℕ)
    → has a xs ≡ false
    → a ≢ prev
    → Distinct xs
    → has prev xs ≡ false
    → nx' a ≡ 0
    → pv' a ≡ last_of prev xs
    → ((b : ℕ) → has b xs ≡ true → pv' b ≡ pv b)
    → ((b : ℕ) → has b xs ≡ true → b ≢ last_of prev xs → nx' b ≡ nx b)
    → (last_of prev xs ≢ prev → nx' (last_of prev xs) ≡ a)
    → Links nx pv prev xs
    → Links nx' pv' prev (xs ++ (a ∷ []))
Links-snoc a prev [] out ne d fresh en ep sp sn link l = (ep, en, tt)
Links-snoc {nx} {pv} {nx'} {pv'} a prev (x ∷ xs) out ne (z, f, d) fresh en ep sp sn link (p, n, l) =
    (
      ground (arith, sp x),
      next_of xs f sn link n,
      Links-snoc a x xs (ground arith) (ground arith) d f en ep (λ b h. sp b (ground arith))
          (λ b h. sn b (ground arith))
          (λ h. link (ne-of_has (last_of x xs) prev (x ∷ xs) (has-last_of x xs) fresh)) l,
    )
  where
    next_of :
        (ys : List ℕ)
        → has x ys ≡ false
        → ((b : ℕ) → has b (x ∷ ys) ≡ true → b ≢ last_of x ys → nx' b ≡ nx b)
        → (last_of x ys ≢ prev → nx' (last_of x ys) ≡ a)
        → nx x ≡ first_of ys
        → nx' x ≡ first_of (ys ++ (a ∷ []))
    next_of [] f sn link n = link (ground arith)
    next_of (y ∷ ys) f sn link n = ground (arith, sn x, has-last_of y ys)

pub has-here : (a b : ℕ) (xs : List ℕ) → a ≡ b → has a (b ∷ xs) ≡ true
has-here a b xs e = ground arith

pub has-there : (a b : ℕ) (xs : List ℕ) → has a xs ≡ true → has a (b ∷ xs) ≡ true
has-there a b xs h = ground arith

pub has-split : (a b : ℕ) (xs : List ℕ) → has a (b ∷ xs) ≡ true → (a ≡ b) ⊎ (has a xs ≡ true)
has-split a b xs h = ground arith
