-- ===== src/Dll/Unlink.antt =====
-- Taking a node out of a doubly linked list: the links that the routines of the kernel set join its
-- neighbours, and the others keep their order.
use lapis.Base.{
  ℕ, ◌≡◌, refl, ◌≢◌, inl, inr, true, false, List, [], ◌∷◌, arith, ◌==◌, ap, sym, ◌∙◌, subst,
  Bool-cases, eq_of_test, test_ne, if◌then◌else◌, ne_zero-of_has, not-has-zero, has, erase,
  first_of, Distinct,
}
use lapis.Dll.{Links, Links-frame, ne-of_has, has-here, has-there}
use lapis.Dll.Neighbours.{next-in, prev-in, next-ne, prev-ne}

-- What taking the node `a` out does to the links of the others.
pub record Unlinked (nx pv nx' pv' : ℕ → ℕ) (a : ℕ) : Type 0 where
  pub next_same : (b : ℕ) → b ≢ a → b ≢ pv a → nx' b ≡ nx b
  pub prev_same : (b : ℕ) → b ≢ a → b ≢ nx a → pv' b ≡ pv b
  pub next_past : pv a ≢ 0 → nx' (pv a) ≡ nx a
  pub prev_past : nx a ≢ 0 → pv' (nx a) ≡ pv a

-- What an unlinking routine leaves at the node `b`, if `n` is a link of the node `a` that it takes
-- out, `far` the link of the neighbour's that it redirects, and `old` the link of `b`.
abbrev pub relinked : (a b near far old : ℕ) → ℕ
relinked a b near far old =
    if b == a then 0 else if near == 0 then old else if b == near then far else old

relinked_same : (a b near far old : ℕ) → b ≢ a → b ≢ near → relinked a b near far old ≡ old
relinked_same a b near far old e f = ground arith

relinked_past : (a near far old : ℕ) → near ≢ a → near ≢ 0 → relinked a near near far old ≡ far
relinked_past a near far old e f = ground arith

pub Unlinked-relinked :
    {nx pv nx' pv' : ℕ → ℕ} {a : ℕ}
    → ((b : ℕ) → nx' b ≡ relinked a b (pv a) (nx a) (nx b))
    → ((b : ℕ) → pv' b ≡ relinked a b (nx a) (pv a) (pv b))
    → nx a ≢ a
    → pv a ≢ a
    → Unlinked nx pv nx' pv' a
Unlinked-relinked {nx} {pv} {a} en ep ne pe = record {
  next_same = λ b e f. en b ∙ relinked_same a b (pv a) (nx a) (nx b) e f;
  prev_same = λ b e f. ep b ∙ relinked_same a b (nx a) (pv a) (pv b) e f;
  next_past = λ e. en (pv a) ∙ relinked_past a (pv a) (nx a) (nx (pv a)) pe e;
  prev_past = λ e. ep (nx a) ∙ relinked_past a (nx a) (pv a) (pv (nx a)) ne e;
}

module _ {nx pv nx' pv' : ℕ → ℕ} {a : ℕ} (u : Unlinked nx pv nx' pv' a) where
  -- The nodes behind `a` follow on the one before it.
  erase-here :
      (xs : List ℕ)
      → Distinct xs
      → has a xs ≡ false
      → has (pv a) xs ≡ false
      → nx a ≡ first_of xs
      → Links nx pv a xs
      → Links nx' pv' (pv a) xs
  erase-here [] d out fresh n l = tt
  erase-here (y ∷ ys) (z, f, d) out fresh n (p, m, l) = (
    ap pv' (sym n) ∙ u.prev_past (λ e. z (sym n ∙ e)),
    u.next_same y (λ e. ne-of_has y a (y ∷ ys) (has-here y y ys refl) out e)
          (λ e. ne-of_has y (pv a) (y ∷ ys) (has-here y y ys refl) fresh e)
        ∙ m,
    Links-frame y ys
        (λ b h. (
          u.next_same b (ne-of_has b a (y ∷ ys) (has-there b y ys h) out)
              (ne-of_has b (pv a) (y ∷ ys) (has-there b y ys h) fresh),
          u.prev_same b (ne-of_has b a (y ∷ ys) (has-there b y ys h) out)
              (λ e. ne-of_has b y ys h f (e ∙ n)),
        ))
        l,
  )

  -- The node before the list goes on to the first of those that are left.
  first-erase :
      (x : ℕ) (xs : List ℕ)
      → x ≢ 0
      → has x xs ≡ false
      → has a xs ≡ true
      → nx x ≡ first_of xs
      → Links nx pv x xs
      → nx' x ≡ first_of (erase a xs)
  first-erase x [] z f h n l = ground arith
  first-erase x (y ∷ ys) z f h n (p, m, l) = elim (Bool-cases (a == y)) [
    | inl t ↦
        let e = eq_of_test a y t in
        let q : pv a ≡ x = ap pv e ∙ p in
        rw t (ap nx' (sym q) ∙ u.next_past (λ w. z (sym q ∙ w)) ∙ (ap nx e ∙ m))
    | inr t ↦
        let k : has a ys ≡ true = ground arith in
        rw t (u.next_same x (ne_sym (ne-of_has a x (y ∷ ys) h f)) (apart k) ∙ n)
  ]
    where
      ne_sym : {b c : ℕ} → b ≢ c → c ≢ b
      ne_sym ne e = ne (sym e)

      apart : has a ys ≡ true → x ≢ pv a
      apart k e = elim (prev-in nx pv y a ys l k) [
        | inl w ↦ ne-of_has y x (y ∷ ys) (has-here y y ys refl) f (sym (e ∙ w))
        | inr w ↦ ne-of_has (pv a) x (y ∷ ys) (has-there (pv a) y ys w) f (sym e)
      ]

  -- The other nodes keep their order.
  pub Links-erase :
      (prev : ℕ) (xs : List ℕ)
      → Distinct xs
      → has prev xs ≡ false
      → has a xs ≡ true
      → Links nx pv prev xs
      → Links nx' pv' prev (erase a xs)
  Links-erase prev [] d fresh h l = ground arith
  Links-erase prev (x ∷ xs) (z, f, d) fresh h (p, n, l) = elim (Bool-cases (a == x)) [
    | inl t ↦
        let e = eq_of_test a x t in
        let q : pv a ≡ prev = ap pv e ∙ p in
        rw t (
          subst (λ k. Links nx' pv' k xs) q
            (erase-here xs d (rw e f) (rw q (ground arith)) (ap nx e ∙ n)
              (subst (λ k. Links nx pv k xs) (sym e) l)))
    | inr t ↦
        let k : has a xs ≡ true = ground arith in
        rw t (
          u.prev_same x (λ e. ne-of_has a x xs k f (sym e)) (behind k) ∙ p,
          first-erase x xs z f k n l,
          Links-erase x xs d f k l,
        )
  ]
    where
      behind : has a xs ≡ true → x ≢ nx a
      behind k e = elim (next-in nx pv x a xs l k) [
        | inl w ↦ z (e ∙ w)
        | inr w ↦ ne-of_has (nx a) x xs w f (sym e)
      ]

-- The first node of what is left, as the head pointer is set: by the link of the node taken out if
-- that had none before it.
pub first_of-erase :
    (nx pv : ℕ → ℕ) (a : ℕ) (xs : List ℕ)
    → Distinct xs
    → has a xs ≡ true
    → Links nx pv 0 xs
    → (if pv a == 0 then nx a else first_of xs) ≡ first_of (erase a xs)
first_of-erase nx pv a [] d h l = ground arith
first_of-erase nx pv a (x ∷ xs) (z, f, d) h (p, n, l) = elim (Bool-cases (a == x)) [
  | inl t ↦ let e = eq_of_test a x t in rw (t, test_zero (pv a) (ap pv e ∙ p)) (ap nx e ∙ n)
  | inr t ↦ rw (t, test_ne (pv a) 0 (inner (ground arith))) refl
]
  where
    inner : has a xs ≡ true → pv a ≢ 0
    inner k e = elim (prev-in nx pv x a xs l k) [
      | inl w ↦ z (sym w ∙ e)
      | inr w ↦ ne_zero-of_has (pv a) xs d w e
    ]

    test_zero : (m : ℕ) → m ≡ 0 → (m == 0) ≡ true
    test_zero m e = ground arith

-- An unlinking routine on the list itself: the list loses the node.
pub Links-relinked :
    (nx pv : ℕ → ℕ) {nx' pv' : ℕ → ℕ} (a : ℕ) (xs : List ℕ)
    → Distinct xs
    → has a xs ≡ true
    → Links nx pv 0 xs
    → ((b : ℕ) → nx' b ≡ relinked a b (pv a) (nx a) (nx b))
    → ((b : ℕ) → pv' b ≡ relinked a b (nx a) (pv a) (pv b))
    → Links nx' pv' 0 (erase a xs)
Links-relinked nx pv a xs d h l en ep =
    Links-erase
      (Unlinked-relinked en ep (next-ne nx pv 0 a xs d h l)
        (prev-ne nx pv 0 a xs d (not-has-zero xs d) h l))
      0 xs d (not-has-zero xs d) h l
