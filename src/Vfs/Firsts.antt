-- ===== src/Vfs/Firsts.antt =====
-- kernel/src/fs/vfs/vfs.c: searches of the list of the drivers, before and after a removal.
use lapis.Base.{
  ℕ, ◌≡◌, ◌≢◌, refl, sym, ◌∙◌, subst, Bool, true, false, inl, inr, List, [], ◌∷◌, ◌==◌, has,
  Distinct, Bool-cases, arith, eq_of_test,
}
use lapis.Vfs.{Str}
use lapis.Vfs.Ops.{same_str}
use lapis.Vfs.Drivers.{find_first, remove_id}

pub same_str_self : (s : Str) → same_str s s ≡ true
unfolding same_str
same_str_self [] = refl
same_str_self (c ∷ cs) = ground (arith, same_str_self cs)

pub same_str-sym : (s t : Str) → same_str s t ≡ same_str t s
unfolding same_str
same_str-sym [] [] = refl
same_str-sym [] (d ∷ ds) = refl
same_str-sym (c ∷ cs) [] = refl
same_str-sym (c ∷ cs) (d ∷ ds) = ground (arith, same_str-sym cs ds)

pub find_first-yes : (p : ℕ → Bool) (d : ℕ) (ds : List ℕ) → p d ≡ true → find_first p (d ∷ ds) ≡ d
unfolding find_first
find_first-yes p d ds e = rw e refl

pub find_first-no :
    (p : ℕ → Bool) (d : ℕ) (ds : List ℕ) → p d ≡ false → find_first p (d ∷ ds) ≡ find_first p ds
unfolding find_first
find_first-no p d ds e = rw e refl

-- What is found is in the list, and when nothing is found no driver has the property.
find_first-has :
    (p : ℕ → Bool) (ds : List ℕ) → (find_first p ds == 0) ≡ false → has (find_first p ds) ds ≡ true
unfolding find_first
find_first-has p [] e = absurd (ground (arith, e))
find_first-has p (d ∷ ds) e = elim (Bool-cases (p d)) [
  | inl q ↦ subst (λ x. has x (d ∷ ds) ≡ true) (sym (find_first-yes p d ds q)) (ground arith)
  | inr q ↦
      let k = find_first-has p ds (subst (λ x. (x == 0) ≡ false) (find_first-no p d ds q) e) in
      subst (λ x. has x (d ∷ ds) ≡ true) (sym (find_first-no p d ds q)) (ground (arith, k))
]

pub find_first-none :
    (p : ℕ → Bool) (ds : List ℕ) (a : ℕ)
    → Distinct ds
    → find_first p ds ≡ 0
    → has a ds ≡ true
    → p a ≡ false
find_first-none p [] a z e h = absurd (ground (arith, h))
find_first-none p (d ∷ ds) a (n, _, z) e h = elim (Bool-cases (p d)) [
  | inl q ↦ absurd (n (sym (find_first-yes p d ds q) ∙ e))
  | inr q ↦ elim (Bool-cases (a == d)) [
    | inl f ↦ subst (λ x. p x ≡ false) (sym (eq_of_test a d f)) q
    | inr f ↦ find_first-none p ds a z (sym (find_first-no p d ds q) ∙ e) (ground (arith, h, f))
  ]
]

pub find_first-cong :
    (p q : ℕ → Bool) (ds : List ℕ)
    → ((a : ℕ) → has a ds ≡ true → p a ≡ q a)
    → find_first p ds ≡ find_first q ds
unfolding find_first
find_first-cong p q [] f = refl
find_first-cong p q (d ∷ ds) f =
    let k = find_first-cong p q ds (λ a h. f a (ground (arith, h))) in
    let e = f d (ground arith) in rw (e, k) refl

-- A driver that is found is still found after the removal of another one.
pub has-remove_id :
    (ids : ℕ → ℕ) (id a : ℕ) (ds : List ℕ) → has a (remove_id ids id ds) ≡ true → has a ds ≡ true
unfolding remove_id
has-remove_id ids id a [] h = h
has-remove_id ids id a (d ∷ ds) h = ground (arith, has-remove_id ids id a ds)

remove_yes :
    (ids : ℕ → ℕ) (id d : ℕ) (ds : List ℕ) → (ids d == id) ≡ true → remove_id ids id (d ∷ ds) ≡ ds
unfolding remove_id
remove_yes ids id d ds e = rw e refl

remove_no :
    (ids : ℕ → ℕ) (id d : ℕ) (ds : List ℕ)
    → (ids d == id) ≡ false
    → remove_id ids id (d ∷ ds) ≡ d ∷ remove_id ids id ds
unfolding remove_id
remove_no ids id d ds e = rw e refl

pub differ : (b : Bool) → b ≡ true → b ≢ false
differ true e f = absurd (ground (arith, f))
differ false e f = absurd (ground (arith, e))

pub find_first-remove_id :
    (ids : ℕ → ℕ) (id : ℕ) (p : ℕ → Bool) (ds : List ℕ) (a : ℕ)
    → Distinct ds
    → find_first p ds ≡ a
    → has a (remove_id ids id ds) ≡ true
    → find_first p (remove_id ids id ds) ≡ a
unfolding remove_id
find_first-remove_id ids id p [] a z e h = e
find_first-remove_id ids id p (d ∷ ds) a (n, u, z) e h = elim (Bool-cases (ids d == id)) [
  | inl r ↦
      let q = remove_yes ids id d ds r in
      let h2 : has a ds ≡ true = subst (λ x. has a x ≡ true) q h in
      subst (λ x. find_first p x ≡ a) (sym q)
        (elim (Bool-cases (p d)) [
          | inl k ↦
              let f : d ≡ a = sym (find_first-yes p d ds k) ∙ e in
              absurd (differ _ (subst (λ x. has x ds ≡ true) (sym f) h2) u)
          | inr k ↦ sym (find_first-no p d ds k) ∙ e
        ])
  | inr r ↦
      let q = remove_no ids id d ds r in
      let l = remove_id ids id ds in
      let h2 : has a (d ∷ l) ≡ true = subst (λ x. has a x ≡ true) q h in
      subst (λ x. find_first p x ≡ a) (sym q)
        (elim (Bool-cases (p d)) [
          | inl k ↦ find_first-yes p d l k ∙ sym (find_first-yes p d ds k) ∙ e
          | inr k ↦
              let e2 : find_first p ds ≡ a = sym (find_first-no p d ds k) ∙ e in
              elim (Bool-cases (a == d)) [
                | inl f ↦
                    let e3 : find_first p ds ≡ d = e2 ∙ eq_of_test a d f in
                    let nz : (find_first p ds == 0) ≡ false = ground (arith, e3, n) in
                    absurd (differ _ (subst (λ x. has x ds ≡ true) e3 (find_first-has p ds nz)) u)
                | inr f ↦
                    find_first-no p d l k
                    ∙ find_first-remove_id ids id p ds a z e2 (ground (arith, h2, f))
              ]
        ])
]

pub remove_id-Distinct :
    (ids : ℕ → ℕ) (id : ℕ) (ds : List ℕ) → Distinct ds → Distinct (remove_id ids id ds)
unfolding remove_id
remove_id-Distinct ids id [] z = tt
remove_id-Distinct ids id (d ∷ ds) (n, u, z) = elim (Bool-cases (ids d == id)) [
  | inl r ↦ subst Distinct (sym (remove_yes ids id d ds r)) z
  | inr r ↦
      let k : has d (remove_id ids id ds) ≡ false =
        elim (Bool-cases (has d (remove_id ids id ds))) [
          | inr f ↦ f
          | inl f ↦ absurd (differ _ (has-remove_id ids id d ds f) u)
        ] in
      subst Distinct (sym (remove_no ids id d ds r)) (n, k, remove_id-Distinct ids id ds z)
]
