-- ===== src/Sched/Runqueue/Count.antt =====
-- The counters of the run queues count the threads queued.
use lapis.Base.{
  ℕ, zero, suc, ◌+◌, ◌<◌, ◌≤◌, ◌≡◌, refl, sym, ◌∙◌, subst, ◌==◌, List, [], ◌∷◌, arith,
  if◌then◌else◌, length, ◌≢◌, test_self, test_ne, length-append, mod32, add32, sub32, ◌++◌,
  eq_of_test, ne_of_test, Bool-cases, inl, inr,
}
use lapis.Sched.Runqueue.Inv.{Lists, set_list, total}

total-above :
    (n c l : ℕ) (ys : List ℕ) (qs : Lists) → n ≤ l → total n (set_list c l ys qs c) ≡ total n (qs c)
unfolding total
total-above zero c l ys qs k = refl
total-above (suc n) c l ys qs k =
    rw (total-above n c l ys qs (omega arith), test_self c, test_ne n l (omega arith)) refl

-- Replacing a list changes the total of its processor by the difference of the lengths.
pub total-set_list :
    (n c l : ℕ) (ys : List ℕ) (qs : Lists)
    → l < n
    → total n (set_list c l ys qs c) + length (qs c l) ≡ total n (qs c) + length ys
unfolding total
total-set_list zero c l ys qs k = omega arith
total-set_list (suc n) c l ys qs k = elim (Bool-cases (n == l)) [
  | inl e ↦
      let a = total-above n c l ys qs (ground arith) in
      rw (test_self c, e, a) (last (eq_of_test n l e))
  | inr e ↦ rw (test_self c, e) (ground (arith, total-set_list n c l ys qs))
]
  where
    last :
        n ≡ l
        → total n (qs c) + length ys + length (qs c l)
          ≡ total n (qs c) + length (qs c n) + length ys
    last e = rw e (omega arith)

-- The totals of the other processors stay.
pub total-other :
    (n c l d : ℕ) (ys : List ℕ) (qs : Lists)
    → d ≢ c
    → total n (set_list c l ys qs d) ≡ total n (qs d)
unfolding total
total-other zero c l d ys qs e = refl
total-other (suc n) c l d ys qs e = rw (total-other n c l d ys qs e, test_ne d c e) refl

pub length-total : (n l : ℕ) (f : ℕ → List ℕ) → l < n → length (f l) ≤ total n f
unfolding total
length-total zero l f k = omega arith
length-total (suc n) l f k = elim (Bool-cases (l == n)) [
  | inl e ↦ rw (eq_of_test l n e) (omega arith)
  | inr e ↦ above (length-total n l f (ground (arith, ne_of_test l n e)))
]
  where
    above : {a b : ℕ} → a ≤ b → a ≤ b + length (f n)
    above k = omega arith

grown :
    (c l t : ℕ) (qs : Lists)
    → l < 8
    → total 8 (set_list c l (qs c l ++ (t ∷ [])) qs c) ≡ suc (total 8 (qs c))
grown c l t qs k =
    let e = total-set_list 8 c l (qs c l ++ (t ∷ [])) qs k in
    let f = length-append (qs c l) (t ∷ []) in one_more e (f ∙ suc_lem (length (qs c l)))
  where
    suc_lem : (n : ℕ) → n + 1 ≡ suc n
    suc_lem n = omega arith

    one_more : {m n x y : ℕ} → m + x ≡ n + y → y ≡ suc x → m ≡ suc n
    one_more e f = omega arith

shrunk :
    (c l : ℕ) (ys : List ℕ) (qs : Lists)
    → l < 8
    → length (qs c l) ≡ suc (length ys)
    → total 8 (qs c) ≡ suc (total 8 (set_list c l ys qs c))
shrunk c l ys qs k f = one_less (total-set_list 8 c l ys qs k) f
  where
    one_less : {m n x y : ℕ} → m + x ≡ n + y → x ≡ suc y → n ≡ suc m
    one_less e f = omega arith

-- The counter of one processor follows a thread that is appended to one of its lists.
module _ (c l t : ℕ) (qs : Lists) (k : l < 8) (nr nr' : ℕ → ℕ) where
  pub count-append :
      ((d : ℕ) → nr' d ≡ (if d == c then add32 (nr c) 1 else nr d))
      → ((d : ℕ) → nr d ≡ total 8 (qs d))
      → suc (total 8 (qs c)) < mod32
      → (d : ℕ) → nr' d ≡ total 8 (set_list c l (qs c l ++ (t ∷ [])) qs d)
  count-append en e small d = elim (Bool-cases (d == c)) [
    | inl h ↦
        subst (λ x. nr' x ≡ total 8 (set_list c l (qs c l ++ (t ∷ [])) qs x))
          (sym (eq_of_test d c h)) (rw (en c, test_self c, grown c l t qs k, e c) (wrap small))
    | inr h ↦
        rw (en d, h) (e d ∙ sym (total-other 8 c l d (qs c l ++ (t ∷ [])) qs (ne_of_test d c h)))
  ]
    where
      wrap : {n : ℕ} → suc n < mod32 → add32 n 1 ≡ suc n
      wrap k = omega arith

module _ (c l t : ℕ) (qs : Lists) (k : l < 8) where
  pub small-append :
      ((d : ℕ) → total 8 (qs d) < mod32)
      → suc (total 8 (qs c)) < mod32
      → (d : ℕ) → total 8 (set_list c l (qs c l ++ (t ∷ [])) qs d) < mod32
  small-append s small d = elim (Bool-cases (d == c)) [
    | inl h ↦
        subst (λ x. total 8 (set_list c l (qs c l ++ (t ∷ [])) qs x) < mod32)
          (sym (eq_of_test d c h)) (rw (grown c l t qs k) small)
    | inr h ↦ rw (total-other 8 c l d (qs c l ++ (t ∷ [])) qs (ne_of_test d c h)) (s d)
  ]

-- The counter of one processor follows a thread that is taken out of one of its lists.
module _ (c l : ℕ) (ys : List ℕ) (qs : Lists) (k : l < 8)
    (f : length (qs c l) ≡ suc (length ys)) where
  pub count-shorter :
      (nr nr' : ℕ → ℕ)
      → ((d : ℕ) → nr' d ≡ (if d == c then sub32 (nr c) 1 else nr d))
      → ((d : ℕ) → nr d ≡ total 8 (qs d))
      → total 8 (qs c) < mod32
      → (d : ℕ) → nr' d ≡ total 8 (set_list c l ys qs d)
  count-shorter nr nr' en e small d = elim (Bool-cases (d == c)) [
    | inl h ↦
        subst (λ x. nr' x ≡ total 8 (set_list c l ys qs x)) (sym (eq_of_test d c h))
          (en c ∙ rw (test_self c) (wrap (e c ∙ shrunk c l ys qs k f) (shrunk c l ys qs k f) small))
    | inr h ↦ rw (en d, h) (e d ∙ sym (total-other 8 c l d ys qs (ne_of_test d c h)))
  ]
    where
      wrap : {m n x : ℕ} → x ≡ suc n → m ≡ suc n → m < mod32 → sub32 x 1 ≡ n
      wrap a b k = omega arith

  pub small-shorter :
      ((d : ℕ) → total 8 (qs d) < mod32) → (d : ℕ) → total 8 (set_list c l ys qs d) < mod32
  small-shorter s d = elim (Bool-cases (d == c)) [
    | inl h ↦
        subst (λ x. total 8 (set_list c l ys qs x) < mod32) (sym (eq_of_test d c h))
          (below (shrunk c l ys qs k f) (s c))
    | inr h ↦ rw (total-other 8 c l d ys qs (ne_of_test d c h)) (s d)
  ]
    where
      below : {m n : ℕ} → m ≡ suc n → m < mod32 → n < mod32
      below e k = omega arith
