-- ===== src/Mm/Vmm/Gap.antt =====
-- `_find_free_gap` finds the highest gap, and its loop ends.
use lapis.Base.{
  ℕ, zero, suc, ◌+◌, ◌<◌, ◌≤◌, ◌≡◌, refl, sym, ap, ◌∙◌, true, false, ◌&&◌, Bool-cases, Option-cases,
  inl, inr, ◌⊎◌, some, none, some_inj, subst, List, [], ◌∷◌, arith, if◌then◌else◌, ltb, leb, ◌==◌,
  add64, sub64, mod64, length,
}
use lapis.Rbtree.Sequence.{lower_bound}
use lapis.Mm.Vmm.{
  Vma, base_of, find_vma, find_vma_next, GapRound, found, no_gap, retry, gap_at, gap_round,
  gap_loop, align_down, vmm_user_start, Vmm, find_free_gap,
}
use lapis.Mm.Vmm.Find.{Apart, AllBehind, holder, find_vma-holder}

-- No area has an address from `lo` up to `hi`.
abbrev pub Clear : ℕ → ℕ → List Vma → Type 0
Clear lo hi [] = Unit {0}
Clear lo hi (v ∷ vs) = ((v.base + v.size ≤ lo) ⊎ (hi ≤ v.base)) × Clear lo hi vs

abbrev pub Among : Vma → List Vma → Type 0
Among v [] = ⊥
Among v (x ∷ xs) = (v ≡ x) ⊎ Among v xs

pub Clear-Among :
    (lo hi : ℕ) (v : Vma) (vs : List Vma)
    → Clear lo hi vs
    → Among v vs
    → (v.base + v.size ≤ lo) ⊎ (hi ≤ v.base)
Clear-Among lo hi v [] c m = elim m [ ]
Clear-Among lo hi v (x ∷ xs) (c, cs) (inl e) =
    subst (λ (u : Vma). (u.base + u.size ≤ lo) ⊎ (hi ≤ u.base)) (sym e) c
Clear-Among lo hi v (x ∷ xs) (c, cs) (inr m) = Clear-Among lo hi v xs cs m

pub holder-Among :
    (vs : List Vma) (a : ℕ) (v : Vma)
    → holder vs a ≡ some v
    → Among v vs × (v.base ≤ a) × (a < v.base + v.size)
holder-Among [] a v e = cc
holder-Among (x ∷ xs) a v e = elim (Bool-cases (leb x.base a && ltb a (x.base + x.size))) [
  | inl h ↦
      let e' : x ≡ v = some_inj.0 (rw h at e) in
      let w =
        subst (λ (u : Vma). (u.base ≤ a) × (a < u.base + u.size)) e' (ends x.base x.size a h) in
      (inl (sym e'), w.0, w.1)
  | inr h ↦ let r = holder-Among xs a v (rw h at e) in (inr r.0, r.1, r.2)
]
  where
    ends : (b s a : ℕ) → (leb b a && ltb a (b + s)) ≡ true → (b ≤ a) × (a < b + s)
    ends b s a h = ground arith

lower-Among :
    (vs : List Vma) (a : ℕ) (v : Vma)
    → lower_bound base_of a vs ≡ some v
    → Among v vs × (a ≤ v.base)
lower-Among [] a v e = cc
lower-Among (x ∷ xs) a v e = elim (Bool-cases (ltb x.base a)) [
  | inl h ↦ let r = lower-Among xs a v (rw h at e) in (inr r.0, r.1)
  | inr h ↦
      let e' : x ≡ v = some_inj.0 (rw h at e) in
      (inl (sym e'), subst (λ (u : Vma). a ≤ u.base) e' (le_of_not x.base a h))
]
  where
    le_of_not : (b a : ℕ) → ltb b a ≡ false → a ≤ b
    le_of_not b a h = ground arith

AllBehind-Clear : (end lo hi : ℕ) (vs : List Vma) → AllBehind end vs → hi ≤ end → Clear lo hi vs
AllBehind-Clear end lo hi [] b h = tt
AllBehind-Clear end lo hi (v ∷ vs) (b, bs) h =
    (inr (omega arith), AllBehind-Clear end lo hi vs bs h)

pub Among-size : (v : Vma) (vs : List Vma) → Apart vs → Among v vs → 0 < v.size
Among-size v [] i m = elim m [ ]
Among-size v (x ∷ xs) (z, k, b, i) (inl e) = subst (λ (u : Vma). 0 < u.size) (sym e) z
Among-size v (x ∷ xs) (z, k, b, i) (inr m) = Among-size v xs i m

-- With nothing at `lo` and the next area at `hi` or behind, the range is clear.
next-Clear :
    (lo hi : ℕ) (vs : List Vma)
    → Apart vs
    → holder vs lo ≡ none
    → ((v : Vma) → lower_bound base_of lo vs ≡ some v → hi ≤ v.base)
    → Clear lo hi vs
next-Clear lo hi [] i n f = tt
next-Clear lo hi (v ∷ vs) (z, m, b, i) n f = elim (Bool-cases (ltb v.base lo)) [
  | inr h ↦
      let k = f v (rw h refl) in (inr k, AllBehind-Clear (v.base + v.size) lo hi vs b (omega arith))
  | inl h ↦
      let w = passed v.base v.size h n in (inl w.0, next-Clear lo hi vs i w.1 (λ u e. f u (rw h e)))
]
  where
    passed :
        (b s : ℕ)
        → ltb b lo ≡ true
        → (if leb b lo && ltb lo (b + s) then some v else holder vs lo) ≡ none
        → (b + s ≤ lo) × (holder vs lo ≡ none)
    passed b s h e = ground arith

-- A round at a candidate: the gap, or an area that blocks it, and every gap that is not below.
gap_at-lem :
    (vs : List Vma) (c size : ℕ)
    → Apart vs
    → 0 < size
    → c + size < mod64
    → ((gap_at vs c size ≡ found c) × Clear c (c + size) vs)
      ⊎ ((v : Vma) × (gap_at vs c size ≡ retry v.base)
          × Among v vs
          × (v.base < c + size)
          × (c < v.base + v.size))
unfolding gap_at find_vma_next
gap_at-lem vs c size i z k = elim (Option-cases (find_vma vs c)) [
  | inr (v, e) ↦
      let h = holder-Among vs c v (sym (find_vma-holder vs c i) ∙ e) in
      inr (v, rw (gap_at, e) refl, h.0, omega arith, h.2)
  | inl e ↦
      let free = sym (find_vma-holder vs c i) ∙ e in
      elim (Option-cases (find_vma vs (sub64 (add64 c size) 1))) [
        | inr (v, f) ↦
            let h =
              holder-Among vs (sub64 (add64 c size) 1) v
                (sym (find_vma-holder vs (sub64 (add64 c size) 1) i) ∙ f) in
            inr (v, rw (gap_at, e, f) refl, h.0, omega arith, omega arith)
        | inl f ↦ elim (Option-cases (lower_bound base_of c vs)) [
          | inl g ↦ inl (rw (gap_at, e, f, g) refl, next-Clear c (c + size) vs i free (λ v w. cc))
          | inr (v, g) ↦ elim (Bool-cases (leb (add64 c size) v.base)) [
            | inl h ↦ inl (
              rw (gap_at, e, f, g, h) refl,
              next-Clear c (c + size) vs i free (λ u w.
                  subst (λ (u : Vma). c + size ≤ u.base) (some_inj.0 (sym g ∙ w))
                    (behind v.base h)),
            )
            | inr h ↦
                let l = lower-Among vs c v g in
                inr (
                  v,
                  rw (gap_at, e, f, g, h) refl,
                  l.0,
                  before v.base h,
                  reach v.base v.size l.1 (Among-size v vs i l.0),
                )
          ]
        ]
      ]
]
  where
    behind : (b : ℕ) → leb (add64 c size) b ≡ true → c + size ≤ b
    behind b h = ground arith

    reach : (b s : ℕ) → c ≤ b → 0 < s → c < b + s
    reach b s h k = omega arith

    before : (b : ℕ) → leb (add64 c size) b ≡ false → b < c + size
    before b h = ground arith

-- A page-aligned range of user addresses below `top` that no area reaches into.
pub record IsGap (size : ℕ) (vs : List Vma) (top c : ℕ) : Type 0 where
  pub aligned : align_down c ≡ c
  pub user : vmm_user_start ≤ c
  pub below : c + size ≤ top
  pub clear : Clear c (c + size) vs

-- The areas that start below an address.
abbrev under : ℕ → List Vma → ℕ
under h [] = 0
under h (v ∷ vs) = (if ltb v.base h then 1 else 0) + under h vs

pub under-le-length : (h : ℕ) (vs : List Vma) → under h vs ≤ length vs
under-le-length h [] = omega arith
under-le-length h (v ∷ vs) = ground (arith, under-le-length h vs)

under_mono : (g h : ℕ) (vs : List Vma) → g ≤ h → under g vs ≤ under h vs
under_mono g h [] k = omega arith
under_mono g h (v ∷ vs) k = ground (arith, under_mono g h vs k)

under-lt :
    (h : ℕ) (v : Vma) (vs : List Vma) → Among v vs → v.base < h → under v.base vs < under h vs
under-lt h v [] m k = elim m [ ]
under-lt h v (x ∷ xs) (inl e) k =
    let w = subst (λ (u : Vma). v.base ≡ u.base) e refl in ground (arith, under_mono v.base h xs)
under-lt h v (x ∷ xs) (inr m) k = ground (arith, under-lt h v xs m k)

-- What a search below `top` gives: a gap, and the highest one, or 0 if there is none.
abbrev pub Highest : ℕ → List Vma → ℕ → ℕ → Type 0
Highest size vs top a = ((a ≡ 0) ⊎ IsGap size vs top a) × ((c : ℕ) → IsGap size vs top c → c ≤ a)

module _ (vs : List Vma) (size : ℕ) (i : Apart vs) (z : 0 < size)
    (small : size + vmm_user_start < mod64) where
  retried :
      (hint c : ℕ) (v : Vma) (a : ℕ)
      → Among v vs
      → v.base ≤ hint
      → ((d : ℕ) → IsGap size vs hint d → d ≤ c)
      → c < v.base + v.size
      → Highest size vs v.base a
      → Highest size vs hint a
  retried hint c v a m h most k (r, w) = (
    elim r [
      | inl e ↦ inl e
      | inr g ↦
          inr (record { aligned = g.aligned; user = g.user; below = up g.below; clear = g.clear })
    ],
    λ d g. w d (record {
      aligned = g.aligned;
      user = g.user;
      below = elim (Clear-Among d (d + size) v vs g.clear m) [
        | inl e ↦ absurd (over d (most d g) e)
        | inr e ↦ e
      ];
      clear = g.clear;
    }),
  )
    where
      up : {n : ℕ} → n ≤ v.base → n ≤ hint
      up e = omega arith

      over : (d : ℕ) → d ≤ c → v.base + v.size ≤ d → ⊥
      over d e f = omega arith

  module _ (hint : ℕ) (h : hint < mod64) where
    abbrev candidate : ℕ
    candidate = align_down (sub64 hint size)

    enough : ltb hint (add64 vmm_user_start size) ≡ false → size ≤ hint
    enough e = ground arith

    short : ltb hint (add64 vmm_user_start size) ≡ true → hint < vmm_user_start + size
    short e = ground arith

    candidate-fits : size ≤ hint → candidate + size ≤ hint
    unfolding align_down
    candidate-fits e = omega arith

    candidate-aligned : align_down candidate ≡ candidate
    unfolding align_down
    candidate-aligned = omega arith

    candidate-most : (d : ℕ) → IsGap size vs hint d → d ≤ candidate
    unfolding align_down
    candidate-most d g = let a = g.aligned in let b = g.below in omega arith

    user_of : ltb candidate vmm_user_start ≡ false → vmm_user_start ≤ candidate
    user_of e = ground arith

    low_of : ltb candidate vmm_user_start ≡ true → candidate < vmm_user_start
    low_of e = ground arith

    -- How a round ends.
    abbrev Rounded : GapRound → Type 0
    Rounded no_gap = (c : ℕ) → IsGap size vs hint c → c ≤ 0
    Rounded (found c) = IsGap size vs hint c × ((d : ℕ) → IsGap size vs hint d → d ≤ c)
    Rounded (retry b) =
        (v : Vma) × (b ≡ v.base) × Among v vs × (v.base < hint) × (candidate < v.base + v.size)

    gap_round-lem : (o : GapRound) × (gap_round vs hint size ≡ o) × Rounded o
    unfolding gap_round
    gap_round-lem = elim (Bool-cases (ltb hint (add64 vmm_user_start size))) [
      | inl e ↦ (no_gap, rw e refl, λ d g. absurd (none_short d e g))
      | inr e ↦ elim (Bool-cases (ltb candidate vmm_user_start)) [
        | inl g ↦ (no_gap, rw (e, g) refl, λ d k. absurd (none_low d g k))
        | inr g ↦
            let fits = candidate-fits (enough e) in
            elim (gap_at-lem vs candidate size i z (omega arith)) [
              | inl (w, k) ↦ (
                found candidate,
                rw (e, g) w,
                (
                  record { aligned = candidate-aligned; user = user_of g; below = fits; clear = k },
                  candidate-most,
                ),
              )
              | inr (v, w, m, b, k) ↦ (retry v.base, rw (e, g) w, (v, refl, m, omega arith, k))
            ]
      ]
    ]
      where
        none_short :
            (d : ℕ) → ltb hint (add64 vmm_user_start size) ≡ true → IsGap size vs hint d → ⊥
        none_short d e g = let s = short e in let u = g.user in let b = g.below in omega arith

        none_low : (d : ℕ) → ltb candidate vmm_user_start ≡ true → IsGap size vs hint d → ⊥
        none_low d e g =
            let s = low_of e in let u = g.user in let b = candidate-most d g in omega arith

  -- With more rounds than areas start below the hint, the loop ends, with the highest gap there is.
  gap_loop-lem :
      (fuel hint : ℕ)
      → hint < mod64
      → under hint vs < fuel
      → (a : ℕ) × (gap_loop fuel vs hint size ≡ some a) × Highest size vs hint a
  unfolding gap_loop
  gap_loop-lem zero hint h f = absurd (omega arith)
  gap_loop-lem (suc fuel) hint h f =
      let r = gap_round-lem hint h in ended r.0 r.1 r.2 (λ g k l. gap_loop-lem fuel g k l)
    where
      ended :
          (o : GapRound)
          → gap_round vs hint size ≡ o
          → Rounded hint h o
          → ((g : ℕ)
              → g < mod64
              → under g vs < fuel
              → (a : ℕ) × (gap_loop fuel vs g size ≡ some a) × Highest size vs g a)
          → (a : ℕ) × (gap_loop (suc fuel) vs hint size ≡ some a) × Highest size vs hint a
      ended no_gap e r rest = (0, rw (gap_loop, e) refl, (inl refl, r))
      ended (found c) e r rest = (c, rw (gap_loop, e) refl, (inr r.0, r.1))
      ended (retry b) e (v, w, m, k, l) rest =
          let r = rest v.base (omega arith) (omega (arith, under-lt hint v vs m k)) in
          (
            r.0,
            rw (gap_loop, e) (ap (λ x. gap_loop fuel vs x size) w ∙ r.1),
            retried hint (candidate hint h) v r.0 m (omega arith) (candidate-most hint h) l r.2,
          )

-- `_find_free_gap` ends within one round more than there are areas. In areas that lie apart it gives
-- the highest page-aligned range of this size below `mmap_base` that no area reaches into and that
-- lies in user space, and moves `mmap_base` there; if there is none it gives 0 and moves nothing.
pub find_free_gap-Highest :
    (vmm : Vmm) (size : ℕ)
    → Apart vmm.vmas
    → 0 < size
    → size + vmm_user_start < mod64
    → vmm.mmap_base < mod64
    → (a : ℕ) × (find_free_gap (suc (length vmm.vmas)) vmm size
        ≡ some (a, if a == 0 then vmm else record vmm { mmap_base = a }))
      × Highest size vmm.vmas vmm.mmap_base a
unfolding find_free_gap
find_free_gap-Highest vmm size i z small h =
    let r =
      gap_loop-lem vmm.vmas size i z small (suc (length vmm.vmas)) vmm.mmap_base h
        (omega (arith, under-le-length vmm.mmap_base vmm.vmas)) in
    given r.0 r.1 r.2
  where
    given :
        (a : ℕ)
        → gap_loop (suc (length vmm.vmas)) vmm.vmas vmm.mmap_base size ≡ some a
        → Highest size vmm.vmas vmm.mmap_base a
        → (a : ℕ) × (find_free_gap (suc (length vmm.vmas)) vmm size
            ≡ some (a, if a == 0 then vmm else record vmm { mmap_base = a }))
          × Highest size vmm.vmas vmm.mmap_base a
    given a e r = (a, rw (find_free_gap, e) refl, r)
