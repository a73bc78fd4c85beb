-- ===== src/Vfs/Refs.antt =====
-- The counts of vnodes of kernel/src/fs/vfs/vfs.c: what takes a reference and what gives it back.
use lapis.Base.{
  ℕ, zero, suc, ◌<◌, ◌≡◌, refl, sym, ◌∙◌, ap, Bool, true, false, not, ◌&&◌, inl, inr, Option, some,
  none, ◌==◌, ◌>>=◌, if◌then◌else◌, add32, sub32, mod32, put, put_lem, ℤ, pos, negsuc, Bool-cases,
  arith, eq_of_test,
}
use lapis.Vfs.{
  Str, World, State, Vnode, vnode_ref, vnode_unref, matched, allocate, acquire, release,
  vfs_resolve_mount,
}
use lapis.Vfs.Lookup.{cross, on_world}
use lapis.Kfile.{is_eok}

-- The count of the vnode `a`, when a reference to `v` is taken or given back.
abbrev pub inc : (v a x : ℕ) → ℕ
inc v a x = if (a == v) && not (v == 0) then add32 x 1 else x

abbrev dec : (v a x : ℕ) → ℕ
dec v a x = if (a == v) && not (v == 0) then sub32 x 1 else x

back : (x : ℕ) → x < mod32 → sub32 (add32 x 1) 1 ≡ x
back x h = omega arith

inc_lt : (v a x : ℕ) → x < mod32 → inc v a x < mod32
inc_lt v a x h = ground (arith, h)

dec-inc : (v a x : ℕ) → x < mod32 → dec v a (inc v a x) ≡ x
dec-inc v a x h = elim (Bool-cases ((a == v) && not (v == 0))) [
  | inl e ↦ rw e (back x h)
  | inr e ↦ rw e refl
]

-- A reference that was taken first may be given back last.
dec-inc-inc : (u v a x : ℕ) → x < mod32 → dec u a (inc v a (inc u a x)) ≡ inc v a x
dec-inc-inc u v a x h = elim (Bool-cases ((a == u) && not (u == 0))) [
  | inr e ↦ rw e refl
  | inl e ↦ elim (Bool-cases ((a == v) && not (v == 0))) [
    | inl f ↦ rw (e, f) (back (add32 x 1) (omega arith))
    | inr f ↦ rw (e, f) (back x h)
  ]
]

-- Which vnode the caller has got: none after a failure.
abbrev pub got : ℤ → ℕ → ℕ
got r v = if is_eok r then v else 0

pub inc_zero : (a x : ℕ) → inc 0 a x ≡ x
inc_zero a x = elim (Bool-cases (a == 0)) [ inl e ↦ rw e refl | inr e ↦ rw e refl ]

put-count :
    (v a : ℕ) (x : Vnode) (m : ℕ → Vnode)
    → (put m v x a).refcount ≡ (if a == v then x.refcount else (m a).refcount)
put-count v a x m =
    ap (λ (n : Vnode). n.refcount) (put_lem m v x a)
    ∙ elim (Bool-cases (a == v)) [ inl f ↦ rw f refl | inr f ↦ rw f refl ]

module _ {ℓ} {F : Type ℓ} where
  abbrev pub count : World F → ℕ → ℕ
  count w a = (w.vnodes a).refcount

  pub count-ref : (v : ℕ) (w : World F) (a : ℕ) → count (vnode_ref v w) a ≡ inc v a (count w a)
  unfolding vnode_ref put
  count-ref v w a = elim (Bool-cases (v == 0)) [
    | inl e ↦ elim (Bool-cases (a == v)) [
      | inl f ↦ rw (vnode_ref, e, f) refl
      | inr f ↦ rw (vnode_ref, e, f) refl
    ]
    | inr e ↦ elim (Bool-cases (a == v)) [
      | inl f ↦
          let k = ap (λ x. add32 (w.vnodes x).refcount 1) (sym (eq_of_test a v f)) in
          rw (vnode_ref, e) (put-count v a _ w.vnodes ∙ rw f k)
      | inr f ↦ rw (vnode_ref, e) (put-count v a _ w.vnodes ∙ rw f refl)
    ]
  ]

  count-unref : (v : ℕ) (w : World F) (a : ℕ) → count (vnode_unref v w) a ≡ dec v a (count w a)
  unfolding vnode_unref put
  count-unref v w a = elim (Bool-cases (v == 0)) [
    | inl e ↦ elim (Bool-cases (a == v)) [
      | inl f ↦ rw (vnode_unref, e, f) refl
      | inr f ↦ rw (vnode_unref, e, f) refl
    ]
    | inr e ↦ elim (Bool-cases (a == v)) [
      | inl f ↦
          let k = ap (λ x. sub32 (w.vnodes x).refcount 1) (sym (eq_of_test a v f)) in
          rw (vnode_unref, e) (put-count v a _ w.vnodes ∙ rw f k)
      | inr f ↦ rw (vnode_unref, e) (put-count v a _ w.vnodes ∙ rw f refl)
    ]
  ]

  -- One more reference to `v` than the counts `c`.
  abbrev pub Held : (c : ℕ → ℕ) → (v : ℕ) → World F → Type 0
  Held c v w = (a : ℕ) → c a < mod32 → count w a ≡ inc v a (c a)

  abbrev pub Added : (ok : Bool) → (v : ℕ) → (w w0 : World F) → ℕ → Type 0
  Added ok v w w0 a = count w a ≡ inc (if ok then v else 0) a (count w0 a)

  -- What a lookup leaves: one reference more to the vnode that it gives.
  abbrev pub Taken : (c : ℕ → ℕ) → Option (ℤ × ℕ × State F) → Type 0
  Taken c none = Unit {0}
  Taken c (some (r, v, s)) = Held c (got r v) s.world

  pub Taken-bind :
      (c : ℕ → ℕ) (o : Option (ℤ × ℕ × State F)) (k : ℤ × ℕ × State F → Option (ℤ × ℕ × State F))
      → Taken c o
      → ((r : ℤ) (v : ℕ) (s : State F) → Held c (got r v) s.world → Taken c (k (r, v, s)))
      → Taken c (o >>= k)
  Taken-bind c none k t f = tt
  Taken-bind c (some (r, v, s)) k t f = f r v s t

  -- The reference to the current vnode is given back, without and with a next one.
  pub give_back : (c : ℕ → ℕ) (v : ℕ) (w : World F) → Held c v w → Held c 0 (vnode_unref v w)
  give_back c v w h a l =
      count-unref v w a ∙ ap (dec v a) (h a l) ∙ dec-inc v a (c a) l ∙ sym (inc_zero a (c a))

  pub give_back_first :
      (c : ℕ → ℕ) (u v : ℕ) (w : World F)
      → ((a : ℕ) → c a < mod32 → count w a ≡ inc v a (inc u a (c a)))
      → Held c v (vnode_unref u w)
  give_back_first c u v w h a l =
      count-unref u w a ∙ ap (dec u a) (h a l) ∙ dec-inc-inc u v a (c a) l

  -- A failure ends the walk.
  pub Taken-after :
      (c : ℕ → ℕ) (r : ℤ) (v : ℕ) (s : State F) (o : Option (ℤ × ℕ × State F))
      → Held c (got r v) s.world
      → (Held c v s.world → Taken c o)
      → Taken c (elim r [
        | pos zero ↦ o
        | pos (suc k) ↦ some (pos (suc k), 0, s)
        | negsuc k ↦ some (negsuc k, 0, s)
      ])
  Taken-after c (pos zero) v s o h p = p h
  Taken-after c (pos (suc k)) v s o h p = h
  Taken-after c (negsuc k) v s o h p = h

  -- A vnode that is mounted on, with the reference moved over.
  pub cross-Held :
      (c : ℕ → ℕ) (v u : ℕ) (s : State F)
      → ((a : ℕ) → c a < mod32 → count s.world a ≡ inc v a (inc u a (c a)))
      → (a : ℕ) → c a < mod32
      → count (cross v s).1.world a ≡ inc (cross v s).0 a (inc u a (c a))
  unfolding cross on_world
  cross-Held c v u s h a l = elim (Bool-cases ((s.world.vnodes v).vfs_here == 0)) [
    | inl e ↦ rw (cross, e) (h a l)
    | inr e ↦
        let root = (s.world.fss (s.world.vnodes v).vfs_here).root_vnode in
        let k : dec v a (count s.world a) ≡ inc u a (c a) =
          ap (dec v a) (h a l) ∙ dec-inc v a (inc u a (c a)) (inc_lt u a (c a) l) in
        rw (cross, e)
          (count-ref root (vnode_unref v s.world) a ∙ ap (inc root a) (count-unref v s.world a ∙ k))
  ]

module _ {ℓ} {F : Type ℓ} where
  -- No count is changed.
  abbrev pub Kept : State F → Option (ℤ × ℕ × Option Str × State F) → Type 0
  Kept s none = Unit {0}
  Kept s (some (r, v, rel, t)) = (a : ℕ) → count t.world a ≡ count s.world a

  allocate-count : (w : World F) (a : ℕ) → count (allocate w).1 a ≡ count w a
  unfolding allocate
  allocate-count w a = room_lem w.room w a
    where
      room_lem :
          (n : ℕ) (w : World F) (a : ℕ)
          → count
              (let o : Bool × World F = elim n [
                | zero ↦ (false, w)
                | suc k ↦ (true, record w { room = k })
              ] in
                o).1
              a
            ≡ count w a
      room_lem zero w a = refl
      room_lem (suc k) w a = refl

  pub resolve-Kept : (path : Str) (s : State F) → Kept s (vfs_resolve_mount path s)
  unfolding vfs_resolve_mount acquire release
  resolve-Kept path s = elim (Bool-cases s.list_locked) [
    | inl u ↦ rw (vfs_resolve_mount, acquire, u) tt
    | inr u ↦ elim (Bool-cases ((matched s.world path s.vfs_list).0 == 0)) [
      | inl e ↦ rw (vfs_resolve_mount, acquire, u, e) (λ a. refl)
      | inr e ↦ rw (vfs_resolve_mount, acquire, u, e) (allocate-count s.world)
    ]
  ]
