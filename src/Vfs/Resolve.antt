-- ===== src/Vfs/Resolve.antt =====
-- `vfs_resolve_mount` of kernel/src/fs/vfs/vfs.c: which file system a path belongs to.
use lapis.Base.{
  ℕ, ◌≤◌, ◌≡◌, ◌≢◌, refl, sym, ap, subst, true, false, ◌⊎◌, inl, inr, Option, some, none, List, [],
  ◌∷◌, ◌++◌, ◌==◌, if◌then◌else◌, length, has, first_of, ℤ, pos, negsuc, Bool-cases, arith,
  eq_of_test,
}
use lapis.Vfs.{
  Str, slash, World, State, skip, drop, is_root, mount_path, best_match, matched, allocate, acquire,
  release, vfs_resolve_mount,
}
use lapis.Vfs.Prefix.{IsStr, Under, is_root-slash, fits-Under, Under-fits}
use lapis.Vfs.Best.{best_match-Best}

drop-append : (p rest : Str) → drop (length p) (p ++ rest) ≡ rest
unfolding drop
drop-append [] rest = refl
drop-append (p ∷ ps) rest = drop-append ps rest

length_zero : (s : Str) → length s ≤ 0 → s ≡ []
length_zero [] h = refl
length_zero (c ∷ cs) h = absurd (omega arith)

not_zero : (v : ℕ) (vs : List ℕ) → has 0 vs ≡ false → has v vs ≡ true → (v == 0) ≡ false
not_zero v vs z h = elim (Bool-cases (v == 0)) [
  | inr e ↦ e
  | inl e ↦
      let q : has 0 vs ≡ true = subst (λ x. has x vs ≡ true) (eq_of_test v 0 e) h in
      absurd (ground (arith, q, z))
]

has-first_of : (vs : List ℕ) → vs ≢ [] → has (first_of vs) vs ≡ true
has-first_of [] n = absurd (n refl)
has-first_of (v ∷ vs) n = ground arith

module _ {ℓ} {F : Type ℓ} where
  -- The file system at the address `v` is mounted, and the path is at or below its mount point.
  abbrev pub Covers : State F → Str → (v : ℕ) → (rest : Str) → Type 0
  Covers s path v rest =
      (has v s.vfs_list ≡ true)
      × (((s.world.fss v).root_vnode == 0) ≡ false)
      × Under (mount_path s.world v) path rest

  -- The answer is the file system of the longest mount point above the path, with the rest.
  abbrev pub Longest : State F → Str → (r : ℤ) → (v : ℕ) → Option Str → Type 0
  Longest s path r v rel =
      (rest : Str) × (r ≡ pos 0)
      × Covers s path v rest
      × ((u : ℕ) (rest2 : Str)
          → Covers s path u rest2
          → length (mount_path s.world u) ≤ length (mount_path s.world v))
      × (rel ≡ (if (allocate s.world).0 then some (skip rest) else none))

  -- No file system has a mount point above the path. "/" is then the first one's.
  abbrev pub Uncovered : State F → Str → (r : ℤ) → (v : ℕ) → Option Str → Type 0
  Uncovered s path r v rel =
      ((u : ℕ) (rest2 : Str) → Covers s path u rest2 → mount_path s.world u ≡ [])
      × (((r ≡ negsuc 1) × ((is_root path ≡ false) ⊎ (s.vfs_list ≡ [])))
          ⊎ ((r ≡ pos 0) × (path ≡ slash ∷ []) × (v ≡ first_of s.vfs_list)))

  -- The last step of the search, without and with a match.
  matched_none :
      (w : World F) (path : Str) (vs : List ℕ)
      → (best_match w path vs 0 0).0 ≡ 0
      → ((matched w path vs ≡ (0, 0)) × ((is_root path ≡ false) ⊎ (vs ≡ [])))
        ⊎ ((matched w path vs ≡ (first_of vs, 1)) × (is_root path ≡ true) × (vs ≢ []))
  unfolding matched
  matched_none w path [] e = inl (rw (matched, e) refl, inr refl)
  matched_none w path (v ∷ vs) e = elim (Bool-cases (is_root path)) [
    | inl r ↦ inr (rw (matched, e, r) refl, r, λ q. absurd (ground (arith, ap length q)))
    | inr r ↦ inl (rw (matched, e, r) refl, inl r)
  ]

  matched_some :
      (w : World F) (path : Str) (vs : List ℕ)
      → ((best_match w path vs 0 0).0 == 0) ≡ false
      → matched w path vs ≡ best_match w path vs 0 0
  unfolding matched
  matched_some w path vs e = rw (matched, e) refl

  -- The answer for a match `v`, with `n` bytes of the path taken.
  resolve_to :
      (path : Str) (s : State F) (v n : ℕ)
      → s.list_locked ≡ false
      → matched s.world path s.vfs_list ≡ (v, n)
      → (v == 0) ≡ false
      → (t : State F) × (vfs_resolve_mount path s
          ≡ some (pos 0, v, if (allocate s.world).0 then some (skip (drop n path)) else none, t))
  unfolding vfs_resolve_mount acquire release
  resolve_to path s v n u e z =
      let t : State F = record s { list_locked = false } in
      (record t { world = (allocate s.world).1 }, rw (vfs_resolve_mount, acquire, u, e, z) refl)

  resolve_none :
      (path : Str) (s : State F)
      → s.list_locked ≡ false
      → matched s.world path s.vfs_list ≡ (0, 0)
      → vfs_resolve_mount path s ≡ some (negsuc 1, 0, none, record s { list_locked = false })
  unfolding vfs_resolve_mount acquire release
  resolve_none path s u e = rw (vfs_resolve_mount, acquire, u, e) refl

  -- `vfs_resolve_mount`, with the list unlocked and no NULL in it: if a mounted file system with a
  -- path of its own covers the path, the result is EOK, a covering one whose mount point is the
  -- longest, and the rest of the path behind it without leading slashes (NULL if `strdup` fails).
  -- Otherwise the result is ENOENT, but for "/", which belongs to the first file system.
  pub vfs_resolve_mount-Longest :
      (path : Str) (s : State F)
      → IsStr path
      → s.list_locked ≡ false
      → has 0 s.vfs_list ≡ false
      → (r : ℤ) × (v : ℕ) × (rel : Option Str) × (t : State F) × (vfs_resolve_mount path s
          ≡ some (r, v, rel, t))
        × (Longest s path r v rel ⊎ Uncovered s path r v rel)
  unfolding vfs_resolve_mount acquire release matched
  vfs_resolve_mount-Longest path s i u z =
      let (from, le, all) = best_match-Best s.world path s.vfs_list 0 0 in
      let (b, n) = best_match s.world path s.vfs_list 0 0 in
      let bound : (u : ℕ) (rest : Str) → Covers s path u rest → length (mount_path s.world u) ≤ n =
        λ u rest (h, m, c). all u h (m, Under-fits (mount_path s.world u) path rest c) in
      elim from [
        | inr (h, (m, f), e, l) ↦
            let nz = not_zero b s.vfs_list z h in
            let (rest, c) = fits-Under (mount_path s.world b) path i f in
            let (t, q) = resolve_to path s b n u (matched_some s.world path s.vfs_list nz) nz in
            let d : drop n path ≡ rest =
              subst (λ x. drop x path ≡ rest) (sym e)
                (subst (λ x. drop (length (mount_path s.world b)) x ≡ rest) (sym c.0)
                  (drop-append (mount_path s.world b) rest)) in
            (
              pos 0,
              b,
              (if (allocate s.world).0 then some (skip (drop n path)) else none),
              t,
              q,
              inl (
                rest,
                refl,
                (h, m, c),
                λ u2 r2 k. subst (λ x. length (mount_path s.world u2) ≤ x) e (bound u2 r2 k),
                ap (λ x. if (allocate s.world).0 then some (skip x) else none) d,
              ),
            )
        | inl (eb, en) ↦
            let empty : (u : ℕ) (rest : Str) → Covers s path u rest → mount_path s.world u ≡ [] =
              λ u2 r2 k.
                length_zero _
                  (subst (λ x. length (mount_path s.world u2) ≤ x) en (bound u2 r2 k)) in
            elim (matched_none s.world path s.vfs_list eb) [
              | inl (e, c) ↦
                  (negsuc 1, 0, none, _, resolve_none path s u e, inr (empty, inl (refl, c)))
              | inr (e, r, ne) ↦
                  let h = has-first_of s.vfs_list ne in
                  let (t, q) =
                    resolve_to path s (first_of s.vfs_list) 1 u e (not_zero _ s.vfs_list z h) in
                  (
                    pos 0,
                    first_of s.vfs_list,
                    _,
                    t,
                    q,
                    inr (empty, inr (refl, is_root-slash path r, refl)),
                  )
            ]
      ]
