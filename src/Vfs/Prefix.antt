-- ===== src/Vfs/Prefix.antt =====
-- The tests of `vfs_resolve_mount` of kernel/src/fs/vfs/vfs.c: paths at and below a mount point.
use lapis.Base.{
  ◌≡◌, ◌≢◌, refl, sym, ◌∙◌, ap, subst, Bool, true, false, ◌&&◌, ◌||◌, ◌⊎◌, inl, inr, [], ◌∷◌, ◌++◌,
  ◌==◌, ltb, length, Bool-cases, arith, eq_of_test, length-append,
}
use lapis.Vfs.{Str, slash, starts, byte_at, is_root, fits}

-- A string has no NUL before its end.
abbrev pub IsStr : Str → Type 0
IsStr [] = Unit {0}
IsStr (c ∷ cs) = (c ≢ 0) × IsStr cs

-- The rest of a path behind whole components.
abbrev pub Ends : Str → Type 0
Ends [] = Unit {0}
Ends (c ∷ cs) = c ≡ slash

-- A path is at or below a mount point: the point is "/", or its components start the path.
abbrev pub Under : (prefix path rest : Str) → Type 0
Under prefix path rest = (path ≡ prefix ++ rest) × ((is_root prefix ≡ true) ⊎ Ends rest)

starts-append :
    (p s : Str)
    → starts p s ≡ true
    → (rest : Str) × (s ≡ p ++ rest) × (byte_at s (length p) ≡ byte_at rest 0)
unfolding starts byte_at
starts-append [] s e = (s, refl, refl)
starts-append (p ∷ ps) [] e = absurd (ground (arith, e))
starts-append (p ∷ ps) (c ∷ cs) e = elim (Bool-cases (p == c)) [
  | inl h ↦
      let (rest, q, b) = starts-append ps cs (sym (rw h refl) ∙ e) in
      (rest, ap (λ x. c ∷ x) q ∙ ap (λ x. x ∷ (ps ++ rest)) (sym (eq_of_test p c h)), b)
  | inr h ↦ absurd (ground (arith, h, e))
]

append-starts : (p rest : Str) → starts p (p ++ rest) ≡ true
unfolding starts
append-starts [] rest = refl
append-starts (p ∷ ps) rest = ground (arith, append-starts ps rest)

byte-append : (p rest : Str) → byte_at (p ++ rest) (length p) ≡ byte_at rest 0
unfolding byte_at
byte-append [] rest = refl
byte-append (p ∷ ps) rest = byte-append ps rest

IsStr-behind : (p rest : Str) → IsStr (p ++ rest) → IsStr rest
IsStr-behind [] rest s = s
IsStr-behind (p ∷ ps) rest (_, s) = IsStr-behind ps rest s

Ends-of_byte :
    (rest : Str)
    → IsStr rest
    → ((byte_at rest 0 == 0) || (byte_at rest 0 == slash)) ≡ true
    → Ends rest
unfolding byte_at
Ends-of_byte [] s e = tt
Ends-of_byte (c ∷ cs) (z, s) e = ground (arith, e)

byte_of_Ends :
    (rest : Str) → Ends rest → ((byte_at rest 0 == 0) || (byte_at rest 0 == slash)) ≡ true
unfolding byte_at
byte_of_Ends [] e = refl
byte_of_Ends (c ∷ cs) e = rw e refl

pub is_root-slash : (p : Str) → is_root p ≡ true → p ≡ slash ∷ []
unfolding is_root
is_root-slash [] e = absurd (ground (arith, e))
is_root-slash (c ∷ []) e = ap (λ x. x ∷ []) (eq_of_test c slash e)
is_root-slash (c ∷ (d ∷ cs)) e = absurd (ground (arith, e))

slash-first : (s : Str) → (byte_at s 0 == slash) ≡ true → (rest : Str) × (s ≡ slash ∷ rest)
unfolding byte_at
slash-first [] e = absurd (ground (arith, e))
slash-first (c ∷ cs) e = (cs, ap (λ x. x ∷ cs) (eq_of_test c slash e))

and-true : (a b : Bool) → (a && b) ≡ true → (a ≡ true) × (b ≡ true)
and-true true b e = (refl, e)
and-true false b e = absurd (ground (arith, e))

-- The two tests of the code behind the one of the lengths.
fits_root :
    (p s : Str)
    → ltb (length s) (length p) ≡ false
    → is_root p ≡ true
    → fits p s ≡ (byte_at s 0 == slash)
unfolding fits
fits_root p s l r = rw (l, r) refl

fits_other :
    (p s : Str)
    → ltb (length s) (length p) ≡ false
    → is_root p ≡ false
    → fits p s ≡ (starts p s && ((byte_at s (length p) == 0) || (byte_at s (length p) == slash)))
unfolding fits
fits_other p s l r = rw (l, r) refl

fits_short : (p s : Str) → ltb (length s) (length p) ≡ true → fits p s ≡ false
unfolding fits
fits_short p s l = rw l refl

-- The tests of the code mean just that.
pub fits-Under : (p s : Str) → IsStr s → fits p s ≡ true → (rest : Str) × Under p s rest
fits-Under p s i e = elim (Bool-cases (ltb (length s) (length p))) [
  | inl l ↦ absurd (ground (arith, sym (fits_short p s l) ∙ e))
  | inr l ↦ elim (Bool-cases (is_root p)) [
    | inl r ↦
        let (rest, z) = slash-first s (sym (fits_root p s l r) ∙ e) in
        (rest, (subst (λ x. s ≡ x ++ rest) (sym (is_root-slash p r)) z, inl r))
    | inr r ↦
        let (a, b) = and-true _ _ (sym (fits_other p s l r) ∙ e) in
        let (rest, z, y) = starts-append p s a in
        let i2 = IsStr-behind p rest (subst IsStr z i) in
        let b2 = subst (λ x. ((x == 0) || (x == slash)) ≡ true) y b in
        (rest, (z, inr (Ends-of_byte rest i2 b2)))
  ]
]

not-short : (p rest : Str) → ltb (length (p ++ rest)) (length p) ≡ false
not-short p rest = ground (arith, length-append p rest)

first-slash : (rest : Str) → (byte_at (slash ∷ rest) 0 == slash) ≡ true
unfolding byte_at
first-slash rest = refl

pub Under-fits : (p s rest : Str) → Under p s rest → fits p s ≡ true
Under-fits p s rest (e, h) =
    subst (λ x. fits p x ≡ true) (sym e)
      (elim (Bool-cases (is_root p)) [
        | inl r ↦
            let q =
              subst (λ x. (byte_at (x ++ rest) 0 == slash) ≡ true) (sym (is_root-slash p r))
                (first-slash rest) in
            fits_root p (p ++ rest) (not-short p rest) r ∙ q
        | inr r ↦
            fits_other p (p ++ rest) (not-short p rest) r
            ∙ rw (append-starts p rest, byte-append p rest)
                (byte_of_Ends rest (elim h [ inl q ↦ absurd (ground (arith, r, q)) | inr q ↦ q ]))
      ])
