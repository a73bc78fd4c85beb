-- ===== src/Dev/Driven.antt =====
-- kernel/src/dev/driver.c: the driver that the search finds, and devices with a driver.
use lapis.Base.{
  ℕ, ◌≡◌, refl, sym, ◌∙◌, ap, subst, true, false, ◌⊎◌, inl, inr, List, [], ◌∷◌, ◌==◌, has, put,
  put_lem, Bool-cases, arith, eq_of_test, test_self,
}
use lapis.Dev.{DeviceId, Device, Driver, Devs, match_any, find_driver}

-- The search of the driver list finds a driver that matches, unless none does.
pub find_driver_lem :
    (drivers : ℕ → Driver) (dev : DeviceId) (ds : List ℕ)
    → has 0 ds ≡ false
    → ((find_driver drivers dev ds ≡ 0)
        × ((d : ℕ) → has d ds ≡ true → match_any dev (drivers d).id_table ≡ false))
      ⊎ (((find_driver drivers dev ds == 0) ≡ false)
          × (has (find_driver drivers dev ds) ds ≡ true)
          × (match_any dev (drivers (find_driver drivers dev ds)).id_table ≡ true))
unfolding find_driver
find_driver_lem drivers dev [] z = inl (refl, λ d h. absurd (ground (arith, h)))
find_driver_lem drivers dev (e ∷ ds) z = elim (Bool-cases (match_any dev (drivers e).id_table)) [
  | inl m ↦
      let q : find_driver drivers dev (e ∷ ds) ≡ e = rw (find_driver, m) refl in
      inr (
        subst
          (λ x.
            ((x == 0) ≡ false)
            × (has x (e ∷ ds) ≡ true)
            × (match_any dev (drivers x).id_table ≡ true))
          (sym q) (ground (arith, z), ground arith, m))
  | inr m ↦
      let q : find_driver drivers dev (e ∷ ds) ≡ find_driver drivers dev ds =
        rw (find_driver, m) refl in
      elim (find_driver_lem drivers dev ds (ground (arith, z))) [
        | inl (n, all) ↦ inl (
          q ∙ n,
          λ d h. elim (Bool-cases (d == e)) [
            | inl f ↦
                subst (λ x. match_any dev (drivers x).id_table ≡ false) (sym (eq_of_test d e f)) m
            | inr f ↦ all d (ground (arith, h, f))
          ],
        )
        | inr (n, h, k) ↦ inr (
            subst
              (λ x.
                ((x == 0) ≡ false)
                × (has x (e ∷ ds) ≡ true)
                × (match_any dev (drivers x).id_table ≡ true))
              (sym q) (n, ground (arith, h), k))
      ]
]

pub put_self : (m : ℕ → Device) (p : ℕ) (x : Device) → put m p x p ≡ x
put_self m p x = put_lem m p x p ∙ rw (test_self p) refl

-- The device has a registered driver that matches.
abbrev DrivenBy : Device → List ℕ → (ℕ → Driver) → Type 0
DrivenBy x l ds = (has x.driver l ≡ true) × (match_any x.id (ds x.driver).id_table ≡ true)

-- It has one, or it has no driver and no registered driver matches.
abbrev BoundBy : Device → List ℕ → (ℕ → Driver) → Type 0
BoundBy x l ds =
    ((x.driver ≡ 0) × ((d : ℕ) → has d l ≡ true → match_any x.id (ds d).id_table ≡ false))
    ⊎ DrivenBy x l ds

module _ {ℓ} {X : Type ℓ} where
  abbrev Driven : Devs X → ℕ → Type 0
  Driven s a = DrivenBy (s.devices a) s.driver_list s.drivers

  -- The device has no driver, or a matching one.
  abbrev pub Sound : Devs X → ℕ → Type 0
  Sound s a = ((s.devices a).driver ≡ 0) ⊎ Driven s a

  abbrev pub Bound : Devs X → ℕ → Type 0
  Bound s a = BoundBy (s.devices a) s.driver_list s.drivers

  pub Bound-Sound : (s : Devs X) (a : ℕ) → Bound s a → Sound s a
  Bound-Sound s a (inl (e, _)) = inl e
  Bound-Sound s a (inr d) = inr d

  abbrev pub Frame : ℕ → (s t : Devs X) → Type 0
  Frame dev s t =
      (t.driver_list ≡ s.driver_list)
      × (t.device_list ≡ s.device_list)
      × (t.drivers ≡ s.drivers)
      × ((a : ℕ) → (a == dev) ≡ false → t.devices a ≡ s.devices a)

  -- What a state says of the device `a` carries over to one with the same device and lists.
  pub carry-Bound :
      (s t : Devs X) (a : ℕ)
      → t.devices a ≡ s.devices a
      → t.driver_list ≡ s.driver_list
      → t.drivers ≡ s.drivers
      → Bound s a
      → Bound t a
  carry-Bound s t a e l d b =
      subst (λ x. BoundBy x t.driver_list t.drivers) (sym e)
        (subst (λ x. BoundBy (s.devices a) x t.drivers) (sym l)
          (subst (λ x. BoundBy (s.devices a) s.driver_list x) (sym d) b))

  pub carry-Sound :
      (s t : Devs X) (a : ℕ)
      → t.devices a ≡ s.devices a
      → t.driver_list ≡ s.driver_list
      → t.drivers ≡ s.drivers
      → Sound s a
      → Sound t a
  carry-Sound s t a e l d (inl k) = inl (ap (λ (x : Device). x.driver) e ∙ k)
  carry-Sound s t a e l d (inr k) = inr (
      subst (λ x. DrivenBy x t.driver_list t.drivers) (sym e)
        (subst (λ x. DrivenBy (s.devices a) x t.drivers) (sym l)
          (subst (λ x. DrivenBy (s.devices a) s.driver_list x) (sym d) k)))
