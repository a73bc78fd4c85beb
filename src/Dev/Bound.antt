-- ===== src/Dev/Bound.antt =====
-- kernel/src/dev/driver.c and bus.c: which devices are bound.
use lapis.Base.{
  ℕ, ◌≡◌, refl, sym, ◌∙◌, ap, subst, true, false, ◌⊎◌, inl, inr, List, [], ◌∷◌, ◌==◌, has, put_lem,
  ℤ, Bool-cases, arith, eq_of_test,
}
use lapis.Dev.{
  Device, Devs, match_any, find_driver, bind_device, driver_try_bind, bind_all, driver_register,
  bus_device_add, Reachable, start, registered, added,
}
use lapis.Dev.Driven.{
  find_driver_lem, put_self, Sound, Bound, Bound-Sound, Frame, carry-Bound, carry-Sound,
}

module _ {ℓ} {X : Type ℓ} (irq_request : (hwirq handler : ℕ) → X → ℤ × X) where
  -- Either nothing changes, or the first driver that matches takes the device.
  try_bind_cases :
      (dev : ℕ) (s : Devs X)
      → has 0 s.driver_list ≡ false
      → ((driver_try_bind irq_request dev s ≡ s)
          × ((((s.devices dev).driver == 0) ≡ false)
              ⊎ ((d : ℕ)
                  → has d s.driver_list ≡ true
                  → match_any (s.devices dev).id (s.drivers d).id_table ≡ false)))
        ⊎ ((d : ℕ) × (driver_try_bind irq_request dev s ≡ bind_device irq_request d dev s)
            × (has d s.driver_list ≡ true)
            × (match_any (s.devices dev).id (s.drivers d).id_table ≡ true))
  unfolding driver_try_bind
  try_bind_cases dev s z = elim (Bool-cases ((s.devices dev).driver == 0)) [
    | inr e ↦ inl (rw (driver_try_bind, e) refl, inl e)
    | inl e ↦ elim (find_driver_lem s.drivers (s.devices dev).id s.driver_list z) [
      | inl (n, all) ↦ inl (rw (driver_try_bind, e, n) refl, inr all)
      | inr (n, h, m) ↦ inr (
        find_driver s.drivers (s.devices dev).id s.driver_list,
        rw (driver_try_bind, e, n) refl,
        h,
        m,
      )
    ]
  ]

  bind_device-at :
      (d dev : ℕ) (s : Devs X)
      → (((bind_device irq_request d dev s).devices dev).driver ≡ d)
        × (((bind_device irq_request d dev s).devices dev).id ≡ (s.devices dev).id)
  unfolding bind_device
  bind_device-at d dev s = (
    ap (λ (x : Device). x.driver) (put_self s.devices dev _),
    ap (λ (x : Device). x.id) (put_self s.devices dev _),
  )

  bind_device-ne :
      (d dev a : ℕ) (s : Devs X)
      → (a == dev) ≡ false
      → (bind_device irq_request d dev s).devices a ≡ s.devices a
  unfolding bind_device
  bind_device-ne d dev a s n = put_lem _ dev _ a ∙ rw n refl

  bind_device-lists :
      (d dev : ℕ) (s : Devs X)
      → ((bind_device irq_request d dev s).driver_list ≡ s.driver_list)
        × ((bind_device irq_request d dev s).device_list ≡ s.device_list)
        × ((bind_device irq_request d dev s).drivers ≡ s.drivers)
  unfolding bind_device
  bind_device-lists d dev s = (refl, refl, refl)

  -- The lists stay, and all devices but the one that is tried.
  try_bind-Frame :
      (dev : ℕ) (s : Devs X)
      → has 0 s.driver_list ≡ false
      → Frame dev s (driver_try_bind irq_request dev s)
  try_bind-Frame dev s z = elim (try_bind_cases dev s z) [
    | inl (e, _) ↦ subst (Frame dev s) (sym e) (refl, refl, refl, λ a n. refl)
    | inr (d, e, _, _) ↦
        let (p, q, r) = bind_device-lists d dev s in
        subst (Frame dev s) (sym e) (p, q, r, λ a n. bind_device-ne d dev a s n)
  ]

  try_bind-Bound :
      (dev : ℕ) (s : Devs X)
      → has 0 s.driver_list ≡ false
      → Sound s dev
      → Bound (driver_try_bind irq_request dev s) dev
  try_bind-Bound dev s z q = elim (try_bind_cases dev s z) [
    | inl (e, inl n) ↦
        subst (λ t. Bound t dev) (sym e)
          (elim q [ inl k ↦ absurd (ground (arith, n, k)) | inr k ↦ inr k ])
    | inl (e, inr all) ↦
        subst (λ t. Bound t dev) (sym e) (elim q [ inl k ↦ inl (k, all) | inr k ↦ inr k ])
    | inr (d, e, h, m) ↦
        subst (λ t. Bound t dev) (sym e)
          (inr
            let k = bind_device-at d dev s in
              let b = bind_device irq_request d dev s in
              let (p, _, r) = bind_device-lists d dev s in
              let x =
                subst (λ x. match_any (b.devices dev).id (x d).id_table ≡ true) (sym r)
                  (subst (λ x. match_any x (s.drivers d).id_table ≡ true) (sym k.1) m) in
              (
                subst (λ x. has x b.driver_list ≡ true) (sym k.0)
                    (subst (λ x. has d x ≡ true) (sym p) h),
                subst (λ x. match_any (b.devices dev).id (b.drivers x).id_table ≡ true) (sym k.0) x,
              ))
  ]

  -- What one step of the loop leaves of the devices in the list.
  try_bind-next :
      (d : ℕ) (s : Devs X) (a : ℕ)
      → has 0 s.driver_list ≡ false
      → Sound s d
      → Sound s a
      → Sound (driver_try_bind irq_request d s) a
        × ((((a == d) ≡ true) ⊎ Bound s a) → Bound (driver_try_bind irq_request d s) a)
  try_bind-next d s a z sd sa = elim (Bool-cases (a == d)) [
    | inl e ↦
        let t = driver_try_bind irq_request d s in
        let k : Bound t a = subst (Bound t) (sym (eq_of_test a d e)) (try_bind-Bound d s z sd) in
        (Bound-Sound t a k, λ _. k)
    | inr e ↦
        let t = driver_try_bind irq_request d s in
        let (l, _, ds, f) = try_bind-Frame d s z in
        (
          carry-Sound s t a (f a e) l ds sa,
          λ o. elim o [
            | inl e2 ↦ absurd (ground (arith, e, e2))
            | inr b ↦ carry-Bound s t a (f a e) l ds b
          ],
        )
  ]

  bind_all-Bound :
      (ds : List ℕ) (s : Devs X)
      → has 0 s.driver_list ≡ false
      → ((a : ℕ) → has a s.device_list ≡ true → Sound s a)
      → ((a : ℕ) → has a ds ≡ true → has a s.device_list ≡ true)
      → ((bind_all irq_request ds s).driver_list ≡ s.driver_list)
        × ((bind_all irq_request ds s).device_list ≡ s.device_list)
        × ((a : ℕ)
            → has a s.device_list ≡ true
            → ((has a ds ≡ true) ⊎ Bound s a)
            → Bound (bind_all irq_request ds s) a)
  unfolding bind_all
  bind_all-Bound [] s z f i =
      (refl, refl, λ a h o. elim o [ inl k ↦ absurd (ground (arith, k)) | inr b ↦ b ])
  bind_all-Bound (d ∷ ds) s z f i =
      let s1 = driver_try_bind irq_request d s in
      let (l, dl, _, _) = try_bind-Frame d s z in
      let sd = f d (i d (ground arith)) in
      let z1 = subst (λ x. has 0 x ≡ false) (sym l) z in
      let f1 : (a : ℕ) → has a s1.device_list ≡ true → Sound s1 a =
        λ a h. (try_bind-next d s a z sd (f a (subst (λ x. has a x ≡ true) dl h))).0 in
      let i1 : (a : ℕ) → has a ds ≡ true → has a s1.device_list ≡ true =
        λ a h. subst (λ x. has a x ≡ true) (sym dl) (i a (ground (arith, h))) in
      let (l2, dl2, g) = bind_all-Bound ds s1 z1 f1 i1 in
      (
        l2 ∙ l,
        dl2 ∙ dl,
        λ a h o. g a (subst (λ x. has a x ≡ true) (sym dl) h) (elim o [
          | inr b ↦ inr ((try_bind-next d s a z sd (f a h)).1 (inr b))
          | inl k ↦ elim (Bool-cases (a == d)) [
            | inl e ↦ inr ((try_bind-next d s a z sd (f a h)).1 (inl e))
            | inr e ↦ inl (ground (arith, e, k))
          ]
        ]),
      )

  has_later : (d drv : ℕ) (l : List ℕ) → has d l ≡ true → has d (drv ∷ l) ≡ true
  has_later d drv l h = ground (arith, h)

  -- However drivers and devices come, in whatever order: a device in the list has a registered driver
  -- whose table matches it, or it has no driver and no table of a registered driver matches it.
  pub reachable-Bound :
      (s : Devs X)
      → Reachable irq_request s
      → (has 0 s.driver_list ≡ false) × ((a : ℕ) → has a s.device_list ≡ true → Bound s a)
  unfolding driver_register bus_device_add
  reachable-Bound _ (start devices drivers x) = (refl, λ a h. absurd (ground (arith, h)))
  reachable-Bound _ (registered s drv r n h) =
      let (z, b) = reachable-Bound s r in
      let s1 : Devs X = record s { driver_list = drv ∷ s.driver_list } in
      let z1 : has 0 s1.driver_list ≡ false = ground (arith, n, z) in
      let f : (a : ℕ) → has a s.device_list ≡ true → Sound s1 a = λ a k. elim (b a k) [
        | inl q ↦ inl q.0
        | inr q ↦ inr (has_later (s.devices a).driver drv s.driver_list q.0, q.1)
      ] in
      let (l, dl, g) = bind_all-Bound s.device_list s1 z1 f (λ a k. k) in
      (
        subst (λ x. has 0 x ≡ false) (sym l) z1,
        λ a k. let k1 = subst (λ x. has a x ≡ true) dl k in g a k1 (inl k1),
      )
  reachable-Bound _ (added s dev r h e) =
      let (z, b) = reachable-Bound s r in
      let s1 : Devs X = record s { device_list = dev ∷ s.device_list } in
      let (l, dl, ds, f) = try_bind-Frame dev s1 z in
      (
        subst (λ x. has 0 x ≡ false) (sym l) z,
        λ a k. elim (Bool-cases (a == dev)) [
          | inl q ↦
              subst (Bound (driver_try_bind irq_request dev s1)) (sym (eq_of_test a dev q))
                (try_bind-Bound dev s1 z (inl e))
          | inr q ↦
              let k1 : has a s.device_list ≡ true =
                ground (arith, q, subst (λ x. has a x ≡ true) dl k) in
              carry-Bound s1 (driver_try_bind irq_request dev s1) a (f a q) l ds (b a k1)
        ],
      )
