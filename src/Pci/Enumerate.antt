-- ===== src/Pci/Enumerate.antt =====
-- The devices that drivers/pci/pci.c `pci_enumerate` finds.
use kernel_old.Base.{
  ℕ, zero, suc, ◌+◌, ◌≤◌, ◌<◌, bit_and, ◌≡◌, refl, sym, subst, ◌∙◌, ◌⊎◌, inl, inr, not, ◌&&◌, List,
  [], ◌∷◌, ◌++◌, arith, ◌==◌, ==_iff, Bool-cases,
}
use kernel_old.Pci.{
  Ports, IsConfig, PciDev, pci_cfg_readb, pci_check_dev, pci_get_hdr_type, pci_add_dev, func_loop,
  one_dev, dev_loop, bus_loop, pci_enumerate,
}
use kernel_old.Pci.Access.{word_of}
use kernel_old.Pci.Listing.{
  Has-append, readb-Same, add_dev-Listed, add_dev-Has, check_dev-Same, Present-check, check-Present,
  AllListed-append, func_loop-Grown, Grown, Same, AllListed, Present, Has,
}

module _ {S : Type 0} (p : Ports S) (q : IsConfig p) (s0 : S) where
  -- The devices of the buses before `bus`, and those before `dev` on it, have been looked at.
  record Scanned (bus dev : ℕ) (r : ℕ × List PciDev × S) : Type 0 where
    listed : AllListed p q s0 r.1
    same : Same p q s0 r.2
    found : (b d : ℕ) → d < 32 → b < bus ⊎ (b ≡ bus) × (d < dev) → Present p q s0 b d → Has b d r.1

  -- The places up to and with `(bus, dev)`.
  Scanned-next :
      (bus dev func : ℕ) (devs devs' : List PciDev) (s s' : S)
      → Scanned bus dev (func, devs, s)
      → (func' : ℕ) → AllListed p q s0 devs'
      → Same p q s0 s'
      → ((b d : ℕ) → Has b d devs → Has b d devs')
      → (Present p q s0 bus dev → Has bus dev devs')
      → Scanned bus (dev + 1) (func', devs', s')
  Scanned-next bus dev func devs devs' s s' w func' l h more here = record {
    listed = l;
    same = h;
    found = λ b d lt before there. elim (Bool-cases ((b == bus) && (d == dev))) [
      | inl e ↦
          let e1 : b ≡ bus = ground (arith, e) in
          let e2 : d ≡ dev = ground (arith, e) in
          subst (λ x. Has x d devs') (sym e1)
            (subst (λ x. Has bus x devs') (sym e2)
              (here (subst (Present p q s0 bus) e2 (subst (λ x. Present p q s0 x d) e1 there))))
      | inr e ↦ more b d (
          w.found b d lt
            (elim before [
              | inl less ↦ inl less
              | inr (e1, less) ↦ inr (e1, ground (arith, e, e1, less))
            ])
            there)
    ];
  }

  one_dev-Scanned :
      (bus dev func : ℕ) (devs : List PciDev) (s : S)
      → bus < 256
      → dev < 32
      → Scanned bus dev (func, devs, s)
      → Scanned bus (dev + 1) (one_dev p bus dev func devs s)
  unfolding one_dev pci_get_hdr_type
  one_dev-Scanned bus dev func devs s b d w =
      let (h1, check) = check_dev-Same p q s0 bus dev s w.same in
      let s1 : S = (pci_check_dev p bus dev 0 s).1 in
      elim (Bool-cases (not (word_of p q s0 bus dev 0 0 == 0xffff))) [
        | inr absent ↦
            rw (check ∙ absent, one_dev)
              (Scanned-next bus dev func devs devs s s1 w func w.listed h1 (λ b d k. k)
                (λ there. let yes = Present-check p q s0 bus dev there in cc))
        | inl present ↦
            let there : Present p q s0 bus dev = check-Present p q s0 bus dev present in
            let (new, h2) = add_dev-Listed p q s0 bus dev 0 s1 b d (omega arith) there h1 in
            let (e, s2) = pci_add_dev p bus dev 0 s1 in
            let s3 : S = (pci_cfg_readb p bus dev func 0x0e s2).1 in
            let h3 : Same p q s0 s3 = readb-Same p q s0 bus dev func 0x0e s2 h2 in
            let ds : List PciDev = devs ++ (e ∷ []) in
            let l : AllListed p q s0 ds = AllListed-append p q s0 devs e w.listed new in
            let here : Has bus dev ds = add_dev-Has p q s0 bus dev devs s1 in
            let r : Grown p q s0 ds (func_loop p bus dev 1 7 ds s3) =
              func_loop-Grown p q s0 bus dev 1 7 ds s3 b d (omega arith) there l h3 in
            elim (Bool-cases (bit_and (pci_cfg_readb p bus dev func 0x0e s2).0 0x80 == 0)) [
              | inl single ↦
                  rw (check ∙ present, single, one_dev)
                    (Scanned-next bus dev func devs ds s s3 w func l h3
                      (λ b d k. Has-append b d devs (e ∷ []) k) (λ _. here))
              | inr multi ↦
                  rw (check ∙ present, multi, one_dev)
                    (Scanned-next bus dev func devs _ s _ w 8 r.listed r.same
                      (λ b d k. r.more b d (Has-append b d devs (e ∷ []) k))
                      (λ _. r.more bus dev here))
            ]
      ]

  dev_loop-Scanned :
      (bus dev rounds func : ℕ) (devs : List PciDev) (s : S)
      → bus < 256
      → dev + rounds ≤ 32
      → Scanned bus dev (func, devs, s)
      → Scanned bus (dev + rounds) (dev_loop p bus dev rounds func devs s)
  unfolding dev_loop
  dev_loop-Scanned bus dev zero func devs s b d w =
      subst (λ x. Scanned bus x (func, devs, s)) (omega arith) w
  dev_loop-Scanned bus dev (suc n) func devs s b d w =
      let (func', devs', s') = one_dev p bus dev func devs s in
      subst (λ x. Scanned bus x (dev_loop p bus (dev + 1) n func' devs' s')) (omega arith)
        (dev_loop-Scanned bus (dev + 1) n func' devs' s' b (omega (arith, d))
          (one_dev-Scanned bus dev func devs s b (omega (arith, d)) w))

  next_bus : (bus : ℕ) (r : ℕ × List PciDev × S) → Scanned bus 32 r → Scanned (bus + 1) 0 r
  next_bus bus r w = record {
    listed = w.listed;
    same = w.same;
    found = λ b d lt before there.
        w.found b d lt
          (elim before [
            | inl less ↦ elim (Bool-cases (b == bus)) [
              | inl e ↦ inr ((==_iff b bus).0 e, lt)
              | inr e ↦ inl (ground (arith, e, less))
            ]
            | inr (e, less) ↦ absurd (omega (arith, less))
          ])
          there;
  }

  bus_loop-Scanned :
      (bus rounds func : ℕ) (devs : List PciDev) (s : S)
      → bus + rounds ≤ 256
      → Scanned bus 0 (func, devs, s)
      → Scanned (bus + rounds) 0 (bus_loop p bus rounds func devs s)
  unfolding bus_loop
  bus_loop-Scanned bus zero func devs s b w =
      subst (λ x. Scanned x 0 (func, devs, s)) (omega arith) w
  bus_loop-Scanned bus (suc n) func devs s b w =
      let (func', devs', s') = dev_loop p bus 0 32 func devs s in
      subst (λ x. Scanned x 0 (bus_loop p (bus + 1) n func' devs' s')) (omega arith)
        (bus_loop-Scanned (bus + 1) n func' devs' s' (omega (arith, b)) (
          next_bus bus (func', devs', s')
            (dev_loop-Scanned bus 0 32 func devs s (omega (arith, b)) (omega arith) w)))

  -- In a configuration space, the list has function 0 of each device of each bus whose function 0 has
  -- a vendor; each entry is for a function below 8 of such a device, with the vendor and device that
  -- its registers give; and the registers are not changed.
  pub pci_enumerate-Listed :
      AllListed p q s0 (pci_enumerate p s0).0
      × ((b d : ℕ) → b < 256 → d < 32 → Present p q s0 b d → Has b d (pci_enumerate p s0).0)
      × ((a : ℕ) → q.register (pci_enumerate p s0).1 a ≡ q.register s0 a)
  unfolding pci_enumerate AllListed Same
  pci_enumerate-Listed =
      let w : Scanned 256 0 (bus_loop p 0 256 0 [] s0) =
        bus_loop-Scanned 0 256 0 [] s0 (omega arith) (record {
          listed = tt;
          same = λ a. refl;
          found = λ b d lt before there. absurd (elim before [
            | inl less ↦ omega (arith, less)
            | inr (e, less) ↦ omega (arith, less)
          ]);
        }) in
      (w.listed, λ b d lt lt' there. w.found b d lt' (inl lt) there, w.same)
