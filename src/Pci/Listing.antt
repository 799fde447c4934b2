-- ===== src/Pci/Listing.antt =====
-- The entries that drivers/pci/pci.c `pci_add_dev` puts in the list of devices.
use kernel_old.Base.{
  ℕ, zero, suc, ◌+◌, ◌*◌, ◌/◌, ◌%◌, ◌^◌, ◌≤◌, ◌<◌, ◌≡◌, refl, ap, ◌∙◌, ◌≢◌, ◌⊎◌, inl, inr, true,
  not, List, [], ◌∷◌, ◌++◌, arith, ◌==◌, ==_false,
}
use kernel_old.Pci.{
  Ports, IsConfig, PciDev, cfg_addr, pci_cfg_readw, pci_cfg_readb, pci_check_dev, pci_add_dev,
  func_loop,
}
use kernel_old.Pci.Access.{word_of, pci_cfg_readw-word}

-- The list has an entry for function 0 of a device.
unfoldable pub Has : (bus slot : ℕ) → List PciDev → Type 0
Has bus slot [] = ⊥
Has bus slot (d ∷ ds) = (d.bus ≡ bus) × (d.slot ≡ slot) × (d.func ≡ 0) ⊎ Has bus slot ds

pub Has-append : (bus slot : ℕ) (ds es : List PciDev) → Has bus slot ds → Has bus slot (ds ++ es)
unfolding Has
Has-append bus slot [] es h = absurd h
Has-append bus slot (d ∷ ds) es (inl h) = inl h
Has-append bus slot (d ∷ ds) es (inr h) = inr (Has-append bus slot ds es h)

Has-last : (ds : List PciDev) (d : PciDev) → d.func ≡ 0 → Has d.bus d.slot (ds ++ (d ∷ []))
unfolding Has
Has-last [] d e = inl (refl, refl, e)
Has-last (c ∷ ds) d e = inr (Has-last ds d e)

module _ {S : Type 0} (p : Ports S) (q : IsConfig p) (s0 : S) where
  -- Function 0 of a device has a vendor.
  unfoldable pub Present : (bus slot : ℕ) → Type 0
  Present bus slot = word_of p q s0 bus slot 0 0 ≢ 0xffff

  -- An entry for a function, with the identification in its registers, of a device that is present.
  unfoldable pub Listed : PciDev → Type 0
  Listed d =
      (d.bus < 256)
      × (d.slot < 32)
      × (d.func < 8)
      × Present d.bus d.slot
      × (d.vendor_id ≡ word_of p q s0 d.bus d.slot d.func 0)
      × (d.dev_id ≡ word_of p q s0 d.bus d.slot d.func 2)

  unfoldable pub AllListed : List PciDev → Type 0
  AllListed [] = Unit
  AllListed (d ∷ ds) = Listed d × AllListed ds

  pub AllListed-append :
      (ds : List PciDev) (d : PciDev) → AllListed ds → Listed d → AllListed (ds ++ (d ∷ []))
  unfolding AllListed
  AllListed-append [] d h l = (l, tt)
  AllListed-append (c ∷ ds) d (k, h) l = (k, AllListed-append ds d h l)

  -- The registers are those of the start.
  unfoldable pub Same : S → Type 0
  Same s = (a : ℕ) → q.register s a ≡ q.register s0 a

  readw-Same :
      (bus slot func off : ℕ) (s : S)
      → Same s
      → Same (pci_cfg_readw p bus slot func off s).1
        × ((pci_cfg_readw p bus slot func off s).0 ≡ word_of p q s0 bus slot func off)
  unfolding Same
  readw-Same bus slot func off s h =
      let (value, kept) = pci_cfg_readw-word p q bus slot func off s in
      (
        λ a. kept a ∙ h a,
        value ∙ ap (λ x. x / 2 ^ (off % 4 / 2 * 16) % 2 ^ 16) (h (cfg_addr bus slot func off)),
      )

  pub readb-Same :
      (bus slot func off : ℕ) (s : S) → Same s → Same (pci_cfg_readb p bus slot func off s).1
  unfolding Same pci_cfg_readb
  readb-Same bus slot func off s h = λ a. q.register-out_addr (cfg_addr bus slot func off) s a ∙ h a

  -- Adding a function of a device that is present.
  pub add_dev-Listed :
      (bus slot func : ℕ) (s : S)
      → bus < 256
      → slot < 32
      → func < 8
      → Present bus slot
      → Same s
      → Listed (pci_add_dev p bus slot func s).0 × Same (pci_add_dev p bus slot func s).1
  unfolding Listed pci_add_dev
  add_dev-Listed bus slot func s b d f there h =
      let (h1, vendor) = readw-Same bus slot func 0 s h in
      let s1 : S = (pci_cfg_readw p bus slot func 0 s).1 in
      let (h2, id) = readw-Same bus slot func 2 s1 h1 in
      let s2 : S = (pci_cfg_readw p bus slot func 2 s1).1 in
      let s3 : S = (pci_cfg_readb p bus slot func 0x0b s2).1 in
      let s4 : S = (pci_cfg_readb p bus slot func 0x0a s3).1 in
      (
        (b, d, f, there, vendor, id),
        readb-Same bus slot func 0x09 s4
            (readb-Same bus slot func 0x0a s3 (readb-Same bus slot func 0x0b s2 h2)),
      )

  pub add_dev-Has :
      (bus slot : ℕ) (devs : List PciDev) (s : S)
      → Has bus slot (devs ++ ((pci_add_dev p bus slot 0 s).0 ∷ []))
  unfolding pci_add_dev
  add_dev-Has bus slot devs s = Has-last devs (pci_add_dev p bus slot 0 s).0 refl

  pub check_dev-Same :
      (bus slot : ℕ) (s : S)
      → Same s
      → Same (pci_check_dev p bus slot 0 s).1
        × ((pci_check_dev p bus slot 0 s).0 ≡ not (word_of p q s0 bus slot 0 0 == 0xffff))
  unfolding pci_check_dev
  check_dev-Same bus slot s h =
      let (h1, vendor) = readw-Same bus slot 0 0 s h in (h1, ap (λ v. not (v == 0xffff)) vendor)

  pub Present-check :
      (bus slot : ℕ) → Present bus slot → not (word_of p q s0 bus slot 0 0 == 0xffff) ≡ true
  unfolding Present
  Present-check bus slot there = rw (==_false (word_of p q s0 bus slot 0 0) 0xffff there) refl

  pub check-Present :
      (bus slot : ℕ) → not (word_of p q s0 bus slot 0 0 == 0xffff) ≡ true → Present bus slot
  unfolding Present
  check-Present bus slot e = λ none. ground (arith, e, none)

  -- What the rest of a scan gives: entries that belong in the list, none of them lost.
  pub record Grown (devs : List PciDev) (r : List PciDev × S) : Type 0 where
    pub listed : AllListed r.0
    pub same : Same r.1
    pub more : (b d : ℕ) → Has b d devs → Has b d r.0

  pub func_loop-Grown :
      (bus dev func rounds : ℕ) (devs : List PciDev) (s : S)
      → bus < 256
      → dev < 32
      → func + rounds ≤ 8
      → Present bus dev
      → AllListed devs
      → Same s
      → Grown devs (func_loop p bus dev func rounds devs s)
  unfolding func_loop
  func_loop-Grown bus dev func zero devs s b d f there l h = record {
    listed = l;
    same = h;
    more = λ b d k. k;
  }
  func_loop-Grown bus dev func (suc n) devs s b d f there l h =
      let (h1, check) = check_dev-Same bus dev s h in
      let s1 : S = (pci_check_dev p bus dev 0 s).1 in
      let (new, h2) = add_dev-Listed bus dev func s1 b d (omega (arith, f)) there h1 in
      let (e, s2) = pci_add_dev p bus dev func s1 in
      let yes : (pci_check_dev p bus dev 0 s).0 ≡ true = check ∙ Present-check bus dev there in
      let r : Grown (devs ++ (e ∷ [])) (func_loop p bus dev (func + 1) n (devs ++ (e ∷ [])) s2) =
        func_loop-Grown bus dev (func + 1) n (devs ++ (e ∷ [])) s2 b d (omega (arith, f)) there
          (AllListed-append devs e l new) h2 in
      rw (yes, func_loop)
        (record {
          listed = r.listed;
          same = r.same;
          more = λ b d k. r.more b d (Has-append b d devs (e ∷ []) k);
        })
