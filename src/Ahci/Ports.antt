-- ===== src/Ahci/Ports.antt =====
-- The ports that drivers/storage/ata/ahci/ahci.c `ahci_probe_ports` finds, and their numbers.
use kernel_old.Base.{
  ℕ, zero, suc, ◌+◌, ◌/◌, ◌%◌, ◌^◌, ◌≤◌, ◌<◌, bit_and, ◌≡◌, subst, ◌∙◌, ◌⊎◌, inl, inr, Bool, true,
  false, not, ◌&&◌, ◌||◌, Option, none, some, List, [], ◌∷◌, ◌++◌, arith, leb, ◌==◌, if◌then◌else◌,
  Bool-cases, length, get_elem?, length-append,
}
use kernel_old.Ahci.{AhciPort, check_type, probe_loop, ahci_probe_ports, ahci_get_dev}

check_type-Active :
    (stat sig : ℕ)
    → ((check_type stat sig == 1) || (check_type stat sig == 4)) ≡ true
    → (bit_and stat 0xf ≡ 3)
      × (bit_and (stat / 2 ^ 8) 0xf ≡ 1)
      × (((check_type stat sig ≡ 1) × (sig ≡ 0x00000101))
          ⊎ ((check_type stat sig ≡ 4) × (sig ≡ 0xeb140101)))
unfolding check_type
check_type-Active stat sig e = ground arith

module _ (ports_impl : ℕ) (sata_stat sig : ℕ → ℕ) where
  -- An implemented port whose status register shows a device that is present (3 in the low four bits)
  -- and active (1 in bits 8 to 11), with the type of the signature: 1 of a disk, 4 of a packet device.
  pub Usable : AhciPort → Type 0
  Usable p =
      (p.hba_port < 32)
      × ((bit_and ports_impl (2 ^ p.hba_port) == 0) ≡ false)
      × (bit_and (sata_stat p.hba_port) 0xf ≡ 3)
      × (bit_and (sata_stat p.hba_port / 2 ^ 8) 0xf ≡ 1)
      × (((p.type ≡ 1) × (sig p.hba_port ≡ 0x00000101))
          ⊎ ((p.type ≡ 4) × (sig p.hba_port ≡ 0xeb140101)))

  -- Ports that have the numbers from `n` on.
  Numbered : (n : ℕ) → List AhciPort → Type 0
  Numbered n [] = Unit
  Numbered n (p ∷ ps) = (p.num ≡ n) × Usable p × Numbered (n + 1) ps

  no_ports : Numbered 0 []
  unfolding Numbered
  no_ports = tt

  Numbered-append :
      (n : ℕ) (ps : List AhciPort) (p : AhciPort)
      → Numbered n ps
      → p.num ≡ n + length ps
      → Usable p
      → Numbered n (ps ++ (p ∷ []))
  unfolding Numbered
  Numbered-append n [] p h e u = (e ∙ omega arith, u, tt)
  Numbered-append n (q ∷ ps) p (e', u', h) e u =
      (e', u', Numbered-append (n + 1) ps p h (e ∙ omega arith) u)

  -- The port that the loop looks at is taken only if it is usable.
  Usable-port :
      (i n : ℕ)
      → i < 32
      → (not (bit_and ports_impl (2 ^ i) == 0)
          && ((check_type (sata_stat i) (sig i) == 1) || (check_type (sata_stat i) (sig i) == 4)))
        ≡ true
      → Usable (record { hba_port = i; type = check_type (sata_stat i) (sig i); num = n })
  unfolding Usable
  Usable-port i n lt e =
      let (present, active, kind) = check_type-Active (sata_stat i) (sig i) (ground (arith, e)) in
      (lt, ground (arith, e), present, active, kind)

  probe_loop-Numbered :
      (i rounds : ℕ) (found : List AhciPort)
      → i + rounds ≡ 32
      → length found ≤ i
      → Numbered 0 found
      → Numbered 0 (probe_loop ports_impl sata_stat sig i rounds found)
  unfolding probe_loop
  probe_loop-Numbered i zero found e le h = h
  probe_loop-Numbered i (suc n) found e le h =
      let pt : ℕ = check_type (sata_stat i) (sig i) in
      let port : AhciPort = record { hba_port = i; type = pt; num = length found % 2 ^ 8 } in
      elim (Bool-cases (not (bit_and ports_impl (2 ^ i) == 0) && ((pt == 1) || (pt == 4)))) [
        | inl taken ↦
            rw (taken, probe_loop)
              (probe_loop-Numbered (i + 1) n (found ++ (port ∷ [])) (omega (arith, e))
                (omega (arith, length-append found (port ∷ []), le))
                (Numbered-append 0 found port h (omega (arith, le, e))
                  (Usable-port i (length found % 2 ^ 8) (omega (arith, e)) taken)))
        | inr passed ↦
            rw (passed, probe_loop)
              (probe_loop-Numbered (i + 1) n found (omega (arith, e)) (omega (arith, le)) h)
      ]

  Numbered-get :
      (n i : ℕ) (ps : List AhciPort) (p : AhciPort)
      → Numbered n ps
      → get_elem? ps i ≡ some p
      → (p.num ≡ n + i) × Usable p
  unfolding Numbered
  Numbered-get n i [] p h e = cc
  Numbered-get n zero (q ∷ ps) p (e', u, h) e =
      let same : q ≡ p = cc in
      (subst (λ x. x.num ≡ n + 0) same (e' ∙ omega arith), subst Usable same u)
  Numbered-get n (suc i) (q ∷ ps) p (e', u, h) e =
      let (number, usable) = Numbered-get (n + 1) i ps p h e in (number ∙ omega arith, usable)

  -- The device `idx` of the ports that `ahci_probe_ports` finds is a port with that number, which the
  -- controller implements, whose status register shows a present and active device, and whose
  -- signature is that of a disk or a packet device, with the type that belongs to it.
  pub ahci_get_dev-ahci_probe_ports :
      (idx : ℕ) (p : AhciPort)
      → ahci_get_dev idx (ahci_probe_ports ports_impl sata_stat sig) ≡ some p
      → (p.num ≡ idx) × Usable p
  unfolding ahci_get_dev ahci_probe_ports
  ahci_get_dev-ahci_probe_ports idx p e =
      let ps : List AhciPort = probe_loop ports_impl sata_stat sig 0 32 [] in
      let h : Numbered 0 ps = probe_loop-Numbered 0 32 [] (omega arith) (omega arith) no_ports in
      let (number, usable) =
        Numbered-get 0 idx ps p h (in_range (leb (length ps) idx) (get_elem? ps idx) e) in
      (number ∙ omega arith, usable)
    where
      in_range : (b : Bool) (o : Option AhciPort) → (if b then none else o) ≡ some p → o ≡ some p
      in_range true o e = cc
      in_range false o e = e
