-- ===== src/Input/Mouse.antt =====
-- How the mouse's interrupt handler frames bytes into packets.
use kernel_old.Base.{
  ℕ, suc, ◌<◌, bit_and, ◌≡◌, refl, sym, ap, subst, ◌∙◌, true, false, Option, none, some, List, [],
  ◌∷◌, ◌++◌, arith, ltb, ◌==◌, lt→ltb, update_self, update,
}
use kernel_old.Input.{
  queue_size, Packet, MouseState, packet_of, push_packet, mouse_handler, mouse_get_packet,
  mouse_bytes,
}

-- Bytes that cannot start a packet: bit 3 is clear.
pub data Stray : List ℕ → Type 0 where
  none_left : Stray []
  stray : (b : ℕ) (bs : List ℕ) → (bit_and b 8 == 0) ≡ true → Stray bs → Stray (b ∷ bs)

-- The next packet of a state.
pub Pops : Packet → ℕ → Option MouseState → Type 0
Pops p n none = ⊥
Pops p n (some s) =
    (s.cycle ≡ 0) × ((s' : MouseState) × (mouse_get_packet s ≡ some (p, s')) × (s'.queued ≡ n))

stuck_reset : (n : ℕ) → n < 512 → ltb 513 (suc n) ≡ false
stuck_reset n lt = ground arith

-- A state by its fields, at the start of a packet.
abbrev pub start : (d0 d1 d2 : ℕ) → (ℕ → Packet) → ℕ → MouseState
start d0 d1 d2 packets n = record {
  data0 = d0;
  data1 = d1;
  data2 = d2;
  cycle = 0;
  packets = packets;
  queued = n;
}

pushed :
    (p : Packet) (d0 d1 d2 : ℕ) (packets : ℕ → Packet) (n : ℕ)
    → n < queue_size
    → push_packet p (start d0 d1 d2 packets n) ≡ some (start d0 d1 d2 (update packets n p) (suc n))
unfolding push_packet
pushed p d0 d1 d2 packets n room = rw (lt→ltb n 512 room, push_packet, stuck_reset n room) refl

first_byte :
    (b d0 d1 d2 : ℕ) (packets : ℕ → Packet) (n : ℕ)
    → (bit_and b 8 == 0) ≡ false
    → mouse_handler b (start d0 d1 d2 packets n)
      ≡ some (record (start b d1 d2 packets n) { cycle = 1 })
unfolding mouse_handler
first_byte b d0 d1 d2 packets n first = rw (first, mouse_handler) refl

stray_byte :
    (b d0 d1 d2 : ℕ) (packets : ℕ → Packet) (n : ℕ)
    → (bit_and b 8 == 0) ≡ true
    → mouse_handler b (start d0 d1 d2 packets n) ≡ some (start b d1 d2 packets n)
unfolding mouse_handler
stray_byte b d0 d1 d2 packets n clear = rw (clear, mouse_handler) refl

mouse_bytes-framed :
    (d0 d1 d2 : ℕ) (packets : ℕ → Packet) (n b0 b1 b2 : ℕ)
    → n < queue_size
    → (bit_and b0 8 == 0) ≡ false
    → mouse_bytes (b0 ∷ b1 ∷ b2 ∷ []) (start d0 d1 d2 packets n)
      ≡ some (start b0 b1 b2 (update packets n (packet_of b0 b1 b2)) (suc n))
unfolding mouse_bytes mouse_handler
mouse_bytes-framed d0 d1 d2 packets n b0 b1 b2 room first =
    ap (λ o. elim o [ none ↦ none | some s' ↦ mouse_bytes (b1 ∷ b2 ∷ []) s' ])
      (first_byte b0 d0 d1 d2 packets n first)
    ∙ ap (λ (o : Option MouseState). elim o [ none ↦ none | some s' ↦ some s' ])
        (pushed (packet_of b0 b1 b2) b0 b1 b2 packets n room)

mouse_bytes-start :
    (junk : List ℕ) (d0 d1 d2 : ℕ) (packets : ℕ → Packet) (n b0 b1 b2 : ℕ)
    → Stray junk
    → n < queue_size
    → (bit_and b0 8 == 0) ≡ false
    → mouse_bytes (junk ++ (b0 ∷ b1 ∷ b2 ∷ [])) (start d0 d1 d2 packets n)
      ≡ some (start b0 b1 b2 (update packets n (packet_of b0 b1 b2)) (suc n))
unfolding mouse_bytes
mouse_bytes-start _ d0 d1 d2 packets n b0 b1 b2 none_left room first =
    mouse_bytes-framed d0 d1 d2 packets n b0 b1 b2 room first
mouse_bytes-start _ d0 d1 d2 packets n b0 b1 b2 (stray b bs clear more) room first =
    ap (λ o. elim o [ none ↦ none | some s' ↦ mouse_bytes (bs ++ (b0 ∷ b1 ∷ b2 ∷ [])) s' ])
      (stray_byte b d0 d1 d2 packets n clear)
    ∙ mouse_bytes-start bs b d1 d2 packets n b0 b1 b2 more room first

-- From a state in which the handler waits for the first byte of a packet and the queue has room:
-- after any stray bytes, three bytes of which the first has bit 3 set are one packet, which is the
-- next that `mouse_get_packet` gives, and the handler waits for the next packet.
pub mouse_bytes_lem :
    (junk : List ℕ) (s : MouseState) (b0 b1 b2 : ℕ)
    → Stray junk
    → s.cycle ≡ 0
    → s.queued < queue_size
    → (bit_and b0 8 == 0) ≡ false
    → Pops (packet_of b0 b1 b2) s.queued (mouse_bytes (junk ++ (b0 ∷ b1 ∷ b2 ∷ [])) s)
unfolding Pops mouse_get_packet
mouse_bytes_lem junk s b0 b1 b2 strays waits room first =
    let packet = packet_of b0 b1 b2 in
    let same : start s.data0 s.data1 s.data2 s.packets s.queued ≡ s = λ i. record {
      data0 = s.data0;
      data1 = s.data1;
      data2 = s.data2;
      cycle = sym waits i;
      packets = s.packets;
      queued = s.queued;
    } in
    let framed =
      mouse_bytes-start junk s.data0 s.data1 s.data2 s.packets s.queued b0 b1 b2 strays room
        first in
    let top : update s.packets s.queued packet s.queued ≡ packet =
      update_self s.packets s.queued packet in
    let left : MouseState = start b0 b1 b2 (update s.packets s.queued packet) s.queued in
    subst (λ s'. Pops packet s.queued (mouse_bytes (junk ++ (b0 ∷ b1 ∷ b2 ∷ [])) s')) same
      (subst (λ o. Pops packet s.queued o) (sym framed)
        (refl, (left, ap (λ p. some (p, left)) top, refl)))
