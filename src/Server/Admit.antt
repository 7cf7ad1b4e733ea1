-- ===== src/Server/Admit.antt =====
-- What a datagram must pass before the files can change.
use fsp.Base.{
  ℕ, ◌≡◌, refl, ◌⊎◌, inl, inr, Bool, true, false, ◌&&◌, List, get_elem?, some, Bool-cases,
  Option-cases,
}
use fsp.Packet.{Packet, read2, receive, request_passes}
use fsp.Hosts.{Host, Htab, Found, entry, no_memory, find_host}
use fsp.Session.{Verdict, ignored, passes, key_check, enter}
use fsp.Server.{
  State, Datagram, Config, Outcome, waits, exits, fault, Gate, admits, ignores, illegal, refuses,
  host_type, gate, nameless, checked, known, found, serve_datagram,
}

Verdict-cases : (v : Verdict) → (v ≡ ignored) ⊎ ((old : Bool) × (v ≡ passes old))
Verdict-cases ignored = inl refl
Verdict-cases (passes old) = inr (old, refl)

Gate-cases :
    (g : Gate)
    → (g ≡ admits) ⊎ ((g ≡ ignores) ⊎ ((g ≡ illegal) ⊎ ((text : List ℕ) × (g ≡ refuses text))))
Gate-cases admits = inl refl
Gate-cases ignores = inr (inl refl)
Gate-cases illegal = inr (inr (inl refl))
Gate-cases (refuses text) = inr (inr (inr (text, refl)))

module _ {W P D F : Type 0} (config : Config W P D F) (d : Datagram) where
  -- The datagram is whole, its sender is admitted, its checksum is right, and its key passes for
  -- the sender's record.
  pub record Accepted (p : Packet) (h : Host) : Type 0 where
    pub whole : receive d.raw ≡ some p
    pub admitted : gate (host_type config.settings.priv_mode config.iptab d.s_addr) p.cmd ≡ admits
    pub intact : request_passes p ≡ true
    pub named : (nameless h && config.settings.no_unnamed) ≡ false
    pub old : Bool
    pub in_turn : (key_check config.timeouts d.cur_time (read2 p.key) h).1 ≡ passes old

  -- Of a datagram that leaves the server waiting with other files, or an outcome that is none.
  abbrev pub Untouched : W → Outcome W → Type 0
  Untouched w (waits s m) = s.files ≡ w
  Untouched w exits = Unit {0}
  Untouched w fault = Unit {0}

  checked_cases :
      (old : Bool) (p : Packet) (t : Htab) (i : ℕ) (h : Host) (w : W)
      → Untouched w (checked config d old p t i h w) ⊎ (request_passes p ≡ true)
  unfolding checked
  checked_cases old p t i h w = elim (Bool-cases (request_passes p)) [
    | inl e ↦ inr e
    | inr e ↦ inl (rw e refl)
  ]

  -- What the key check and the checksum ask of a datagram.
  abbrev InTurn : Packet → Host → Type 0
  InTurn p h =
      (request_passes p ≡ true)
      × ((nameless h && config.settings.no_unnamed) ≡ false)
      × (old : Bool) × ((key_check config.timeouts d.cur_time (read2 p.key) h).1 ≡ passes old)

  known_cases :
      (p : Packet) (t : Htab) (i : ℕ) (h : Host) (w : W)
      → Untouched w (known config d p t i h w) ⊎ InTurn p h
  unfolding known
  known_cases p t i h w =
      let (h', v) = key_check config.timeouts d.cur_time (read2 p.key) h in
      elim (Bool-cases (nameless h && config.settings.no_unnamed)) [
        | inl e ↦ inl (rw e refl)
        | inr e ↦ elim (Verdict-cases v) [
          | inl f ↦ inl (rw (e, f) refl)
          | inr (old, f) ↦ elim (checked_cases old p t i (enter d.cur_time h') w) [
            | inl u ↦ inl (rw (e, f) u)
            | inr c ↦ inr (c, e, old, f)
          ]
        ]
      ]

  found_cases :
      (p : Packet) (f : Found) (w : W)
      → Untouched w (found config d p f w)
        ⊎ ((t : Htab) × (i : ℕ) × (h : Host) × (f ≡ entry t i)
            × (get_elem? t.cells i ≡ some h)
            × InTurn p h)
  unfolding found
  found_cases p (entry t i) w = elim (Option-cases (get_elem? t.cells i)) [
    | inl e ↦ inl (rw (e, found) tt)
    | inr (h, e) ↦ elim (known_cases p t i h w) [
      | inl u ↦ inl (rw (e, found) u)
      | inr c ↦ inr (t, i, h, refl, e, c)
    ]
  ]
  found_cases p no_memory w = inl tt
  found_cases p Found.fault w = inl tt

  -- A datagram leaves the files as they are, unless it is accepted for the record that `find_host`
  -- gives for its sender: it is whole, its sender is admitted by the address table, its checksum
  -- is right, and its key passes.
  pub serve_datagram_guarded :
      (s : State W)
      → Untouched s.files (serve_datagram config d s)
        ⊎ ((p : Packet) × (t : Htab) × (i : ℕ) × (h : Host) × (find_host config.env s.htab d.s_addr
              ≡ entry t i)
            × (get_elem? t.cells i ≡ some h)
            × Accepted p h)
  unfolding serve_datagram
  serve_datagram_guarded s = elim (Option-cases (receive d.raw)) [
    | inl e ↦ inl (rw (e, serve_datagram) refl)
    | inr (p, e) ↦
        let g = gate (host_type config.settings.priv_mode config.iptab d.s_addr) p.cmd in
        elim (Gate-cases g) [
          | inr (inl f) ↦ inl (rw (e, f, serve_datagram) refl)
          | inr (inr (inl f)) ↦ inl (rw (e, f, serve_datagram) tt)
          | inr (inr (inr (text, f))) ↦ inl (rw (e, f, serve_datagram) refl)
          | inl f ↦ elim (found_cases p (find_host config.env s.htab d.s_addr) s.files) [
            | inl u ↦ inl (rw (e, f, serve_datagram) u)
            | inr (t, i, h, at_i, here, (c, n, old, v)) ↦ inr (
              p,
              t,
              i,
              h,
              at_i,
              here,
              record { whole = e; admitted = f; intact = c; named = n; old = old; in_turn = v },
            )
          ]
        ]
  ]
