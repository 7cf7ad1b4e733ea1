-- ===== src/Rights/Protect.antt =====
-- What SET_PRO changes of the protection, and what GET_PRO then shows.
use fsp.Base.{
  ℕ, ◌<◌, ◌≡◌, ◌≢◌, refl, Bool, true, false, List, [], ◌∷◌, ◌==◌, if◌then◌else◌, some, none, arith,
}
use fsp.Rights.{DirInfo, server_set_pro, act_of, set_bit, clear_bit, has_bit}

abbrev pub flags : List ℕ
flags = 1 ∷ 2 ∷ 4 ∷ 8 ∷ 16 ∷ 32 ∷ 64 ∷ 128 ∷ []

-- The second protection has the flag `act` if `on` says so, and the other flags as the first has them.
abbrev pub Switched : List ℕ → ℕ → Bool → ℕ → ℕ → Type 0
Switched [] act on p q = Unit {0}
Switched (c ∷ cs) act on p q =
    (has_bit q c ≡ (if c == act then on else has_bit p c)) × Switched cs act on p q

-- The letters of SET_PRO with the flags that they stand for: c for adding files, d for deleting,
-- g for reading, m for making directories, l for listing and r for renaming.
pub data Names : ℕ → ℕ → Type 0 where
  c : Names b'c' 4
  d : Names b'd' 2
  g : Names b'g' 16
  m : Names b'm' 8
  l : Names b'l' 64
  r : Names b'r' 128

act_of-Names : (letter act : ℕ) → Names letter act → act_of letter ≡ some act
unfolding act_of
act_of-Names _ _ c = refl
act_of-Names _ _ d = refl
act_of-Names _ _ g = refl
act_of-Names _ _ m = refl
act_of-Names _ _ l = refl
act_of-Names _ _ r = refl

set_bit-Switched :
    (p letter act : ℕ) → p < 256 → Names letter act → Switched flags act true p (set_bit p act)
unfolding set_bit
set_bit-Switched p _ _ h c = ground arith
set_bit-Switched p _ _ h d = ground arith
set_bit-Switched p _ _ h g = ground arith
set_bit-Switched p _ _ h m = ground arith
set_bit-Switched p _ _ h l = ground arith
set_bit-Switched p _ _ h r = ground arith

clear_bit-Switched :
    (p letter act : ℕ) → p < 256 → Names letter act → Switched flags act false p (clear_bit p act)
unfolding clear_bit
clear_bit-Switched p _ _ h c = ground arith
clear_bit-Switched p _ _ h d = ground arith
clear_bit-Switched p _ _ h g = ground arith
clear_bit-Switched p _ _ h m = ground arith
clear_bit-Switched p _ _ h l = ground arith
clear_bit-Switched p _ _ h r = ground arith

-- With one of the letters c, d, g, m, l and r, the sign + sets the flag that `Names` gives the
-- letter and the sign - clears it, and the other seven flags stay as they are. Another sign
-- changes nothing. The protection is a byte.
pub server_set_pro_lem :
    (now : ℕ) (di : DirInfo) (letter act : ℕ)
    → di.protection < 256
    → Names letter act
    → ((d : DirInfo) × (server_set_pro now di b'+' letter ≡ some d)
        × Switched flags act true di.protection d.protection)
      × ((d : DirInfo) × (server_set_pro now di b'-' letter ≡ some d)
          × Switched flags act false di.protection d.protection)
      × ((sign : ℕ) → sign ≢ b'+' → sign ≢ b'-' → server_set_pro now di sign letter ≡ none)
unfolding server_set_pro
server_set_pro_lem now di letter act h named =
    let e = act_of-Names letter act named in
    (
      (
        record di { protection = set_bit di.protection act; mtime = now; lastcheck = now },
        rw (e, server_set_pro) refl,
        set_bit-Switched di.protection letter act h named,
      ),
      (
        record di { protection = clear_bit di.protection act; mtime = now; lastcheck = now },
        rw (e, server_set_pro) refl,
        clear_bit-Switched di.protection letter act h named,
      ),
      λ sign plus minus. ground (arith, e, plus, minus),
    )
