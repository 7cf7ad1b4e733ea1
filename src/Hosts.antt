-- ===== src/Hosts.antt =====
-- The client table of server/host.c: a sorted array of host records, searched by halving.
-- The array is `cells` with `hcnt` records in use and `htot` (the length of `cells`) allocated.
pub mod Array
pub mod Search
pub mod Insert
pub mod Inv
pub mod Place
pub mod Table
mod Tests
use fsp.Base.{
  ℕ, zero, suc, ◌+◌, ◌-◌, ◌/◌, ◌%◌, ◌^◌, Bool, true, false, ◌&&◌, List, [], ◌∷◌, ◌++◌, length,
  get_elem?, set, ltb, ◌==◌, if◌then◌else◌, Option, none, some,
}

-- `struct HTAB` of include/server_def.h. A name is the bytes of the string.
pub record Host : Type 0 where
  pub inet_num : ℕ
  pub hostname : Option (List ℕ)
  pub last_acc : ℕ
  pub next_key : ℕ
  pub last_key : ℕ
  pub acc_cnt : ℕ
  pub active : Bool

-- The static `hzero`.
abbrev pub hzero : Host
hzero = record {
  inet_num = 0;
  hostname = none;
  last_acc = 0;
  next_key = 0;
  last_key = 0;
  acc_cnt = 0;
  active = false;
}

pub record Htab : Type 0 where
  pub cells : List Host
  pub hcnt : ℕ

abbrev pub halloc_size : ℕ
halloc_size = 30

-- What the C library gives: `gethostbyaddr`, and the cells that `realloc` adds (`none` when it
-- fails); and the setting `no_unnamed`.
pub record Env : Type 0 where
  pub find_hostname : ℕ → Option (List ℕ)
  pub grow : Option (List Host)
  pub no_unnamed : Bool

-- How the search loop ends: at an entry, between entries, or by a read out of range (or fuel).
pub data Probe : Type 0 where
  hit miss : ℕ → Probe
  lost : Probe

abbrev pub mid : ℕ → ℕ → ℕ
mid l h = (l + h) % 2 ^ 32 / 2

-- The loop of `find_host`, with fuel for its rounds.
pub search : ℕ → List Host → ℕ → ℕ → ℕ → Probe
search zero cells n l h = lost
search (suc f) cells n l h =
    let m = mid l h in
    let lower = search f cells n l m in
    let upper = search f cells n m h in
    let probe : Probe = elim (get_elem? cells m) [
      | none ↦ lost
      | some e ↦ if ltb n e.inet_num then lower else if ltb e.inet_num n then upper else hit m
    ] in
    if m == l then miss m else probe

-- `for(i = hcnt-m, hs = htab+hcnt, hd=htab+hcnt+1; i--; *--hd = *--hs);`
pub copy_cell : List Host → ℕ → ℕ → List Host
copy_cell cells from to = elim (get_elem? cells from) [ none ↦ cells | some e ↦ set cells to e ]

pub shift : ℕ → ℕ → List Host → List Host
shift zero hs cells = cells
shift (suc i) hs cells = shift i (hs - 1) (copy_cell cells (hs - 1) hs)

-- What `find_host` does: it returns the table with the index of the entry, leaves by `exit(5)`, or
-- reads out of range.
pub data Found : Type 0 where
  entry : Htab → ℕ → Found
  no_memory : Found
  fault : Found

abbrev pub is_unnamed : Option (List ℕ) → Bool
is_unnamed none = true
is_unnamed (some s) = false

-- The entry is in the table: it is named if it must be, and counted.
pub touched : Env → Host → Host
touched env e =
    let name =
      if env.no_unnamed && is_unnamed e.hostname
      then env.find_hostname e.inet_num
      else e.hostname in
    record e { hostname = name; acc_cnt = (e.acc_cnt + 1) % 2 ^ 16 }

-- The entry for a client that is not in the table yet.
abbrev pub newcomer : Env → ℕ → Host
newcomer env n = record hzero { inet_num = n; hostname = env.find_hostname n }

-- `htot += HALLOC_SIZE` when the table is full.
pub reserve : Env → Htab → Option (List Host)
reserve env t =
    if ltb (length t.cells) (t.hcnt + 1)
    then elim env.grow [ none ↦ none | some more ↦ some (t.cells ++ more) ]
    else some t.cells

-- The entry is not in the table: the ones from `m` on move up, and it takes their place.
pub insert : Env → Htab → ℕ → ℕ → Found
insert env t n m = elim (reserve env t) [
  | none ↦ no_memory
  | some cells ↦
      let moved = shift (t.hcnt - m) t.hcnt cells in
      entry (record { cells = set moved m (newcomer env n); hcnt = t.hcnt + 1 }) m
]

-- What `find_host` does once the loop has ended.
pub settle : Env → Htab → ℕ → Probe → Found
settle env t n lost = fault
settle env t n (hit m) = elim (get_elem? t.cells m) [
  | none ↦ fault
  | some e ↦ entry (record t { cells = set t.cells m (touched env e) }) m
]
settle env t n (miss m) = elim (get_elem? t.cells m) [
  | none ↦ fault
  | some e ↦ insert env t n (if ltb e.inet_num n then m + 1 else m)
]

pub find_host : Env → Htab → ℕ → Found
find_host env t n =
    settle env t n (search (t.hcnt + 1) t.cells n 0 ((t.hcnt + 2 ^ 32 - 1) % 2 ^ 32))

-- `init_htab`: two entries, for 0 and ~0U, in the cells that `malloc` gives.
pub init_htab : Option (List Host) → Option Htab
init_htab none = none
init_htab (some cells) = some (record {
  cells = set (set cells 0 hzero) 1 (record hzero { inet_num = 2 ^ 32 - 1 });
  hcnt = 2;
})
