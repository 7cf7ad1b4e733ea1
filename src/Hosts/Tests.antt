-- ===== src/Hosts/Tests.antt =====
-- The client table in use, and the theorems about it at a first client.
use fsp.Base.{ℕ, ◌+◌, ◌^◌, ◌<◌, ◌≡◌, refl, inl, inr, false, List, ◌∷◌, replicate, some, none, arith}
use fsp.Hosts.{
  Host, Htab, Env, hzero, init_htab, find_host, search, copy_cell, shift, reserve, insert, settle,
  entry,
}
use fsp.Hosts.Search.{Located, search-Located}
use fsp.Hosts.Insert.{Grows}
use fsp.Hosts.Inv.{Inv, init_htab-Inv, max_inet}
use fsp.Hosts.Table.{Serves, find_host-Serves, find_host_again}

abbrev blank : List Host
blank = replicate 30 hzero

abbrev env : Env
env = record { find_hostname = λ n. none; grow = some blank; no_unnamed = false }

abbrev marks : Htab
marks = record {
  cells = hzero ∷ record hzero { inet_num = max_inet } ∷ replicate 28 hzero;
  hcnt = 2;
}

-- 10.0.0.1, as the server reads it.
abbrev client : ℕ
client = 16777226

init_htab_marks : init_htab (some blank) ≡ some marks
unfolding init_htab
init_htab_marks = refl

-- The client gets the place between the marks, and a second call counts its access.
first_call :
    find_host env marks client
    ≡ entry
        (record {
          cells =
              hzero
              ∷ record hzero { inet_num = client }
              ∷ record hzero { inet_num = max_inet }
              ∷ replicate 27 hzero;
          hcnt = 3;
        })
        1
unfolding find_host settle search insert reserve shift copy_cell
first_call = refl

marks-Inv : Inv marks
marks-Inv = record {
  fits = omega arith;
  small = omega arith;
  marks = omega arith;
  first = refl;
  last = refl;
  sorted = λ i j a b.
      let ei : i ≡ 0 = omega arith in let ej : j ≡ 1 = omega arith in rw (ei, ej) (omega arith);
}

env-Grows : Grows env blank
env-Grows = record { given = refl; full = refl }

init_htab_made : (t : Htab) × (init_htab (some blank) ≡ some t) × (t.hcnt ≡ 2) × Inv t
init_htab_made = init_htab-Inv blank refl

search_between_two_marks : Located marks.cells client 0 1 (search 3 marks.cells client 0 1)
search_between_two_marks =
    search-Located 3 marks.cells client 0 1 (omega arith) (omega arith) (omega arith) (omega arith)
      (omega arith) (omega arith)

find_host-Serves_example :
    (t : Htab) × (i : ℕ) × (find_host env marks client ≡ entry t i) × Serves env marks client t i
find_host-Serves_example =
    find_host-Serves env marks client marks-Inv env-Grows (omega arith) (omega arith) (omega arith)

abbrev served :
    (t : Htab) × (i : ℕ) × (find_host env marks client ≡ entry t i) × Serves env marks client t i
served =
    find_host-Serves env marks client marks-Inv env-Grows (omega arith) (omega arith) (omega arith)

few : served.0.hcnt + 1 < 2 ^ 31
few = elim served.3.own [
  | inl (_, _, _, _, e) ↦ omega (arith, e)
  | inr (_, _, e) ↦ omega (arith, e)
]

second_lookup_finds_the_first :
    (t : Htab) × (find_host env served.0 client ≡ entry t served.1) × (t.hcnt ≡ served.0.hcnt)
second_lookup_finds_the_first =
    find_host_again env marks served.0 client served.1 env-Grows (omega arith) (omega arith) few
      served.3
