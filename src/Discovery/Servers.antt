-- ===== src/Discovery/Servers.antt =====
-- services/discovery-svc/src/index.ts: the Map of the servers that were seen.
use mathlib.Core.Path.{subst}
use tactix.Common.{
  ℕ, String, ◌≡◌, refl, sym, ap, ◌∙◌, Bool, true, false, not, Option, none, some, List, [], ◌∷◌,
  keep, find, All, All-keep, ◌==◌, eq_iff, arith, Bool-cases, inl, inr, if◌then◌else◌,
}
use tactix.Discovery.{
  ServerInfo, Directory, Self, set_server, is_stale, prune, seen, announce, stop_announce,
  get_servers,
}

abbrev pub lookup : String → List ServerInfo → Option ServerInfo
lookup id xs = find (λ x. x.server_id == id) xs

abbrev Differs : String → ServerInfo → Type 0
Differs id x = (x.server_id == id) ≡ false

-- No key occurs twice.
abbrev pub IsDistinct : List ServerInfo → Type 0
IsDistinct [] = Unit
IsDistinct (x ∷ xs) = All (Differs x.server_id) xs × IsDistinct xs

lookup-set_server :
    (id : String) (info : ServerInfo) (xs : List ServerInfo)
    → lookup id (set_server info xs) ≡ (if info.server_id == id then some info else lookup id xs)
unfolding set_server
lookup-set_server id info [] = refl
lookup-set_server id info (x ∷ xs) = ground (
  arith,
  lookup-set_server id info xs,
  eq_iff x.server_id info.server_id,
  eq_iff x.server_id id,
  eq_iff info.server_id id,
)

set_server-Differs :
    (id : String) (info : ServerInfo) (xs : List ServerInfo)
    → Differs id info
    → All (Differs id) xs
    → All (Differs id) (set_server info xs)
unfolding set_server
set_server-Differs id info [] d h = (d, tt)
set_server-Differs id info (x ∷ xs) d (p, h) = elim (Bool-cases (x.server_id == info.server_id)) [
  | inl same ↦ rw (same, set_server) (d, h)
  | inr other ↦ rw (other, set_server) (p, set_server-Differs id info xs d h)
]

Differs-like :
    (x info : ServerInfo) (xs : List ServerInfo)
    → (x.server_id == info.server_id) ≡ true
    → All (Differs x.server_id) xs
    → All (Differs info.server_id) xs
Differs-like x info [] e h = tt
Differs-like x info (y ∷ ys) e (p, h) = (
  ground (
    arith,
    e,
    p,
    eq_iff x.server_id info.server_id,
    eq_iff y.server_id x.server_id,
    eq_iff y.server_id info.server_id,
  ),
  Differs-like x info ys e h,
)

set_server-IsDistinct :
    (info : ServerInfo) (xs : List ServerInfo) → IsDistinct xs → IsDistinct (set_server info xs)
unfolding set_server
set_server-IsDistinct info [] h = (tt, tt)
set_server-IsDistinct info (x ∷ xs) (ps, h) = elim (Bool-cases (x.server_id == info.server_id)) [
  | inl same ↦ rw (same, set_server) (Differs-like x info xs same ps, h)
  | inr other ↦
      rw (other, set_server)
        (
          set_server-Differs x.server_id info xs
              (ground (
                arith,
                other,
                eq_iff x.server_id info.server_id,
                eq_iff info.server_id x.server_id,
              ))
              ps,
          set_server-IsDistinct info xs h,
        )
]

keep-IsDistinct :
    (p : ServerInfo → Bool) (xs : List ServerInfo) → IsDistinct xs → IsDistinct (keep p xs)
keep-IsDistinct p [] h = tt
keep-IsDistinct p (x ∷ xs) (ps, h) = elim (Bool-cases (p x)) [
  | inl hit ↦ rw hit (All-keep (Differs x.server_id) p xs ps, keep-IsDistinct p xs h)
  | inr miss ↦ rw miss (keep-IsDistinct p xs h)
]

-- What the process does with the Map.
pub data Step : Directory → Directory → Type 0 where
  see : {d : Directory} (info : ServerInfo) → Step d (seen info d)
  advertise : {d : Directory} (self : Self) (now : ℕ) → Step d (announce self now d)
  withdraw : {d : Directory} → Step d (stop_announce d)
  expire : {d : Directory} (now : ℕ) → Step d (prune now d)
  list : {d : Directory} (now : ℕ) → Step d (get_servers now d).1

pub data Steps : Directory → Directory → Type 0 where
  stop : {d : Directory} → Steps d d
  more : {d e f : Directory} → Step d e → Steps e f → Steps d f

announce-IsDistinct :
    (self : Self) (now : ℕ) (d : Directory)
    → IsDistinct d.discovered
    → IsDistinct (announce self now d).discovered
unfolding announce
announce-IsDistinct self now d h = elim (Bool-cases d.announced) [
  | inl already ↦ rw (announce, already) h
  | inr first_time ↦ rw (announce, first_time) (set_server-IsDistinct _ d.discovered h)
]

Step-IsDistinct : {d e : Directory} → Step d e → IsDistinct d.discovered → IsDistinct e.discovered
unfolding seen prune stop_announce get_servers
Step-IsDistinct (see info) h = set_server-IsDistinct info _ h
Step-IsDistinct (advertise self now) h = announce-IsDistinct self now _ h
Step-IsDistinct withdraw h = h
Step-IsDistinct (expire now) h = keep-IsDistinct (λ x. not (is_stale now x)) _ h
Step-IsDistinct (list now) h = keep-IsDistinct (λ x. not (is_stale now x)) _ h

Steps-IsDistinct : {d e : Directory} → Steps d e → IsDistinct d.discovered → IsDistinct e.discovered
Steps-IsDistinct stop h = h
Steps-IsDistinct (more a l) h = Steps-IsDistinct l (Step-IsDistinct a h)

abbrev pub unless_stale : (now : ℕ) → Option ServerInfo → Option ServerInfo
unless_stale now none = none
unless_stale now (some x) = if is_stale now x then none else some x

-- No row behind has the key.
lookup-Differs :
    (id : String) (xs : List ServerInfo)
    → All (Differs id) xs
    → (p : ServerInfo → Bool) → lookup id (keep p xs) ≡ none
lookup-Differs id [] h p = refl
lookup-Differs id (x ∷ xs) (q, h) p = ground (arith, q, lookup-Differs id xs h p)

lookup-fresh :
    (now : ℕ) (id : String) (xs : List ServerInfo)
    → IsDistinct xs
    → lookup id (keep (λ x. not (is_stale now x)) xs) ≡ unless_stale now (lookup id xs)
lookup-fresh now id [] h = refl
lookup-fresh now id (x ∷ xs) (ps, h) = elim (Bool-cases (x.server_id == id)) [
  | inl same ↦ elim (Bool-cases (is_stale now x)) [
    | inl stale ↦
        let key : x.server_id ≡ id = ground (arith, eq_iff x.server_id id) in
        rw (same, stale)
          (lookup-Differs id xs (subst (λ k. All (Differs k) xs) key ps)
            (λ y. not (is_stale now y)))
    | inr young ↦ ground (arith, same, young)
  ]
  | inr other ↦ ground (arith, other, lookup-fresh now id xs h)
]

-- After any use of a Map that was empty, a server that is seen is listed as it was seen last, unless
-- this is more than 60 seconds ago; every other server is listed as before, with the same limit.
pub get_servers-seen :
    {d e : Directory} (info : ServerInfo) (now : ℕ) (id : String)
    → Steps d e
    → d.discovered ≡ []
    → lookup id (get_servers now (seen info e)).0
      ≡ unless_stale now (if info.server_id == id then some info else lookup id e.discovered)
unfolding get_servers prune seen
get_servers-seen {d} {e} info now id steps empty =
    let distinct = Steps-IsDistinct steps (subst IsDistinct (sym empty) tt) in
    lookup-fresh now id (set_server info e.discovered)
      (set_server-IsDistinct info e.discovered distinct)
    ∙ ap (unless_stale now) (lookup-set_server id info e.discovered)
