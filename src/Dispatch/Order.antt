-- ===== src/Dispatch/Order.antt =====
-- services/incident-svc/src/index.ts: no two tests of the server hold of one request.
use tactix.Common.{
  ℕ, zero, suc, String, ◌≡◌, refl, ap, Bool, true, false, not, ◌&&◌, ◌||◌, Option, none, some, List,
  [], ◌∷◌, find, split_on, ◌==◌, eq_iff, arith, Bool-cases, inl, inr, and_split,
}
use tactix.Dispatch.{
  Part, word, any_text, digits, are_digits, fits, matches, Rule, rules, applies, dispatch,
}

-- No text fits both.
abbrev part_apart : Part → Part → Bool
part_apart (word v) (word w) = not (v == w)
part_apart (word v) digits = not (are_digits v)
part_apart digits (word w) = not (are_digits w)
part_apart _ _ = false

-- No list of segments matches both.
abbrev parts_apart : List Part → List Part → Bool
parts_apart [] [] = false
parts_apart (p ∷ ps) (q ∷ qs) = part_apart p q || parts_apart ps qs
parts_apart _ _ = true

abbrev rules_apart : Rule → Rule → Bool
rules_apart r s = not (r.method == s.method) || parts_apart r.parts s.parts

abbrev apart_from : Rule → List Rule → Bool
apart_from r [] = true
apart_from r (s ∷ rest) = rules_apart r s && apart_from r rest

abbrev are_apart : List Rule → Bool
are_apart [] = true
are_apart (r ∷ rest) = apart_from r rest && are_apart rest

part_apart_sound :
    (p q : Part) (s : String) → part_apart p q ≡ true → fits p s ≡ true → fits q s ≡ true → ⊥
unfolding fits
part_apart_sound (word v) (word w) s h a b = ground (arith, eq_iff v s, eq_iff w s, eq_iff v w)
part_apart_sound (word v) any_text s h a b = cc
part_apart_sound (word v) digits s h a b =
    ground (arith, eq_iff v s, ap are_digits, and_split (not (s == "")) (are_digits s) b)
part_apart_sound any_text q s h a b = cc
part_apart_sound digits (word w) s h a b =
    ground (arith, eq_iff w s, and_split (not (s == "")) (are_digits s) a)
part_apart_sound digits any_text s h a b = cc
part_apart_sound digits digits s h a b = cc

parts_apart_sound :
    (ps qs : List Part) (segments : List String)
    → parts_apart ps qs ≡ true
    → matches ps segments ≡ true
    → matches qs segments ≡ true
    → ⊥
unfolding matches
parts_apart_sound [] [] segments h a b = cc
parts_apart_sound [] (q ∷ qs) [] h a b = cc
parts_apart_sound [] (q ∷ qs) (s ∷ segments) h a b = cc
parts_apart_sound (p ∷ ps) [] [] h a b = cc
parts_apart_sound (p ∷ ps) [] (s ∷ segments) h a b = cc
parts_apart_sound (p ∷ ps) (q ∷ qs) [] h a b = cc
parts_apart_sound (p ∷ ps) (q ∷ qs) (s ∷ segments) h a b =
    let (a0, a1) = and_split (fits p s) (matches ps segments) a in
    let (b0, b1) = and_split (fits q s) (matches qs segments) b in
    elim (Bool-cases (part_apart p q)) [
      | inl here ↦ part_apart_sound p q s here a0 b0
      | inr there ↦ parts_apart_sound ps qs segments (ground (arith, there, h)) a1 b1
    ]

-- The rule at a position.
abbrev pub rule_at : ℕ → List Rule → Option Rule
rule_at n [] = none
rule_at zero (r ∷ rest) = some r
rule_at (suc n) (r ∷ rest) = rule_at n rest

module _ (db : Bool) (method : String) (segments : List String) where
  rules_apart_sound :
      (r s : Rule)
      → rules_apart r s ≡ true
      → applies db method segments r ≡ true
      → applies db method segments s ≡ true
      → ⊥
  unfolding applies
  rules_apart_sound r s h a b =
      let (ra, rm) =
        and_split (r.method == method && (not r.client || db)) (matches r.parts segments) a in
      let (sa, sm) =
        and_split (s.method == method && (not s.client || db)) (matches s.parts segments) b in
      let rn = and_split (r.method == method) (not r.client || db) ra in
      let sn = and_split (s.method == method) (not s.client || db) sa in
      elim (Bool-cases (parts_apart r.parts s.parts)) [
        | inl apart ↦ parts_apart_sound r.parts s.parts segments apart rm sm
        | inr alike ↦
            ground (arith, eq_iff r.method method, eq_iff s.method method, eq_iff r.method s.method)
      ]

  misses :
      (r s : Rule) (n : ℕ) (rest : List Rule)
      → apart_from r rest ≡ true
      → rule_at n rest ≡ some s
      → applies db method segments s ≡ true
      → applies db method segments r ≡ false
  misses r s n [] h at hit = absurd (cc)
  misses r s zero (t ∷ rest) h at hit =
      let (here, there) = and_split (rules_apart r t) (apart_from r rest) h in
      elim (Bool-cases (applies db method segments r)) [
        | inr miss ↦ miss
        | inl both ↦ absurd (rules_apart_sound r t here both (ground (arith, hit)))
      ]
  misses r s (suc n) (t ∷ rest) h at hit =
      let (here, there) = and_split (rules_apart r t) (apart_from r rest) h in
      misses r s n rest there at hit

  find-rule_at :
      (n : ℕ) (s : Rule) (rs : List Rule)
      → are_apart rs ≡ true
      → rule_at n rs ≡ some s
      → applies db method segments s ≡ true
      → find (applies db method segments) rs ≡ some s
  find-rule_at n s [] h at hit = absurd (cc)
  find-rule_at zero s (r ∷ rest) h at hit = ground arith
  find-rule_at (suc n) s (r ∷ rest) h at hit =
      let (here, there) = and_split (apart_from r rest) (are_apart rest) h in
      ground (arith, misses r s n rest here at hit, find-rule_at n s rest there at hit)

are_apart-rules : are_apart rules ≡ true
unfolding rules are_digits
are_apart-rules = refl

-- A request that fits any one of the tests of the server, by its method, its path and the database
-- client, is answered by the handler of that test: no other test holds of it, so that the order of the
-- tests decides nothing.
pub dispatch-rule_at :
    (db : Bool) (method path : String) (n : ℕ) (r : Rule)
    → rule_at n rules ≡ some r
    → applies db method (split_on 47 path) r ≡ true
    → dispatch db method path ≡ some r.target
unfolding dispatch
dispatch-rule_at db method path n r here fits_it =
    rw (dispatch, find-rule_at db method (split_on 47 path) n r rules are_apart-rules here fits_it)
      refl
