-- ===== src/ZeroTrust/Lock.antt =====
-- The lock of the environment: while TACTIX_ZT_LOCKED is set, zero trust is on, whatever the database
-- says and whatever is asked of the admin routes.
use mathlib.Core.Path.{subst}
use tactix.Common.{
  ℕ, ◌+◌, String, ◌≡◌, refl, sym, Bool, true, false, Option, none, some, List, [], ◌∷◌, ltb,
  Bool-cases, inl, inr, if◌then◌else◌,
}
use tactix.Json.{Json}
use tactix.Action.{
  Action, Result, ok, err, query, modify, attempt, pure, ◌>>=◌, decided, continue, caught,
}
use tactix.ZeroTrust.{
  Cache, Settings, Switch, Process, Rejection, resolve_zero_trust, get_zero_trust_enabled,
  get_zero_trust, put_zero_trust, zero_trust_gate, or_chain, rejected, get_security_settings,
  may_administer,
}

-- A cached answer says that zero trust is on.
abbrev pub IsOn : Option Cache → Type 0
IsOn none = Unit
IsOn (some c) = c.val ≡ true

record Resolved (out : Result Rejection Cache × Process) : Type 0 where
  cache : Cache
  answered : out.0 ≡ ok cache
  on : cache.val ≡ true
  kept : IsOn out.1.tables.cache

module _ (by_default : Bool) where
  resolve-Resolved :
      (now : ℕ) (s : Process)
      → IsOn s.tables.cache
      → Resolved (resolve_zero_trust true by_default now s)
  unfolding resolve_zero_trust ◌>>=◌ modify pure
  resolve-Resolved now s on = go s.tables.cache on
    where
      go :
          (c : Option Cache)
          → IsOn c
          → Resolved (
              resolve_zero_trust true by_default now
                (record s { tables = record s.tables { cache = c } }))
      go none on = record { cache = _; answered = refl; on = refl; kept = refl }
      go (some c) on = elim (Bool-cases (ltb now (c.ts + 5000))) [
        | inl young ↦
            rw (young, resolve_zero_trust, ◌>>=◌, modify, pure)
              (record { cache = c; answered = refl; on = on; kept = on })
        | inr old ↦
            rw (old, resolve_zero_trust, ◌>>=◌, modify, pure)
              (record { cache = _; answered = refl; on = refl; kept = refl })
      ]

record Stays {A : Type 0} (m : Action Process Rejection A) : Type 0 where
  at : (s : Process) → IsOn s.tables.cache → IsOn (m s).1.tables.cache

module _ {A : Type 0} where
  Stays-pure : (a : A) → Stays (pure a)
  unfolding pure
  Stays-pure a = record { at = λ s on. on }

  Stays-attempt : (m : Action Process Rejection A) → Stays m → Stays (attempt m)
  unfolding attempt
  Stays-attempt m k = record { at = λ s on. go (m s).0 (m s).1 (k.at s on) }
    where
      go :
          (r : Result Rejection A) (s : Process)
          → IsOn s.tables.cache
          → IsOn (caught (r, s)).1.tables.cache
      go (ok a) s on = on
      go (err e) s on = on

module _ {A B : Type 0} where
  Stays-bind :
      (m : Action Process Rejection A) (f : A → Action Process Rejection B)
      → Stays m
      → ((a : A) → Stays (f a))
      → Stays (m >>= f)
  unfolding ◌>>=◌
  Stays-bind m f k l = record { at = λ s on. go (m s).0 (m s).1 (k.at s on) }
    where
      go :
          (r : Result Rejection A) (s : Process)
          → IsOn s.tables.cache
          → IsOn (continue r f s).1.tables.cache
      go (ok a) s on = (l a).at s on
      go (err e) s on = on

Stays-settings : Stays get_security_settings
unfolding get_security_settings query
Stays-settings = record { at = λ s on. go s.faults s on }
  where
    go :
        (l : List Bool) (s : Process)
        → IsOn s.tables.cache
        → IsOn (decided l rejected (λ (v : Switch). (v.row, v)) s).1.tables.cache
    go [] s on = on
    go (false ∷ l) s on = on
    go (true ∷ l) s on = on

module _ (by_default : Bool) where
  Stays-resolve : (now : ℕ) → Stays (resolve_zero_trust true by_default now)
  Stays-resolve now = record { at = λ s on. (resolve-Resolved by_default now s on).kept }

  get_zero_trust-Stays :
      (roles : List String) (now : ℕ) → Stays (get_zero_trust true by_default roles now)
  unfolding get_zero_trust
  get_zero_trust-Stays roles now = elim (Bool-cases (may_administer roles)) [
    | inl may ↦
        rw (get_zero_trust, may)
          (Stays-bind _ _ (Stays-resolve now)
            λ c. Stays-bind _ _ (Stays-attempt _ Stays-settings) λ row. Stays-pure _)
    | inr may_not ↦ rw (get_zero_trust, may_not) (Stays-pure _)
  ]

  put_zero_trust-Stays :
      (roles : List String) (username : Option String) (body : Option Json) (written now : ℕ)
      → Stays (put_zero_trust true by_default roles username body written now)
  unfolding put_zero_trust
  put_zero_trust-Stays roles username body written now = elim (Bool-cases (may_administer roles)) [
    | inl may ↦ rw (put_zero_trust, may) (Stays-pure _)
    | inr may_not ↦ rw (put_zero_trust, may_not) (Stays-pure _)
  ]

  zero_trust_gate-Stays :
      {Chain : Type 0} (throws : Chain → Bool) (next : Chain) (standard strict : Option Chain)
      (now : ℕ)
      → Stays (zero_trust_gate true by_default throws next standard strict now)
  unfolding zero_trust_gate get_zero_trust_enabled
  zero_trust_gate-Stays throws next standard strict now =
      Stays-bind _ _ (Stays-attempt _ (Stays-bind _ _ (Stays-resolve now) λ c. Stays-pure _))
        λ zt. Stays-pure _

module _ (by_default : Bool) (Chain : Type 0) where
  -- A call in a process with the lock set; or another row, which a process without the lock has
  -- written, and another oracle of the queries to come.
  pub data Step : Process → Process → Type 0 where
    show_call :
        {s : Process} (roles : List String) (now : ℕ)
        → Step s (get_zero_trust true by_default roles now s).1
    put_call :
        {s : Process} (roles : List String) (username : Option String) (body : Option Json)
        (written now : ℕ)
        → Step s (put_zero_trust true by_default roles username body written now s).1
    gate_call :
        {s : Process} (throws : Chain → Bool) (next : Chain) (standard strict : Option Chain)
        (now : ℕ)
        → Step s (zero_trust_gate true by_default throws next standard strict now s).1
    outside :
        {s : Process} (row : Option Settings) (faults : List Bool)
        → Step s (record s { tables = record s.tables { row = row }; faults = faults })

  pub data Steps : Process → Process → Type 0 where
    stop : {s : Process} → Steps s s
    more : {s t u : Process} → Step s t → Steps t u → Steps s u

  Step-IsOn : {s t : Process} → Step s t → IsOn s.tables.cache → IsOn t.tables.cache
  Step-IsOn (show_call roles now) on = (get_zero_trust-Stays by_default roles now).at _ on
  Step-IsOn (put_call roles username body written now) on =
      (put_zero_trust-Stays by_default roles username body written now).at _ on
  Step-IsOn (gate_call throws next standard strict now) on =
      (zero_trust_gate-Stays by_default throws next standard strict now).at _ on
  Step-IsOn (outside row faults) on = on

  Steps-IsOn : {s t : Process} → Steps s t → IsOn s.tables.cache → IsOn t.tables.cache
  Steps-IsOn stop on = on
  Steps-IsOn (more a l) on = Steps-IsOn l (Step-IsOn a on)

  -- With the lock set, after any calls from an empty cache, whatever the database holds and whichever of
  -- its queries are rejected, the gate calls the strict chain, and no other unless calling the strict
  -- chain throws at once: then it calls the standard chain after it, or `next` where none is set.
  pub zero_trust_gate_strict :
      {s t : Process} (throws : Chain → Bool) (next strict : Chain) (standard : Option Chain)
      (now : ℕ)
      → Steps s t
      → s.tables.cache ≡ none
      → (zero_trust_gate true by_default throws next standard (some strict) now t).0
        ≡ ok (strict ∷ (if throws strict then or_chain standard next ∷ [] else []))
  unfolding zero_trust_gate get_zero_trust_enabled ◌>>=◌ attempt pure
  zero_trust_gate_strict {s} {t} throws next strict standard now l empty =
      let on : IsOn s.tables.cache = subst IsOn (sym empty) tt in
      let r = resolve-Resolved by_default now t (Steps-IsOn l on) in
      rw (r.answered, r.on, pure) refl
