-- ===== src/ZeroTrust/Toggle.antt =====
-- apps/api/src/routes/admin/security.ts: what an accepted change of the switch does.
use tactix.Common.{
  ℕ, String, ◌≡◌, ◌⊎◌, refl, ap, Bool, true, false, Option, none, some, List, [], ◌∷◌, ◌++◌,
  or_else, Bool-cases, inl, inr,
}
use tactix.Json.{Json}
use tactix.Action.{ok, modify, pure, ◌>>=◌, ◌>>◌}
use tactix.Action.Yields.{
  Yields, Yields-pure, Yields-query, Yields-bind, Yields-modify, Yields-modify_last,
  Yields-attempt_read,
}
use tactix.ZeroTrust.{
  Source, db_source, default_source, Cache, Settings, Switch, Process, rejected, Reply, shown,
  decide, enabled_of, may_administer, resolve_zero_trust, get_security_settings,
  update_zero_trust_enabled, bust_zero_trust_cache, put_zero_trust,
}

-- What an accepted change leaves and answers.
pub record IsToggled (by_default : Bool) (actor : String) (enabled : Bool) (written : ℕ)
    (v : Switch) (r : Reply) (left : Switch) : Type 0 where
  pub row :
      left.row
      ≡ some
          (record { zero_trust_enabled = some enabled; updated_at = written; updated_by = actor })
  pub audit : left.audit ≡ v.audit ++ (record { actor = actor; enabled = enabled } ∷ [])
  pub answer :
      (now : ℕ) × (c : Cache) × (r ≡ shown c.val false c.source (some now) (some actor))
      × (left.cache ≡ some c)
      × ((c.source ≡ db_source × c.val ≡ enabled)
          ⊎ (c.source ≡ default_source × c.val ≡ by_default))

module _ (by_default : Bool) (actor : String) (enabled : Bool) (written : ℕ) where
  -- The variables behind the update, the emptied cache and the audit event.
  abbrev written_to : Switch → Switch
  written_to v = record {
    cache = none;
    row =
        some
          (record { zero_trust_enabled = some enabled; updated_at = written; updated_by = actor });
    audit = v.audit ++ (record { actor = actor; enabled = enabled } ∷ []);
  }

  abbrev Verdict : Cache → Type 0
  Verdict c =
      (c.source ≡ db_source × c.val ≡ enabled) ⊎ (c.source ≡ default_source × c.val ≡ by_default)

  resolve-Yields :
      (now : ℕ) (v : Switch)
      → Yields
          (written_to v)
          (resolve_zero_trust false by_default now)
          (λ c left. (left ≡ record (written_to v) { cache = some c }) × Verdict c)
  unfolding resolve_zero_trust get_security_settings
  resolve-Yields now v =
      let P : Option (Option Settings) → Switch → Type 0 =
        λ o left. (left ≡ written_to v) × Verdict (decide by_default now o) in
      Yields-modify (written_to v) _ _ _ (
        Yields-bind (written_to v) _ _ P _
          (Yields-attempt_read (written_to v) rejected (λ (u : Switch). u.row) P
            (refl, inr (refl, refl)) (refl, inl (refl, refl)))
          λ o u (same, good).
            Yields-modify_last u _ _
              (ap (λ (x : Switch). record x { cache = some (decide by_default now o) }) same, good))

  put-Yields :
      (now : ℕ) (v : Switch)
      → Yields v
          (do
            update_zero_trust_enabled enabled actor written
            bust_zero_trust_cache
            modify (λ u.
                let done : Unit {0} = tt in
                (
                  done,
                  record u {
                    audit = u.audit ++ (record { actor = actor; enabled = enabled } ∷ []);
                  },
                ))
            c ← resolve_zero_trust false by_default now
            pure (shown c.val false c.source (some now) (some actor)))
          (IsToggled by_default actor enabled written v)
  unfolding update_zero_trust_enabled bust_zero_trust_cache
  put-Yields now v = Yields-query v _ _ _ _ (
      Yields-modify _ _ _ _ (
        Yields-modify _ _ _ _ (
          Yields-bind (written_to v) _ _ _ _ (resolve-Yields now v) λ c u (same, good).
            Yields-pure u _ _ (record {
              row = ap (λ (x : Switch). x.row) same;
              audit = ap (λ (x : Switch). x.audit) same;
              answer = (now, c, refl, ap (λ (x : Switch). x.cache) same, good);
            }))))

-- A change of the switch that is answered with the new state was asked for by an administrator while
-- the lock is not set; the row holds what was asked, one audit event tells it, and the answer, which is
-- cached, shows what was asked, or the default of the environment if the row could not be read back.
pub put_zero_trust-IsToggled :
    (locked by_default : Bool) (roles : List String) (username : Option String) (body : Option Json)
    (written now : ℕ) (s : Process) (e l : Bool) (source : Source) (at : Option ℕ)
    (by : Option String)
    → (put_zero_trust locked by_default roles username body written now s).0
      ≡ ok (shown e l source at by)
    → (may_administer roles ≡ true)
      × (locked ≡ false)
      × IsToggled by_default
          (or_else username "system")
          (enabled_of body)
          written
          s.tables
          (shown e l source at by)
          (put_zero_trust locked by_default roles username body written now s).1.tables
unfolding put_zero_trust
put_zero_trust-IsToggled locked by_default roles username body written now s e l source at by h =
    (yields s.tables).at s _ refl h (e, l, source, at, by, refl)
  where
    IsShown : Reply → Type 0
    IsShown r =
        (e : Bool) × (l : Bool) × (source : Source) × (at : Option ℕ) × (by : Option String) × (r
          ≡ shown e l source at by)

    Q : Switch → Reply → Switch → Type 0
    Q t r left =
        IsShown r
        → (may_administer roles ≡ true)
          × (locked ≡ false)
          × IsToggled by_default (or_else username "system") (enabled_of body) written t r left

    yields :
        (t : Switch)
        → Yields t (put_zero_trust locked by_default roles username body written now) (Q t)
    yields t = elim (Bool-cases (may_administer roles)) [
      | inr may_not ↦
          rw (put_zero_trust, may_not) (Yields-pure t _ _ λ (e, l, source, at, by, said). absurd cc)
      | inl may ↦ elim (Bool-cases locked) [
        | inl closed ↦
            rw (put_zero_trust, may, closed)
              (Yields-pure t _ _ λ (e, l, source, at, by, said). absurd cc)
        | inr free ↦
            rw (put_zero_trust, may, free)
              (record {
                at = λ s r here h _. (
                  may,
                  refl,
                  (put-Yields by_default (or_else username "system") (enabled_of body) written now
                        t).at
                      s r here h,
                );
              })
      ]
    ]
