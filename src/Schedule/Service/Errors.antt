-- ===== src/Schedule/Service/Errors.antt =====
-- services/schedule.service.ts: a call that ends in an error has written nothing and told nobody.
use tactix.Common.{
  ℕ, String, ◌≡◌, refl, Bool, true, false, Option, none, some, List, [], ◌∷◌, first, map, keep, ap,
  if◌then◌else◌, Bool-cases, inl, inr, arith,
}
use tactix.Action.{continue, decided, err, query, throw, ◌>>=◌}
use tactix.Action.Rules.{
  Same, Keeps, IsAtomic, IsSafe, read_rules, write_rules, Keeps-pure, Keeps-throw, Keeps-query,
  Keeps-require, IsAtomic-bind, IsAtomic-of_Keeps,
}
use tactix.Schedule.{ShiftInput, ShiftPatch, ShiftRow, Tables}
use tactix.Schedule.Repo.{get_shift, sets_nothing, is_shift, update_rows}
use tactix.Schedule.Service.{
  Config, Failure, rejected, Schedule, Handler, select, no_conflict, with_times, or_not_found,
  check_times, update_statement, create_shift, update_shift,
}

Keeps-no_conflict : (o : Option ShiftRow) → Keeps (no_conflict o)
Keeps-no_conflict none = Keeps-pure tt
Keeps-no_conflict (some r) = Keeps-throw _

Keeps-or_not_found : (o : Option ShiftRow) → Keeps (or_not_found o)
Keeps-or_not_found none = Keeps-throw _
Keeps-or_not_found (some r) = Keeps-pure r

module _ {A : Type 0} where
  Keeps-with_times :
      (start end : Option ℕ) (f : ℕ → ℕ → Handler A)
      → ((s e : ℕ) → Keeps (f s e))
      → Keeps (with_times start end (throw rejected) f)
  Keeps-with_times none end f k = Keeps-throw _
  Keeps-with_times (some s) none f k = Keeps-throw _
  Keeps-with_times (some s) (some e) f k = k s e

  IsAtomic-with_times :
      (start end : Option ℕ) (f : ℕ → ℕ → Handler A)
      → ((s e : ℕ) → IsAtomic (f s e))
      → IsAtomic (with_times start end (throw rejected) f)
  IsAtomic-with_times none end f k = IsAtomic-of_Keeps (Keeps-throw _)
  IsAtomic-with_times (some s) none f k = IsAtomic-of_Keeps (Keeps-throw _)
  IsAtomic-with_times (some s) (some e) f k = k s e

ruleset schedule_rules =
    (write_rules, Keeps-no_conflict, Keeps-or_not_found, Keeps-with_times, IsAtomic-with_times)

-- An UPDATE that returns no row has changed none.
update_rows-quiet :
    (test : ShiftRow → Bool) (change : ShiftRow → ShiftRow) (l : List ShiftRow)
    → first (map change (keep test l)) ≡ none
    → update_rows test change l ≡ l
unfolding update_rows
update_rows-quiet test change [] h = refl
update_rows-quiet test change (r ∷ rs) h = elim (Bool-cases (test r)) [
  | inl hit ↦ absurd (ground arith)
  | inr miss ↦ ground (arith, update_rows-quiet test change rs)
]

update_quiet :
    (b : Bool) (op id : String) (change : ShiftRow → ShiftRow) (t : Tables)
    → ((if b then select (get_shift op id) else update_statement op id change) t).0 ≡ none
    → ((if b then select (get_shift op id) else update_statement op id change) t).1 ≡ t
update_quiet true op id change t h = refl
update_quiet false op id change t h =
    ap (λ (l : List ShiftRow). record t { shifts = l })
      (update_rows-quiet (is_shift op id) change t.shifts h)

-- The end of `updateShift`: a statement that returns no row has changed nothing.
module _ (f : Tables → Option ShiftRow × Tables) (g : ShiftRow → Handler ShiftRow)
    (quiet : (t : Tables) → (f t).0 ≡ none → (f t).1 ≡ t)
    (safe : (r : ShiftRow) → IsSafe (g r)) where
  found-Same :
      (o : Option ShiftRow) (s t : Schedule) (e : Failure)
      → (o ≡ none → Same s t)
      → ((or_not_found o >>= g) t).0 ≡ err e
      → Same s ((or_not_found o >>= g) t).1
  unfolding ◌>>=◌
  found-Same none s t e same h = same refl
  found-Same (some r) s t e same h = cc (h, ((safe r).at t).1)

  decided-Same :
      (l : List Bool) (s : Schedule) (e : Failure)
      → (continue
          (decided l rejected f s).0
          (λ o. or_not_found o >>= g)
          (decided l rejected f s).1).0
        ≡ err e
      → Same s
          (continue
            (decided l rejected f s).0
            (λ o. or_not_found o >>= g)
            (decided l rejected f s).1).1
  decided-Same [] s e h =
      found-Same (f s.tables).0 s _ e
        (λ missing. record { tables = quiet s.tables missing; sent = refl }) h
  decided-Same (false ∷ l) s e h =
      found-Same (f s.tables).0 s _ e
        (λ missing. record { tables = quiet s.tables missing; sent = refl }) h
  decided-Same (true ∷ l) s e h = record { tables = refl; sent = refl }

  update-IsAtomic : IsAtomic (query rejected f >>= λ updated. do row ← or_not_found updated; g row)
  unfolding ◌>>=◌ query
  update-IsAtomic = record { at = λ s e h. decided-Same s.faults s e h }

module _ (date : String → Option ℕ) (cfg : Config) where
  check_times-Keeps : (now : ℕ) (start end : Option ℕ) → Keeps (check_times date cfg now start end)
  check_times-Keeps now start end = search read_rules

  -- A createShift that ends in an error, at whichever query or test, has written no row and sent no
  -- notification.
  pub create_shift-IsAtomic :
      (now : ℕ) (op : String) (input : ShiftInput) (created_by id : String)
      → IsAtomic (create_shift date cfg now op input created_by id)
  unfolding create_shift
  create_shift-IsAtomic now op input created_by id =
      search (schedule_rules, check_times-Keeps) depth 12

  -- An updateShift that ends in an error has changed no row and sent no notification.
  pub update_shift-IsAtomic :
      (now : ℕ) (op id : String) (patch : ShiftPatch)
      → IsAtomic (update_shift date cfg now op id patch)
  unfolding update_shift
  update_shift-IsAtomic now op id patch = IsAtomic-bind _ _ (Keeps-query _ _) λ existing.
      IsAtomic-bind _ _ (Keeps-or_not_found existing) λ _.
        IsAtomic-bind _ _ (check_times-Keeps now _ _) λ _.
          IsAtomic-bind _ _ (Keeps-query _ _) λ roster_ok.
            IsAtomic-bind _ _ (Keeps-require roster_ok _) λ _.
              IsAtomic-bind _ _ (Keeps-with_times _ _ _ (λ s e. Keeps-query _ _)) λ conflict.
                IsAtomic-bind _ _ (Keeps-no_conflict conflict) λ _.
                  update-IsAtomic _ _ (update_quiet (sets_nothing patch) op id _)
                    (λ r. search write_rules)
