-- ===== src/Action/Outcome.antt =====
-- How any call of a handler ends, with the tables that it leaves: it may succeed, or a query may be
-- rejected on the way.
use mathlib.Core.Path.{subst}
use tactix.Common.{◌≡◌, refl, sym, Bool, true, false, List, [], ◌∷◌}
use tactix.Action.{Action, Result, ok, err, Db, query, decided, pure, ◌>>=◌, continue}

-- On the tables `t`, whatever happens, the result of `m` and the tables that it leaves satisfy `Q`.
pub record Outcome {T N E A : Type 0} (t : T) (m : Action (Db T N) E A)
    (Q : Result E A → T → Type 0) : Type 0 where
  pub at : (s : Db T N) → s.tables ≡ t → Q (m s).0 (m s).1.tables

module _ {T N E A : Type 0} where
  pub Outcome-pure :
      (t : T) (a : A) (Q : Result E A → T → Type 0) → Q (ok a) t → Outcome {N = N} t (pure a) Q
  unfolding pure
  Outcome-pure t a Q q = record { at = λ s here. subst (Q (ok a)) (sym here) q }

module _ {T N E A B : Type 0} where
  -- A statement, before the rest of the handler.
  pub Outcome-query :
      (t : T) (e : E) (f : T → A × T) (g : A → Action (Db T N) E B) (Q : Result E B → T → Type 0)
      → Q (err e) t
      → Outcome (f t).1 (g (f t).0) Q
      → Outcome t (query e f >>= g) Q
  unfolding query ◌>>=◌
  Outcome-query t e f g Q q y = record { at = λ s here. go s.faults s here }
    where
      moved : (s : Db T N) → s.tables ≡ t → Outcome (f s.tables).1 (g (f s.tables).0) Q
      moved s here = subst (λ u. Outcome (f u).1 (g (f u).0) Q) (sym here) y

      go :
          (l : List Bool) (s : Db T N)
          → s.tables ≡ t
          → Q
              (continue (decided l e f s).0 g (decided l e f s).1).0
              (continue (decided l e f s).0 g (decided l e f s).1).1.tables
      go [] s here = (moved s here).at _ refl
      go (false ∷ l) s here = (moved s here).at _ refl
      go (true ∷ l) s here = subst (Q (err e)) (sym here) q

  -- A value, before the rest of the handler.
  pub Outcome-value :
      (t : T) (a : A) (g : A → Action (Db T N) E B) (Q : Result E B → T → Type 0)
      → Outcome t (g a) Q
      → Outcome t (pure a >>= g) Q
  unfolding pure ◌>>=◌
  Outcome-value t a g Q y = record { at = y.at }
