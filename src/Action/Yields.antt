-- ===== src/Action/Yields.antt =====
-- What a successful call has done to given tables: rules that run through a handler forwards.
use mathlib.Core.Path.{subst, subst₂}
use tactix.Common.{◌≡◌, refl, sym, Bool, true, false, Option, none, some, List, [], ◌∷◌}
use tactix.Action.{
  Action, Result, ok, err, modify, attempt, caught, Db, query, notify, decided, announced, require,
  throw, pure, ◌>>=◌, ◌>>◌, continue,
}

-- If `m` succeeds on the tables `t`, its value and the tables that it leaves are related by `Q`.
pub record Yields {T N E A : Type 0} (t : T) (m : Action (Db T N) E A) (Q : A → T → Type 0)
    : Type 0 where
  pub at : (s : Db T N) (a : A) → s.tables ≡ t → (m s).0 ≡ ok a → Q a (m s).1.tables

ok_injective : {E A : Type 0} {a b : A} → ◌≡◌ {A = Result E A} (ok a) (ok b) → a ≡ b
ok_injective h = cc

module _ {T N E A : Type 0} where
  pub Yields-pure :
      (t : T) (a : A) (Q : A → T → Type 0) → Q a t → Yields {N = N} {E = E} t (pure a) Q
  unfolding pure
  Yields-pure t a Q q = record { at = λ s b here h. subst₂ Q (ok_injective h) (sym here) q }

  pub Yields-throw : (t : T) (e : E) (Q : A → T → Type 0) → Yields {N = N} t (throw e) Q
  unfolding throw
  Yields-throw t e Q = record { at = λ s b here h. cc }

module _ {T N E A B : Type 0} where
  -- A statement, before the rest of the handler.
  pub Yields-query :
      (t : T) (e : E) (f : T → A × T) (g : A → Action (Db T N) E B) (Q : B → T → Type 0)
      → Yields (f t).1 (g (f t).0) Q
      → Yields t (query e f >>= g) Q
  unfolding query ◌>>=◌
  Yields-query t e f g Q y = record { at = λ s b here h. go s.faults s b here h }
    where
      moved : (s : Db T N) → s.tables ≡ t → Yields (f s.tables).1 (g (f s.tables).0) Q
      moved s here = subst (λ u. Yields (f u).1 (g (f u).0) Q) (sym here) y

      go :
          (l : List Bool) (s : Db T N) (b : B)
          → s.tables ≡ t
          → (continue (decided l e f s).0 g (decided l e f s).1).0 ≡ ok b
          → Q b (continue (decided l e f s).0 g (decided l e f s).1).1.tables
      go [] s b here h = (moved s here).at _ b refl h
      go (false ∷ l) s b here h = (moved s here).at _ b refl h
      go (true ∷ l) s b here h = cc

module _ {T N E B : Type 0} where
  -- A notification, before the rest of the handler.
  pub Yields-notify :
      (t : T) (note : N) (g : Unit {0} → Action (Db T N) E B) (Q : B → T → Type 0)
      → Yields t (g tt) Q
      → Yields t (notify note >>= g) Q
  unfolding notify ◌>>=◌
  Yields-notify t note g Q y = record { at = λ s b here h. go s.faults s b here h }
    where
      go :
          (l : List Bool) (s : Db T N) (b : B)
          → s.tables ≡ t
          → (continue (announced {E = E} l note s).0 g (announced {E = E} l note s).1).0 ≡ ok b
          → Q b (continue (announced {E = E} l note s).0 g (announced {E = E} l note s).1).1.tables
      go [] s b here h = y.at _ b here h
      go (false ∷ l) s b here h = y.at _ b here h
      go (true ∷ l) s b here h = y.at _ b here h

  pub Yields-require :
      (t : T) (b : Bool) (e : E) (g : Unit {0} → Action (Db T N) E B) (Q : B → T → Type 0)
      → (b ≡ true → Yields t (g tt) Q)
      → Yields t (require b e >>= g) Q
  unfolding require ◌>>=◌
  Yields-require t true e g Q y = record { at = (y refl).at }
  Yields-require t false e g Q y = record { at = λ s b here h. cc }

  -- Three tests in a row.
  pub Yields-require_thrice :
      (t : T) (a b c : Bool) (x y z : E) (g : Unit {0} → Action (Db T N) E B) (Q : B → T → Type 0)
      → (a ≡ true → b ≡ true → c ≡ true → Yields t (g tt) Q)
      → Yields t ((require a x >> (require b y >> require c z)) >>= g) Q
  unfolding ◌>>=◌
  Yields-require_thrice t true true true x y z g Q k = record { at = (k refl refl refl).at }
  Yields-require_thrice t false b c x y z g Q k = record { at = λ s r here h. cc }
  Yields-require_thrice t true false c x y z g Q k = record { at = λ s r here h. cc }
  Yields-require_thrice t true true false x y z g Q k = record { at = λ s r here h. cc }

module _ {T N E A B : Type 0} where
  -- Any action, before the rest of the handler.
  pub Yields-bind :
      (t : T) (m : Action (Db T N) E A) (f : A → Action (Db T N) E B) (P : A → T → Type 0)
      (Q : B → T → Type 0)
      → Yields t m P
      → ((a : A) (u : T) → P a u → Yields u (f a) Q)
      → Yields t (m >>= f) Q
  unfolding ◌>>=◌
  Yields-bind t m f P Q y k = record {
    at = λ s b here h. go (m s).0 (m s).1 b (λ a e. y.at s a here e) h;
  }
    where
      go :
          (r : Result E A) (s : Db T N) (b : B)
          → ((a : A) → r ≡ ok a → P a s.tables)
          → (continue r f s).0 ≡ ok b
          → Q b (continue r f s).1.tables
      go (ok a) s b p h = (k a s.tables (p a refl)).at s b refl h
      go (err e) s b p h = cc

module _ {T N E A B : Type 0} where
  -- A change of the variables, before the rest of the handler.
  pub Yields-modify :
      (t : T) (f : T → A × T) (g : A → Action (Db T N) E B) (Q : B → T → Type 0)
      → Yields (f t).1 (g (f t).0) Q
      → Yields t (modify f >>= g) Q
  unfolding modify ◌>>=◌
  Yields-modify t f g Q y = record {
    at = λ s b here h. (subst (λ u. Yields (f u).1 (g (f u).0) Q) (sym here) y).at _ b refl h;
  }

module _ {T N E A : Type 0} where
  pub Yields-modify_last :
      (t : T) (f : T → A × T) (Q : A → T → Type 0)
      → Q (f t).0 (f t).1
      → Yields {N = N} {E = E} t (modify f) Q
  unfolding modify
  Yields-modify_last t f Q q = record {
    at = λ s b here h. subst₂ Q (ok_injective h) refl (subst (λ u. Q (f u).0 (f u).1) (sym here) q);
  }

  -- A read that may be rejected, and is caught.
  pub Yields-attempt_read :
      (t : T) (e : E) (r : T → A) (Q : Option A → T → Type 0)
      → Q none t
      → Q (some (r t)) t
      → Yields {N = N} t (attempt (query e (λ u. (r u, u)))) Q
  unfolding attempt query
  Yields-attempt_read t e r Q q p = record { at = λ s b here h. go s.faults s b here h }
    where
      there : (s : Db T N) → s.tables ≡ t → Q (some (r s.tables)) s.tables
      there s here = subst (λ u. Q (some (r u)) u) (sym here) p

      go :
          (l : List Bool) (s : Db T N) (b : Option A)
          → s.tables ≡ t
          → (caught (decided l e (λ u. (r u, u)) s)).0 ≡ ok b
          → Q b (caught (decided l e (λ u. (r u, u)) s)).1.tables
      go [] s b here h = subst₂ Q (ok_injective h) refl (there s here)
      go (false ∷ l) s b here h = subst₂ Q (ok_injective h) refl (there s here)
      go (true ∷ l) s b here h = subst₂ Q (ok_injective h) refl (subst (Q none) (sym here) q)
