-- ===== src/Action/Rules.antt =====
-- Rules for actions on a database: those that leave it as it was, and those that leave it as it was
-- when they end in an error.
use tactix.Common.{◌≡◌, refl, Bool, true, false, List, [], ◌∷◌, arith, ◌∙◌, ap}
use tactix.Action.{
  Action, Result, ok, err, Db, query, notify, announced, require, throw, pure, ◌>>=◌, continue,
}

-- The same rows, and the same notifications.
pub record Same {T N : Type 0} (s t : Db T N) : Type 0 where
  pub tables : t.tables ≡ s.tables
  pub sent : t.sent ≡ s.sent

pub Same-refl : {T N : Type 0} (s : Db T N) → Same s s
Same-refl s = record { tables = refl; sent = refl }

Same-trans : {T N : Type 0} {s t u : Db T N} → Same s t → Same t u → Same s u
Same-trans p q = record { tables = q.tables ∙ p.tables; sent = q.sent ∙ p.sent }

pub record Keeps {T N E A : Type 0} (m : Action (Db T N) E A) : Type 0 where
  pub at : (s : Db T N) → Same s (m s).1

-- Nothing is written by a call that ends in an error.
pub record IsAtomic {T N E A : Type 0} (m : Action (Db T N) E A) : Type 0 where
  pub at : (s : Db T N) (e : E) → (m s).0 ≡ err e → Same s (m s).1

-- No call ends in an error.
pub record IsSafe {T N E A : Type 0} (m : Action (Db T N) E A) : Type 0 where
  pub at : (s : Db T N) → (a : A) × ((m s).0 ≡ ok a)

module _ {T N E A : Type 0} where
  pub Keeps-pure : (a : A) → Keeps {T = T} {N = N} {E = E} (pure a)
  unfolding pure
  Keeps-pure a = record { at = Same-refl }

  pub Keeps-throw : (e : E) → Keeps {T = T} {N = N} {E = E} {A = A} (throw e)
  unfolding throw
  Keeps-throw e = record { at = Same-refl }

  pub Keeps-query : (e : E) (f : T → A) → Keeps {T = T} {N = N} (query e (λ t. (f t, t)))
  unfolding query
  Keeps-query e f = record { at = λ s. record { tables = ground arith; sent = ground arith } }

  pub IsAtomic-query : (e : E) (f : T → A × T) → IsAtomic {T = T} {N = N} (query e f)
  unfolding query
  IsAtomic-query e f = record {
    at = λ s e' h. record { tables = ground arith; sent = ground arith };
  }

  pub IsAtomic-of_Keeps : {m : Action (Db T N) E A} → Keeps m → IsAtomic m
  IsAtomic-of_Keeps k = record { at = λ s e h. k.at s }

module _ {T N E : Type 0} where
  pub Keeps-require : (b : Bool) (e : E) → Keeps {T = T} {N = N} (require b e)
  unfolding require
  Keeps-require true e = record { at = Same-refl }
  Keeps-require false e = record { at = Same-refl }

  pub IsSafe-notify : (note : N) → IsSafe {T = T} {E = E} (notify note)
  unfolding notify
  IsSafe-notify note = record { at = λ s. (tt, announced-ok s.faults note s) }
    where
      announced-ok : (l : List Bool) (n : N) (s : Db T N) → (announced {E = E} l n s).0 ≡ ok tt
      announced-ok [] n s = refl
      announced-ok (true ∷ l) n s = refl
      announced-ok (false ∷ l) n s = refl

module _ {T N E A B : Type 0} where
  continue-Keeps :
      (r : Result E A) (f : A → Action (Db T N) E B) (s : Db T N)
      → ((a : A) → Keeps (f a))
      → Same s (continue r f s).1
  continue-Keeps (ok a) f s k = (k a).at s
  continue-Keeps (err e) f s k = Same-refl s

  pub Keeps-bind :
      (m : Action (Db T N) E A) (f : A → Action (Db T N) E B)
      → Keeps m
      → ((a : A) → Keeps (f a))
      → Keeps (m >>= f)
  unfolding ◌>>=◌
  Keeps-bind m f km kf = record {
    at = λ s. let (r, s') = m s in Same-trans (km.at s) (continue-Keeps r f s' kf);
  }

  continue-IsAtomic :
      (r : Result E A) (f : A → Action (Db T N) E B) (s : Db T N)
      → ((a : A) → IsAtomic (f a))
      → (e : E) → (continue r f s).0 ≡ err e
      → Same s (continue r f s).1
  continue-IsAtomic (ok a) f s k e h = (k a).at s e h
  continue-IsAtomic (err e') f s k e h = Same-refl s

  -- Reads before an atomic action.
  pub IsAtomic-bind :
      (m : Action (Db T N) E A) (f : A → Action (Db T N) E B)
      → Keeps m
      → ((a : A) → IsAtomic (f a))
      → IsAtomic (m >>= f)
  unfolding ◌>>=◌
  IsAtomic-bind m f km kf = record {
    at = λ s e h. let (r, s') = m s in Same-trans (km.at s) (continue-IsAtomic r f s' kf e h);
  }

  continue-IsSafe :
      (r : Result E A) (f : A → Action (Db T N) E B) (s : Db T N)
      → ((a : A) → IsSafe (f a))
      → (e : E) → (continue r f s).0 ≡ err e
      → r ≡ err e
  continue-IsSafe (ok a) f s k e h = let p = (k a).at s in cc (h, p.1)
  continue-IsSafe (err e') f s k e h = cc

  continue_err :
      (e : E) (f : A → Action (Db T N) E B) (r : Result E A) (s : Db T N)
      → r ≡ err e
      → (continue r f s).1 ≡ s
  continue_err e f (ok a) s h = cc
  continue_err e f (err e') s h = refl

  -- An atomic action before one that cannot fail.
  pub IsAtomic-bind_of_IsSafe :
      (m : Action (Db T N) E A) (f : A → Action (Db T N) E B)
      → IsAtomic m
      → ((a : A) → IsSafe (f a))
      → IsAtomic (m >>= f)
  unfolding ◌>>=◌
  IsAtomic-bind_of_IsSafe m f km kf = record {
    at = λ s e h.
        let (r, s') = m s in
        let refused : r ≡ err e = continue-IsSafe r f s' kf e h in
        rw (continue_err e f r s' refused) (km.at s e refused);
  }

  pub IsSafe-bind :
      (m : Action (Db T N) E A) (f : A → Action (Db T N) E B)
      → IsSafe m
      → ((a : A) → IsSafe (f a))
      → IsSafe (m >>= f)
  unfolding ◌>>=◌
  IsSafe-bind m f km kf = record {
    at = λ s.
        let (a, done) = km.at s in
        let (b, end) = (kf a).at (m s).1 in
        (b, ap (λ (r : Result E A). (continue r f (m s).1).0) done ∙ end);
  }

pub IsSafe-pure : {T N E A : Type 0} (a : A) → IsSafe {T = T} {N = N} {E = E} (pure a)
unfolding pure
IsSafe-pure a = record { at = λ s. (a, refl) }

pub ruleset read_rules = (Keeps-pure, Keeps-throw, Keeps-query, Keeps-require, Keeps-bind)

pub ruleset write_rules = (
  read_rules, IsAtomic-of_Keeps, IsAtomic-query, IsAtomic-bind, IsAtomic-bind_of_IsSafe,
  IsSafe-notify, IsSafe-bind, IsSafe-pure,
)
