-- ===== src/Registry/Numbers.antt =====
-- Numbers that a counter gives out.
use tactix.Common.{
  ℕ, suc, ◌<◌, ◌≤◌, ◌≡◌, sym, ap, ◌∙◌, List, [], ◌∷◌, ◌++◌, All, arith, eqb, Bool-cases, inl, inr,
}
use tactix.Registry.{Incident, change_first}

module _ {A : Type 0} (id : A → ℕ) where
  -- The elements are numbered one after another from `k`, and `n` is the next number.
  abbrev pub IsNumbered : ℕ → List A → ℕ → Type 0
  IsNumbered k [] n = k ≡ n
  IsNumbered k (x ∷ xs) n = (id x ≡ k) × IsNumbered (suc k) xs n

  pub IsNumbered-append :
      (k : ℕ) (xs : List A) (n : ℕ) (x : A)
      → IsNumbered k xs n
      → id x ≡ n
      → IsNumbered k (xs ++ (x ∷ [])) (suc n)
  IsNumbered-append k [] n x h e = (e ∙ sym h, ap suc h)
  IsNumbered-append k (y ∷ ys) n x (p, h) e = (p, IsNumbered-append (suc k) ys n x h e)

  pub IsNumbered-le : (k : ℕ) (xs : List A) (n : ℕ) → IsNumbered k xs n → k ≤ n
  IsNumbered-le k [] n h = omega arith
  IsNumbered-le k (x ∷ xs) n (p, h) = omega (arith, IsNumbered-le (suc k) xs n h)

  pub All-below : (k : ℕ) (xs : List A) (n : ℕ) → IsNumbered k xs n → All (λ x. id x < n) xs
  All-below k [] n h = tt
  All-below k (x ∷ xs) n (p, h) =
      (omega (arith, IsNumbered-le (suc k) xs n h), All-below (suc k) xs n h)

pub change_first-IsNumbered :
    (target : ℕ) (change : Incident → Incident)
    → ((i : Incident) → (change i).id ≡ i.id)
    → (k : ℕ) (is : List Incident) (n : ℕ) → IsNumbered (λ i. i.id) k is n
    → IsNumbered (λ i. i.id) k (change_first target change is) n
unfolding change_first
change_first-IsNumbered target change same k [] n h = h
change_first-IsNumbered target change same k (i ∷ is) n (p, h) =
    elim (Bool-cases (eqb i.id target)) [
      | inl hit ↦ rw (hit, change_first) (same i ∙ p, h)
      | inr miss ↦
          rw (miss, change_first) (p, change_first-IsNumbered target change same (suc k) is n h)
    ]
