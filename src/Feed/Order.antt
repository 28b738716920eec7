-- ===== src/Feed/Order.antt =====
-- ORDER BY … DESC and `Array.prototype.sort`: a stable sort, the latest first. The database may
-- return rows of the same time in another order.
use tactix.Common.{
  ℕ, zero, suc, ◌+◌, ◌≤◌, ◌≡◌, refl, ◌∙◌, ap, Bool, List, [], ◌∷◌, ◌++◌, arith, ltb, All, take,
  length, if◌then◌else◌, Bool-cases, inl, inr,
}

module _ {A : Type 0} (time : A → ℕ) where
  unfoldable pub insert_latest : A → List A → List A
  insert_latest x [] = x ∷ []
  insert_latest x (y ∷ ys) =
      let rest = insert_latest x ys in if ltb (time x) (time y) then y ∷ rest else x ∷ y ∷ ys

  unfoldable pub latest_first : List A → List A
  unfolding insert_latest
  latest_first [] = []
  latest_first (x ∷ xs) = insert_latest x (latest_first xs)

  -- Every element is at least as late as all that follow.
  abbrev pub IsDescending : List A → Type 0
  IsDescending [] = Unit
  IsDescending (x ∷ xs) = All (λ y. time y ≤ time x) xs × IsDescending xs

  All-insert : (P : A → Type 0) (x : A) (ys : List A) → P x → All P ys → All P (insert_latest x ys)
  unfolding insert_latest
  All-insert P x [] p h = (p, tt)
  All-insert P x (y ∷ ys) p (q, h) = elim (Bool-cases (ltb (time x) (time y))) [
    | inl later ↦ rw (later, insert_latest) (q, All-insert P x ys p h)
    | inr not_later ↦ rw (not_later, insert_latest) (p, (q, h))
  ]

  All-trans :
      (x y : A) (ys : List A)
      → time y ≤ time x
      → All (λ z. time z ≤ time y) ys
      → All (λ z. time z ≤ time x) ys
  All-trans x y [] le h = tt
  All-trans x y (z ∷ zs) le (p, h) = (omega arith, All-trans x y zs le h)

  insert-IsDescending : (x : A) (ys : List A) → IsDescending ys → IsDescending (insert_latest x ys)
  unfolding insert_latest
  insert-IsDescending x [] h = (tt, tt)
  insert-IsDescending x (y ∷ ys) (ps, h) = elim (Bool-cases (ltb (time x) (time y))) [
    | inl later ↦
        rw (later, insert_latest)
          (All-insert (λ z. time z ≤ time y) x ys (ground arith) ps, insert-IsDescending x ys h)
    | inr not_later ↦
        let le : time y ≤ time x = ground arith in
        rw (not_later, insert_latest) ((le, All-trans x y ys le ps), (ps, h))
  ]

  pub latest_first-IsDescending : (xs : List A) → IsDescending (latest_first xs)
  unfolding latest_first
  latest_first-IsDescending [] = tt
  latest_first-IsDescending (x ∷ xs) =
      insert-IsDescending x (latest_first xs) (latest_first-IsDescending xs)

-- How many elements pass a test.
abbrev pub count : {A : Type 0} → (A → Bool) → List A → ℕ
count p [] = 0
count p (x ∷ xs) = (if p x then 1 else 0) + count p xs

-- Both lists have the same elements, as often.
abbrev pub SameElements : {A : Type 0} → List A → List A → Type 0
SameElements {A} xs ys = (p : A → Bool) → count p xs ≡ count p ys

module _ {A : Type 0} (time : A → ℕ) where
  count-insert :
      (p : A → Bool) (x : A) (ys : List A) → count p (insert_latest time x ys) ≡ count p (x ∷ ys)
  unfolding insert_latest
  count-insert p x [] = refl
  count-insert p x (y ∷ ys) = ground (arith, count-insert p x ys)

  pub latest_first-SameElements : (xs : List A) → SameElements (latest_first time xs) xs
  unfolding latest_first
  latest_first-SameElements [] p = refl
  latest_first-SameElements (x ∷ xs) p =
      count-insert p x (latest_first time xs)
      ∙ ap (λ n. (if p x then 1 else 0) + n) (latest_first-SameElements xs p)

-- `slice(n)`
abbrev pub drop : {A : Type 0} → ℕ → List A → List A
drop zero xs = xs
drop (suc n) [] = []
drop (suc n) (x ∷ xs) = drop n xs

pub take-drop : {A : Type 0} (n : ℕ) (xs : List A) → take n xs ++ drop n xs ≡ xs
take-drop zero xs = refl
take-drop (suc n) [] = refl
take-drop (suc n) (x ∷ xs) = ap (◌∷◌ x) (take-drop n xs)

module _ {A : Type 0} (time : A → ℕ) where
  length-insert : (x : A) (ys : List A) → length (insert_latest time x ys) ≡ suc (length ys)
  unfolding insert_latest
  length-insert x [] = refl
  length-insert x (y ∷ ys) = ground (arith, length-insert x ys)

  pub length-latest_first : (xs : List A) → length (latest_first time xs) ≡ length xs
  unfolding latest_first
  length-latest_first [] = refl
  length-latest_first (x ∷ xs) =
      length-insert x (latest_first time xs) ∙ ap suc (length-latest_first xs)
