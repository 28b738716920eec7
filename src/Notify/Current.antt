-- ===== src/Notify/Current.antt =====
-- ui/src/lib/notify.ts: the bound of the store, and what its subscribers know.
use tactix.Common.{
  ℕ, ◌≤◌, ◌≡◌, refl, Bool, not, List, [], ◌∷◌, map, keep, take, length, length-take, All,
  All-append, eqb, ◌==◌, arith, Bool-cases, inl, inr,
}
use tactix.Notify.{
  Notice, Subscriber, Store, empty, publish, subscribe, splice, unsubscribe, push, dismiss, Call,
  subscribing, unsubscribing, pushing, dismissing, call, run,
}

-- No more than 50 items, and every subscriber was last called with them.
pub record IsCurrent (s : Store) : Type 0 where
  pub bounded : length s.items ≤ 50
  pub told : All (λ f. f.seen ≡ s.items) s.subs

publish-told :
    (items : List Notice) (subs : List Subscriber)
    → All (λ f. f.seen ≡ items) (map (λ (f : Subscriber). record f { seen = items }) subs)
publish-told items [] = tt
publish-told items (f ∷ subs) = (refl, publish-told items subs)

splice-All :
    (items : List Notice) (key : ℕ) (subs : List Subscriber)
    → All (λ f. f.seen ≡ items) subs
    → All (λ f. f.seen ≡ items) (splice key subs)
unfolding splice
splice-All items key [] h = tt
splice-All items key (f ∷ subs) (p, h) = elim (Bool-cases (eqb f.key key)) [
  | inl same ↦ rw (splice, same) h
  | inr other ↦ rw (splice, other) (p, splice-All items key subs h)
]

length-keep : (p : Notice → Bool) (xs : List Notice) → length (keep p xs) ≤ length xs
length-keep p [] = omega arith
length-keep p (x ∷ xs) = ground (arith, length-keep p xs)

call-IsCurrent : (c : Call) (s : Store) → IsCurrent s → IsCurrent (call c s)
unfolding call subscribe unsubscribe push dismiss publish
call-IsCurrent (subscribing key) s h = record {
  bounded = h.bounded;
  told = All-append (λ f. f.seen ≡ s.items) s.subs _ h.told (refl, tt);
}
call-IsCurrent (unsubscribing key) s h = record {
  bounded = h.bounded;
  told = splice-All s.items key s.subs h.told;
}
call-IsCurrent (pushing n) s h = record {
  bounded = omega (arith, length-take 50 (n ∷ s.items));
  told = publish-told (take 50 (n ∷ s.items)) s.subs;
}
call-IsCurrent (dismissing id) s h = record {
  bounded = (let le = length-keep (λ n. not (n.id == id)) s.items in omega (arith, h.bounded));
  told = publish-told (keep (λ n. not (n.id == id)) s.items) s.subs;
}

run-IsCurrent_from : (s : Store) (calls : List Call) → IsCurrent s → IsCurrent (run s calls)
unfolding run
run-IsCurrent_from s [] h = h
run-IsCurrent_from s (c ∷ calls) h = run-IsCurrent_from (call c s) calls (call-IsCurrent c s h)

-- After any calls of the store it holds at most 50 notifications, and each subscriber that is not gone
-- was last called with exactly those that it holds.
pub run-IsCurrent : (calls : List Call) → IsCurrent (run empty calls)
run-IsCurrent calls = run-IsCurrent_from empty calls (record { bounded = omega arith; told = tt })
