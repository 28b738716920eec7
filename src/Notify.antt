-- ===== src/Notify.antt =====
-- ui/src/lib/notify.ts: the store of notifications and its subscribers.
pub mod Current
pub mod Tests
use tactix.Common.{
  ℕ, String, Bool, true, false, not, List, [], ◌∷◌, ◌++◌, map, keep, take, eqb, ◌==◌, if◌then◌else◌,
}

pub data Severity : Type 0 where
  info warning critical : Severity

-- `Notify`
pub record Notice : Type 0 where
  pub id : String
  pub severity : Severity
  pub title : String
  pub text : String
  pub at : String

-- A function in `subs`, with what it was last called with.
pub record Subscriber : Type 0 where
  pub key : ℕ
  pub seen : List Notice

-- The variables of the closure.
pub record Store : Type 0 where
  pub subs : List Subscriber
  pub items : List Notice

abbrev pub empty : Store
empty = record { subs = []; items = [] }

unfoldable pub publish : Store → Store
publish s = record s { subs = map (λ (f : Subscriber). record f { seen = s.items }) s.subs }

unfoldable pub subscribe : ℕ → Store → Store
subscribe key s = record s { subs = s.subs ++ (record { key = key; seen = s.items } ∷ []) }

-- `subs.splice(subs.indexOf(fn), 1)`, which takes the first occurrence
unfoldable pub splice : ℕ → List Subscriber → List Subscriber
splice key [] = []
splice key (f ∷ subs) = let rest = splice key subs in if eqb f.key key then subs else f ∷ rest

-- the function that `subscribe` returns
unfoldable pub unsubscribe : ℕ → Store → Store
unfolding splice
unsubscribe key s = record s { subs = splice key s.subs }

unfoldable pub push : Notice → Store → Store
unfolding publish
push n s = publish (record s { items = take 50 (n ∷ s.items) })

unfoldable pub dismiss : String → Store → Store
unfolding publish
dismiss id s = publish (record s { items = keep (λ n. not (n.id == id)) s.items })

-- A call of the store.
pub data Call : Type 0 where
  subscribing : ℕ → Call
  unsubscribing : ℕ → Call
  pushing : Notice → Call
  dismissing : String → Call

unfoldable pub call : Call → Store → Store
unfolding subscribe unsubscribe push dismiss
call (subscribing key) s = subscribe key s
call (unsubscribing key) s = unsubscribe key s
call (pushing n) s = push n s
call (dismissing id) s = dismiss id s

unfoldable pub run : Store → List Call → Store
unfolding call
run s [] = s
run s (c ∷ calls) = run (call c s) calls
