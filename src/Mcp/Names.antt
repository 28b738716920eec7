-- ===== src/Mcp/Names.antt =====
-- src/mcp/mcp_agent.ts: the names of the files that one run moves.
use mathlib.Core.Path.{subst}
use tactix.Common.{
  String, ◌≡◌, refl, sym, ap, ◌∙◌, Bool, true, false, not, ◌||◌, ◌&&◌, some, List, [], ◌∷◌, ◌++◌,
  map, keep, find, any, ◌==◌, eq_iff, eq_refl, arith, All, Bool-cases, inl, inr,
}
use tactix.Mcp.Suffix.{ends_with}
use tactix.Mcp.{File, is_named, other_than}

-- Each of the files is the one that its name finds, and no two have one name.
abbrev pub AreFound : List File → List File → Type 0
AreFound queue [] = Unit
AreFound queue (f ∷ fs) =
    (find (is_named f.name) queue ≡ some f)
    × All (λ g. (g.name == f.name) ≡ false) fs
    × AreFound queue fs

-- The files but for those with a name among the given ones.
abbrev pub without : List File → List File → List File
without [] queue = queue
without (f ∷ fs) queue = without fs (keep (other_than f.name) queue)

-- The archive once the files have been moved there, one after the other.
abbrev pub filed : List File → List File → List File
filed [] archive = archive
filed (f ∷ fs) archive = filed fs (keep (other_than f.name) archive ++ (f ∷ []))

find-keep :
    (name other : String) (queue : List File)
    → (name == other) ≡ false
    → find (is_named name) (keep (other_than other) queue) ≡ find (is_named name) queue
find-keep name other [] differ = refl
find-keep name other (g ∷ queue) differ = ground (
  arith,
  find-keep name other queue differ,
  eq_iff g.name name,
  eq_iff g.name other,
  eq_iff name other,
)

pub AreFound-keep :
    (other : String) (queue fs : List File)
    → All (λ g. (g.name == other) ≡ false) fs
    → AreFound queue fs
    → AreFound (keep (other_than other) queue) fs
AreFound-keep other queue [] differ found = tt
AreFound-keep other queue (f ∷ fs) (d, differ) (here, apart, found) =
    (find-keep f.name other queue d ∙ here, apart, AreFound-keep other queue fs differ found)

-- No two files have one name.
abbrev pub IsDistinct : List File → Type 0
IsDistinct [] = Unit
IsDistinct (f ∷ fs) = All (λ g. (g.name == f.name) ≡ false) fs × IsDistinct fs

abbrev pub is_task : File → Bool
is_task f = ends_with ".json" f.name

pub keep-names :
    (fs : List File)
    → keep (λ name. ends_with ".json" name) (map (λ f. f.name) fs)
      ≡ map (λ f. f.name) (keep is_task fs)
keep-names [] = refl
keep-names (f ∷ fs) = ground (arith, keep-names fs)

-- Files before others of which none has their names.
AreFound-cons :
    (f : File) (queue fs : List File)
    → All (λ g. (g.name == f.name) ≡ false) fs
    → AreFound queue fs
    → AreFound (f ∷ queue) fs
AreFound-cons f queue [] differ found = tt
AreFound-cons f queue (g ∷ fs) (d, differ) (here, apart, found) = (
  ground (arith, here, d, eq_iff f.name g.name, eq_iff g.name f.name),
  apart,
  AreFound-cons f queue fs differ found,
)

All-keep_names :
    (f : File) (fs : List File)
    → All (λ g. (g.name == f.name) ≡ false) fs
    → All (λ g. (g.name == f.name) ≡ false) (keep is_task fs)
All-keep_names f [] h = tt
All-keep_names f (g ∷ fs) (p, h) = elim (Bool-cases (is_task g)) [
  | inl task ↦ rw task (p, All-keep_names f fs h)
  | inr other ↦ rw other (All-keep_names f fs h)
]

pub AreFound-of_IsDistinct :
    (queue : List File) → IsDistinct queue → AreFound queue (keep is_task queue)
AreFound-of_IsDistinct [] d = tt
AreFound-of_IsDistinct (f ∷ fs) (apart, d) =
    let found =
      AreFound-cons f fs (keep is_task fs) (All-keep_names f fs apart)
        (AreFound-of_IsDistinct fs d) in
    elim (Bool-cases (is_task f)) [
      | inl task ↦ rw task (ground (arith, eq_refl f.name), All-keep_names f fs apart, found)
      | inr other ↦ rw other found
    ]

keep-keep : (p q : File → Bool) (fs : List File) → keep p (keep q fs) ≡ keep (λ f. q f && p f) fs
keep-keep p q [] = refl
keep-keep p q (f ∷ fs) = ground (arith, keep-keep p q fs)

keep_congr : (p q : File → Bool) (fs : List File) → All (λ f. p f ≡ q f) fs → keep p fs ≡ keep q fs
keep_congr p q [] h = refl
keep_congr p q (f ∷ fs) (e, h) = ground (arith, keep_congr p q fs h)

-- Some file of the list has the name.
abbrev shares : List File → File → Bool
shares fs g = any (λ f. g.name == f.name) fs

without-keep : (fs queue : List File) → without fs queue ≡ keep (λ g. not (shares fs g)) queue
without-keep [] queue = sym (keep_all queue)
  where
    keep_all : (l : List File) → keep (λ g. true) l ≡ l
    keep_all [] = refl
    keep_all (g ∷ l) = ap (◌∷◌ g) (keep_all l)
without-keep (f ∷ fs) queue =
    without-keep fs (keep (other_than f.name) queue)
    ∙ keep-keep (λ g. not (shares fs g)) (other_than f.name) queue
    ∙ keep_congr _ _ queue (same queue)
  where
    same :
        (l : List File)
        → All
            (λ g.
              (not (g.name == f.name) && not (shares fs g))
              ≡ not ((g.name == f.name) || shares fs g))
            l
    same [] = tt
    same (g ∷ l) = (ground arith, same l)

apart_names : (f g : File) → is_task f ≡ true → is_task g ≡ false → (g.name == f.name) ≡ false
apart_names f g task other = elim (Bool-cases (g.name == f.name)) [
  | inr differ ↦ differ
  | inl same ↦
      let names : g.name ≡ f.name = ground (arith, eq_iff g.name f.name) in
      absurd (ground (arith, ap (λ n. ends_with ".json" n) names))
]

-- One more file in front of those that the names are looked for in.
shares-cons :
    (f : File) (fs queue : List File)
    → is_task f ≡ true
    → All (λ g. shares fs g ≡ is_task g) queue
    → All (λ g. shares (f ∷ fs) g ≡ is_task g) queue
shares-cons f fs [] task h = tt
shares-cons f fs (g ∷ queue) task (e, h) = (
  elim (Bool-cases (is_task g)) [
    | inl too ↦ ground (arith, e)
    | inr other ↦ ground (arith, e, apart_names f g task other)
  ],
  shares-cons f fs queue task h,
)

shares-nothing :
    (fs : List File) (g : File) → is_task g ≡ false → shares (keep is_task fs) g ≡ false
shares-nothing [] g other = refl
shares-nothing (f ∷ fs) g other = elim (Bool-cases (is_task f)) [
  | inl task ↦ rw task (ground (arith, apart_names f g task other, shares-nothing fs g other))
  | inr same ↦ rw same (shares-nothing fs g other)
]

shares-is_task : (queue : List File) → All (λ g. shares (keep is_task queue) g ≡ is_task g) queue
shares-is_task [] = tt
shares-is_task (f ∷ fs) = elim (Bool-cases (is_task f)) [
  | inl task ↦
      let e : keep is_task (f ∷ fs) ≡ f ∷ keep is_task fs = ground arith in
      subst (λ l. All (λ g. shares l g ≡ is_task g) (f ∷ fs)) (sym e)
        (
          ground (arith, eq_refl f.name),
          shares-cons f (keep is_task fs) fs task (shares-is_task fs),
        )
  | inr other ↦
      let e : keep is_task (f ∷ fs) ≡ keep is_task fs = ground arith in
      subst (λ l. All (λ g. shares l g ≡ is_task g) (f ∷ fs)) (sym e)
        (ground (arith, shares-nothing fs f other), shares-is_task fs)
]

pub without-tasks :
    (queue : List File) → without (keep is_task queue) queue ≡ keep (λ f. not (is_task f)) queue
without-tasks queue =
    without-keep (keep is_task queue) queue
    ∙ keep_congr _ _ queue (negated queue (shares-is_task queue))
  where
    negated :
        (l : List File)
        → All (λ g. shares (keep is_task queue) g ≡ is_task g) l
        → All (λ g. not (shares (keep is_task queue) g) ≡ not (is_task g)) l
    negated [] h = tt
    negated (g ∷ l) (e, h) = (ap not e, negated l h)
