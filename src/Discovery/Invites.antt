-- ===== src/Discovery/Invites.antt =====
-- services/discovery-svc/src/index.ts: the invites of a server.
use tactix.Common.{
  ℕ, String, ◌≡◌, refl, sym, ap, ◌∙◌, Bool, true, false, Option, none, some, truthy, Bool-cases,
  Option-cases, inl, inr, if◌then◌else◌,
}
use tactix.Discovery.{Payload, accepted, expired, is_expired, judge, verify_invite}

judge_sound :
    (now : ℕ) (q p : Payload) (v : Option Bool)
    → judge now q v ≡ accepted p
    → (q ≡ p) × (v ≡ some true) × (is_expired now p.exp ≡ false)
judge_sound now q p none h = absurd cc
judge_sound now q p (some false) h = absurd cc
judge_sound now q p (some true) h = elim (Bool-cases (is_expired now q.exp)) [
  | inl late ↦ absurd (refused (ap (λ b. if b then expired else accepted q) (sym late) ∙ h))
  | inr early ↦
      let same : q ≡ p =
        accepted_injective (ap (λ b. if b then expired else accepted q) (sym early) ∙ h) in
      (same, refl, ap (λ (x : Payload). is_expired now x.exp) (sym same) ∙ early)
]
  where
    refused : expired ≡ accepted p → ⊥
    refused e = cc

    accepted_injective : accepted q ≡ accepted p → q ≡ p
    accepted_injective e = cc

module _ (sign : Payload → String) (verify : Payload → String → Option Bool)
    (encode : Payload → String → String) (decode : String → Option (Payload × String)) where
  -- An invite that is accepted carries a signature that verifies for what is answered, and has not
  -- expired.
  pub verify_invite_sound :
      (now : ℕ) (invite : Option String) (p : Payload)
      → verify_invite sign verify encode decode now invite ≡ accepted p
      → (text : String) × (sig : String) × (invite ≡ some text)
        × (decode text ≡ some (p, sig))
        × (verify p sig ≡ some true)
        × (is_expired now p.exp ≡ false)
  unfolding verify_invite
  verify_invite_sound now none p h = absurd cc
  verify_invite_sound now (some text) p h = found h
    where
      Sound : Type 0
      Sound =
          (t : String) × (sig : String) × (some text ≡ some t)
          × (decode t ≡ some (p, sig))
          × (verify p sig ≡ some true)
          × (is_expired now p.exp ≡ false)

      judged :
          (q : Payload) (sig : String)
          → decode text ≡ some (q, sig)
          → judge now q (verify q sig) ≡ accepted p
          → Sound
      judged q sig read said =
          let (same, good, early) = judge_sound now q p (verify q sig) said in
          (
            text,
            sig,
            refl,
            read ∙ ap (λ (x : Payload). some (x, sig)) same,
            ap (λ (x : Payload). verify x sig) (sym same) ∙ good,
            early,
          )

      found : verify_invite sign verify encode decode now (some text) ≡ accepted p → Sound
      found = elim (Bool-cases (truthy (some text))) [
        | inr empty ↦ rw (verify_invite, empty) (λ said. absurd cc)
        | inl there ↦ elim (Option-cases (decode text)) [
          | inl broken ↦ rw (verify_invite, there, broken) (λ said. absurd cc)
          | inr ((q, sig), read) ↦ rw (verify_invite, there, read) (judged q sig read)
        ]
      ]
