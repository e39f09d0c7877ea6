-- ===== src/Verify/Labels/Forecast.antt =====
-- The label of a material beside the decision of accept on it.
use helpmate_tablebase.Base.{
  same_login_comm, ◌==◌, Bool-cases, get_or_else, if◌then◌else◌, In, contains, Dict, lookup, has,
  lower, same_login, ℕ, String, ◌<>◌, ◌≡◌, refl, ap, ◌∙◌, subst, ◌⊎◌, inl, inr, true, false, Option,
  none, some, [], ◌∷◌, arith, string_eq, pair_eq, nat_eq, option_eq, list_eq, bool_eq,
}
use helpmate_tablebase.Claims.{Claim}
use helpmate_tablebase.Accept.{
  Kind, new, reproduction, held, conflict, Decision, Inputs, Outcome, ok, missing_published,
  by_holder, claim_of, agree, decide_one,
}
use helpmate_tablebase.Accept.Sound.{MayPublish, Disagree, Guarantees, Promise, decide_one_sound}
use helpmate_tablebase.Verify.Labels.{
  Label, duplicate_of_published, fresh, duplicate_of_pr, held_for_issue, is_others, issue_of,
  label_of,
}

-- What accept decides on a material that one PR, `n`, delivers in the run.
abbrev pub Forecast : ℕ → Label → Outcome Decision → Type 0
Forecast n label (missing_published m) = label ≡ duplicate_of_published
Forecast n duplicate_of_published (ok d) = (d.kind ≡ reproduction) ⊎ (d.kind ≡ conflict)
Forecast n (duplicate_of_pr k) (ok d) = ⊥
Forecast n (held_for_issue k) (ok d) = (d.kind ≡ held) × (d.held_for ≡ some k)
Forecast n fresh (ok d) = (d.kind ≡ new) × (d.publish_from ≡ some n)

-- The author of a claim has a login.
abbrev pub Named : Option Claim → Type 0
Named none = Unit
Named (some c) = (c.author == "") ≡ false

module _ (inputs : Inputs) (m : String) (n : ℕ) where
  open inputs use {published, logins, release}

  only : {k : ℕ} → In k (n ∷ []) → k ≡ n
  only (inl e) = e
  only (inr e) = elim e [ ]

  one_agrees : Disagree inputs m (n ∷ []) false → ⊥
  unfolding agree
  one_agrees (inl (l, _)) = absurd (ground (arith, l))
  one_agrees (inr a) = cc

  published_kind :
      (d : Decision) (k : Kind)
      → d.kind ≡ k
      → has (m <> ".hm") published ≡ true
      → Guarantees inputs m (n ∷ []) k d
      → (d.kind ≡ reproduction) ⊎ (d.kind ≡ conflict)
  published_kind d new e h g = absurd (cc)
  published_kind d reproduction e h g = inl e
  published_kind d held e h g = absurd (cc)
  published_kind d conflict e h g = inr e

  not_Disagree :
      has (m <> ".hm") published ≡ false
      → Disagree inputs m (n ∷ []) (has (m <> ".hm") published)
      → ⊥
  unfolding agree
  not_Disagree h dis = one_agrees (subst (λ b. Disagree inputs m (n ∷ []) b) h dis)

  not_MayPublish :
      (c : Claim) (k : ℕ)
      → contains release m ≡ false
      → same_login (get_or_else (logins n) "") c.author ≡ false
      → k ≡ n
      → MayPublish inputs m (some c) k
      → ⊥
  not_MayPublish c k r s e (inl x) = cc
  not_MayPublish c k r s e (inr x) =
      let y = subst (λ j. same_login (get_or_else (logins j) "") c.author ≡ true) e x in cc

  holder_alone :
      (c : Claim) (o : Option String)
      → logins n ≡ o
      → is_others (some c) o ≡ false
      → (c.author == "") ≡ false
      → by_holder inputs m (some c) (n ∷ []) ≡ n ∷ []
  unfolding by_holder
  holder_alone c none e i a = absurd (cc)
  holder_alone c (some l) e i a =
      let same = same_login_comm c.author l in
      let here : same_login (get_or_else (logins n) "") c.author ≡ true =
        rw e (ground (arith, i, same)) in
      rw (a, here) refl

  held_kind :
      (d : Decision) (k : Kind) (c : Claim)
      → d.kind ≡ k
      → has (m <> ".hm") published ≡ false
      → claim_of inputs m ≡ some c
      → contains release m ≡ false
      → same_login (get_or_else (logins n) "") c.author ≡ false
      → Guarantees inputs m (n ∷ []) k d
      → (d.kind ≡ held) × (d.held_for ≡ some c.issue)
  unfolding agree
  held_kind d new c e h cl r s (a, (k, p, i, may), _, _, _) =
      absurd (not_MayPublish c k r s (only i) (subst (λ x. MayPublish inputs m x k) cl may))
  held_kind d reproduction c e h cl r s g = absurd (cc)
  held_kind d held c e h cl r s (a, b, p, q, (c2, cl2, f, t)) =
      let same : c2 ≡ c = cc in (e, f ∙ ap (λ x. some x.issue) same)
  held_kind d conflict c e h cl r s (a, b, dis) = absurd (not_Disagree h dis)

  fresh_kind :
      (d : Decision) (k : Kind)
      → d.kind ≡ k
      → has (m <> ".hm") published ≡ false
      → Named (claim_of inputs m)
      → is_others (claim_of inputs m) (logins n) ≡ false
      → Guarantees inputs m (n ∷ []) k d
      → (d.kind ≡ new) × (d.publish_from ≡ some n)
  unfolding agree
  fresh_kind d new e h nm o (a, (k, p, i, _), _, _, _) = (e, p ∙ ap some (only i))
  fresh_kind d reproduction e h nm o g = absurd (cc)
  fresh_kind d held e h nm o (a, b, p, q, (c, cl, f, t)) =
      let own = subst (λ x. is_others x (logins n) ≡ false) cl o in
      let alone = holder_alone c (logins n) refl own (subst Named cl nm) in absurd (cc)
  fresh_kind d conflict e h nm o (a, b, dis) = absurd (not_Disagree h dis)

  nameless : (a : String) → (a == "") ≡ false → same_login "" a ≡ false
  unfolding lower
  nameless String.[] h = absurd (cc)
  nameless (String.◌∷◌ c a) h = refl

  others_differ :
      (c : Claim) (o : Option String)
      → is_others (some c) o ≡ true
      → (c.author == "") ≡ false
      → same_login (get_or_else o "") c.author ≡ false
  others_differ c none i a = nameless c.author a
  others_differ c (some l) i a = ground (arith, i, same_login_comm c.author l)

  Forecast-published :
      (o : Outcome Decision)
      → has (m <> ".hm") published ≡ true
      → Promise inputs m (n ∷ []) o
      → Forecast n duplicate_of_published o
  Forecast-published (ok d) h g = published_kind d d.kind refl h g
  Forecast-published (missing_published name) h g = refl

  Forecast-held :
      (o : Outcome Decision) (c : Claim)
      → has (m <> ".hm") published ≡ false
      → claim_of inputs m ≡ some c
      → contains release m ≡ false
      → same_login (get_or_else (logins n) "") c.author ≡ false
      → Promise inputs m (n ∷ []) o
      → Forecast n (held_for_issue c.issue) o
  Forecast-held (ok d) c h cl r s g = held_kind d d.kind c refl h cl r s g
  Forecast-held (missing_published name) c h cl r s (_, q, _) = absurd (cc)

  Forecast-fresh :
      (o : Outcome Decision)
      → has (m <> ".hm") published ≡ false
      → Named (claim_of inputs m)
      → is_others (claim_of inputs m) (logins n) ≡ false
      → Promise inputs m (n ∷ []) o
      → Forecast n fresh o
  Forecast-fresh (ok d) h nm i g = fresh_kind d d.kind refl h nm i g
  Forecast-fresh (missing_published name) h nm i (_, q, _) = absurd (cc)

  -- The label's last test, on the claim.
  Forecast-claim :
      (claim : Option Claim) (o : Outcome Decision)
      → claim_of inputs m ≡ claim
      → has (m <> ".hm") published ≡ false
      → Named claim
      → contains release m ≡ false
      → Promise inputs m (n ∷ []) o
      → Forecast n (if is_others claim (logins n) then held_for_issue (issue_of claim) else fresh) o
  Forecast-claim none o cl h nm r p = Forecast-fresh o h (rw cl tt) (rw cl refl) p
  Forecast-claim (some c) o cl h nm r p = elim (Bool-cases (is_others (some c) (logins n))) [
    | inl i ↦ rw i (Forecast-held o c h cl r (others_differ c (logins n) i nm) p)
    | inr i ↦ rw i (Forecast-fresh o h (rw cl nm) (rw cl i) p)
  ]

  -- If verification labels a material that this PR alone delivers, for the login, the claims and
  -- the manifest that accept has, the material's claim, if there is one, has an author and is not
  -- released by the maintainer, then accept's decision is as labelled: a duplicate of a published
  -- table is a reproduction or a conflict, or its published file is missing; a material that is
  -- held for a claim is held for that claim; and one labelled new is new and published from this
  -- PR.
  pub label_of-Forecast :
      (earlier : Dict String ℕ)
      → lookup m earlier ≡ none
      → Named (claim_of inputs m)
      → contains release m ≡ false
      → Forecast n
          (label_of published inputs.index earlier (logins n) m)
          (decide_one inputs m (n ∷ []))
  unfolding label_of claim_of
  label_of-Forecast earlier alone named kept =
      let p = decide_one_sound inputs m n [] in
      let o = decide_one inputs m (n ∷ []) in
      elim (Bool-cases (has (m <> ".hm") published)) [
        | inl h ↦ rw (label_of, h) (Forecast-published o h p)
        | inr h ↦ rw (label_of, h, alone) (Forecast-claim (claim_of inputs m) o refl h named kept p)
      ]
