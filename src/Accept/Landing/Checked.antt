-- ===== src/Accept/Landing/Checked.antt =====
-- What the Hub may be asked to do in the merge step, and the rules for the calls of Accept/Hub.
use helpmate_tablebase.Base.{
  is_empty, ◌==◌, In, all, contains, Dict, lookup, ℕ, String, ◌≡◌, refl, subst, inr, Bool, true,
  false, ◌&&◌, Option, none, some, List, [], ◌∷◌, string_eq, pair_eq, nat_eq, option_eq, list_eq,
  bool_eq,
}
use helpmate_tablebase.Effects.{pure, raise}
use helpmate_tablebase.Effects.Keeps.{Keeps}
use helpmate_tablebase.Accept.Hub.{
  Event, asked_head, tried_merge, tried_commit, closed, Copied, RunState, answer_or_fail, ask,
}
use helpmate_tablebase.Accept.Landing.{Job, planned}

-- The last head that was asked for is that of `n`, and it is the one that was verified.
unfoldable pub head_checked : Job → ℕ → List Event → Bool
head_checked job n [] = false
head_checked job n (asked_head k r ∷ log) =
    k == n && elim (lookup n job.pulls) [ none ↦ false | some pr ↦ r == some pr.head ]
head_checked job n (e ∷ log) = head_checked job n log

-- What the decisions hold back of `n`, and the files it has.
unfoldable pub held_of : Job → ℕ → List String
unfolding planned
held_of job n = elim (planned job n) [ none ↦ [] | some it ↦ it.plan.holds ]

abbrev pub files_in : Job → ℕ → List String
files_in job n = elim (lookup n job.pulls) [ none ↦ [] | some pr ↦ pr.files ]

-- Files land on main only after the head was found to be the verified one, and they are files of the
-- pull request; it is merged whole, or closed, only where nothing of it is held.
abbrev pub allowed : Job → Event → List Event → Bool
allowed job (tried_merge n) log = head_checked job n log && is_empty (held_of job n)
allowed job (tried_commit n files) log =
    head_checked job n log && all (contains (files_in job n)) files
allowed job (closed n) log = is_empty (held_of job n)
allowed job e log = true

-- Each call was allowed when it was made.
unfoldable pub guarded : Job → List Event → Bool
unfolding head_checked held_of
guarded job [] = true
guarded job (e ∷ log) = let rest = guarded job log in allowed job e log && rest

-- A copy that closes its pull request is one of a pull request with nothing held.
abbrev pub CopiesMatch : Job → Dict ℕ Copied → Type 0
CopiesMatch job copied =
    (n : ℕ) (c : Copied)
    → lookup n copied ≡ some c
    → c.closes ≡ true
    → is_empty (held_of job n) ≡ true

-- The state of a run in which those of `done` are merged.
pub record IsRight (job : Job) (done : List ℕ) (s : RunState) : Type 0 where
  pub calls : guarded job s.log ≡ true
  pub copies : CopiesMatch job s.copied
  pub kept : (n : ℕ) → In n done → In n s.merged

abbrev pub Any : RunState → Type 0
Any s = Unit

module _ (job : Job) (done : List ℕ) where
  answer_or_fail-IsRight :
      {A : Type 0} (Q : A → RunState → Type 0) (r : Option A) (s : RunState)
      → IsRight job done s
      → ((a : A) → r ≡ some a → Q a s)
      → IsRight job done (answer_or_fail r s).1
        × ((a : A) → (answer_or_fail r s).0 ≡ inr a → Q a (answer_or_fail r s).1)
  unfolding pure raise
  answer_or_fail-IsRight Q none s g k = (g, λ a e. absurd (cc))
  answer_or_fail-IsRight Q (some b) s g k =
      (g, λ a e. let q : b ≡ a = cc in subst (λ x. Q x s) q (k b refl))

  pub Keeps-ask :
      {A : Type 0} {P : RunState → Type 0} {Q : A → RunState → Type 0} (event : Option A → Event)
      (f : List Event → Option A)
      → ((s : RunState) → P s → allowed job (event (f s.log)) s.log ≡ true)
      → ((s : RunState) (a : A)
          → f s.log ≡ some a
          → P s
          → Q a (record s { log = event (f s.log) ∷ s.log }))
      → Keeps (IsRight job done) P Q (ask event f)
  unfolding ask guarded
  Keeps-ask {Q = Q} event f ok k = record {
    at = λ s g p.
        answer_or_fail-IsRight Q (f s.log) (record s { log = event (f s.log) ∷ s.log })
          (record { calls = rw (ok s p, g.calls) refl; copies = g.copies; kept = g.kept })
          (λ a e. k s a e p);
  }
