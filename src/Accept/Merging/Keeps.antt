-- ===== src/Accept/Merging/Keeps.antt =====
-- What may follow the calls made so far, and the rules for the calls of Accept/Merging.
use helpmate_tablebase.Effects.Keeps.{Keeps, Keeps-pure, Keeps-raise, Keeps-if, Keeps-bind}
use helpmate_tablebase.Base.{
  ◌==◌, any, ℕ, ◌≡◌, refl, subst, Bool, true, false, not, ◌&&◌, Option, none, some, List, [], ◌∷◌,
  string_eq, pair_eq, nat_eq, option_eq, list_eq, bool_eq,
}
use helpmate_tablebase.Accept.Merging.{
  Command, pr_view, pr_checks, pr_watch, pr_merge, push_delete, ls_remote, delete_local, Process,
  Event, called, slept, View, Outside, process_failed, sleep, call, succeeded, run_checked,
  is_merged, reports_none,
}

abbrev command_number : Command → ℕ
command_number pr_view = 0
command_number pr_checks = 1
command_number pr_watch = 2
command_number pr_merge = 3
command_number push_delete = 4
command_number ls_remote = 5
command_number delete_local = 6

-- The last call made is `c`, and its result passes `test`.
unfoldable pub last_call : Command → (Process → Bool) → List Event → Bool
last_call c test [] = false
last_call c test (slept n ∷ log) = false
last_call c test (called d p ∷ log) = command_number c == command_number d && test p

abbrev view_merged : Option View → Bool
view_merged none = false
view_merged (some v) = is_merged v

-- A call whose result says that the pull request is merged.
abbrev pub tells_merged : Outside → Event → Bool
tells_merged w (slept n) = false
tells_merged w (called pr_view p) = succeeded p && view_merged (w.loads p.stdout)
tells_merged w (called pr_merge p) = succeeded p
tells_merged w (called _ p) = false

-- What may follow the calls made so far: only a pull request that has checks is watched, it is merged
-- only at once after a successful watch, and a branch is deleted only where it is merged.
abbrev pub allowed : Outside → Command → List Event → Bool
allowed w pr_watch log = last_call pr_checks (λ p. not (reports_none p)) log
allowed w pr_merge log = last_call pr_watch succeeded log
allowed w push_delete log = any (tells_merged w) log
allowed w delete_local log = any (tells_merged w) log
allowed w _ log = true

-- Each call was allowed when it was made.
unfoldable pub guarded : Outside → List Event → Bool
unfolding last_call
guarded w [] = true
guarded w (slept n ∷ log) = guarded w log
guarded w (called c p ∷ log) = let rest = guarded w log in allowed w c log && rest

-- Each call in the log was allowed.
abbrev pub Guarded : Outside → List Event → Type 0
Guarded w log = guarded w log ≡ true

module _ (w : Outside) {P : List Event → Type 0} where
  pub Keeps-sleep :
      (n : ℕ) {Q : Unit → List Event → Type 0}
      → ((log : List Event) → P log → Q tt (slept n ∷ log))
      → Keeps (Guarded w) P Q (sleep n)
  unfolding sleep guarded
  Keeps-sleep n k = record { at = λ log g p. (g, λ a e. k log p) }

  pub Keeps-call :
      (c : Command) {Q : Process → List Event → Type 0}
      → ((log : List Event) → P log → allowed w c log ≡ true)
      → ((p : Process) (log : List Event) → P log → Q p (called c p ∷ log))
      → Keeps (Guarded w) P Q (call w c)
  unfolding call guarded
  Keeps-call c {Q} ok k = record {
    at = λ log g p. (
      rw (ok log p, g) refl,
      λ a e.
          let q : w.run log c ≡ a = cc in
          subst (λ x. Q x (called c (w.run log c) ∷ log)) q (k (w.run log c) log p),
    );
  }

-- With no condition before, or none after.
abbrev pub Any : List Event → Type 0
Any log = Unit

-- The log shows that the pull request is merged.
abbrev pub Merged : Outside → List Event → Type 0
Merged w log = any (tells_merged w) log ≡ true

module _ (w : Outside) {P : List Event → Type 0} where
  pub Keeps-run_checked :
      (c : Command) {Q : Process → List Event → Type 0}
      → ((log : List Event) → P log → allowed w c log ≡ true)
      → ((p : Process) (log : List Event) → succeeded p ≡ true → P log → Q p (called c p ∷ log))
      → Keeps (Guarded w) P Q (run_checked w c)
  unfolding run_checked
  Keeps-run_checked c {Q} ok k =
      Keeps-bind {Q = λ p log. succeeded p ≡ true → Q p log} (call w c) _
        (Keeps-call w c ok (λ p log h e. k p log e h))
        (λ p.
          Keeps-if (succeeded p) _ _ (λ e. Keeps-pure p (λ log h. h e))
            (λ e. Keeps-raise (process_failed c)))
