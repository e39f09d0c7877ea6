-- ===== src/Tests/Picking.antt =====
-- A choice of problems, and instances of the theorems on it.
use helpmate_tablebase.Base.{
  length, In, any, ◌≤◌, ◌<◌, max, String, ◌≡◌, refl, sym, subst, ◌⊎◌, inl, inr, true, none, List,
  [], ◌∷◌, arith, string_eq, pair_eq, nat_eq, option_eq, list_eq, bool_eq,
}
use helpmate_tablebase.Picker.{Candidate, san_distance, same_idea, distance, Note, only_ideas, pick}
use helpmate_tablebase.Picker.Choice.{NoTwins, pick_choice, pick_complete}

abbrev candidate : String → List String → Candidate
candidate fen solution = record { fen = fen; solutions = solution ∷ []; other_fields = "" }

-- Three positions; in the first two White plays the same moves, and one man stands elsewhere.
abbrev king_walk : Candidate
king_walk = candidate "7k/8/8/8/8/8/8/K1Q5 b - - 0 1" ("Kg8" ∷ "Kb2" ∷ "Kf8" ∷ "Qg5" ∷ [])

abbrev king_walk_again : Candidate
king_walk_again = candidate "6k1/8/8/8/8/8/8/K1Q5 b - - 0 1" ("Kf8" ∷ "Kb2" ∷ "Ke8" ∷ "Qg5" ∷ [])

abbrev other_idea : Candidate
other_idea = candidate "k7/8/8/8/8/8/8/1K1Q4 b - - 0 1" ("Ka7" ∷ "Qd5" ∷ "Ka6" ∷ "Qb5" ∷ [])

abbrev candidates : List Candidate
candidates = king_walk ∷ king_walk_again ∷ other_idea ∷ []

abbrev chosen : List Candidate
chosen = king_walk ∷ other_idea ∷ []

pick_run : pick candidates 3 none ≡ (chosen, only_ideas 2 ∷ [])
unfolding pick distance
pick_run = refl

distance_run : san_distance ("a" ∷ "b" ∷ []) ("b" ∷ "c" ∷ []) ≡ record { num = 2; den = 2 }
unfolding san_distance
distance_run = refl

pick_choice_example :
    In other_idea candidates
    × NoTwins (pick candidates 3 none).0
    × (length (pick candidates 3 none).0 ≤ max 1 3)
pick_choice_example =
    pick_choice candidates 3 none other_idea (
      subst (λ (l : List Candidate × List Note). In other_idea l.0) (sym pick_run) (inr (inl refl)))

pick_complete_example :
    In king_walk_again (pick candidates 3 none).0
    ⊎ (any (same_idea king_walk_again) (pick candidates 3 none).0 ≡ true)
pick_complete_example =
    pick_complete candidates 3 none king_walk_again
      (subst (λ (l : List Candidate × List Note). length l.0 < 3) (sym pick_run) (omega arith))
      (inr (inl refl))
