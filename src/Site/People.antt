-- ===== src/Site/People.antt =====
-- contrib/site_status.py, "contributors": who is listed, and what the list adds up to.
use helpmate_tablebase.Base.{
  is_empty, ◌==◌, eq_of_beq, Bool-cases, length, In, In-append, sorted_by, In-sorted_by, sum_of,
  sum_of-sorted_by, Dict, ℕ, ◌+◌, String, ◌≡◌, refl, ◌⊎◌, inl, inr, false, none, List, [], ◌∷◌,
  ◌++◌, arith, string_eq, pair_eq, nat_eq, option_eq, list_eq, bool_eq,
}
use helpmate_tablebase.Claims.{Contributor}
use helpmate_tablebase.Registry.{Registry}
use helpmate_tablebase.Site.{
  Person, made_by, nobody, add_person, gather, before_person, arrange, people_of,
}

-- The row of those who asked not to be named.
abbrev pub IsNameless : Person → Type 0
IsNameless p =
    (p.display ≡ "anonymous") × (p.hf_user ≡ none) × (p.github_user ≡ none) × (p.made ≡ [])

-- The row of a registered contributor.
abbrev pub IsRowOf : List String → Registry → Person → String → Contributor → Type 0
IsRowOf finished reg p key c =
    (c.anonymous ≡ false)
    × (p.display ≡ c.display)
    × (p.hf_user ≡ c.hf)
    × (p.github_user ≡ c.github)
    × (p.made ≡ made_by finished reg key)

sum_of-append :
    {A : Type 0} (f : A → ℕ) (xs ys : List A) → sum_of f (xs ++ ys) ≡ sum_of f xs + sum_of f ys
sum_of-append f [] ys = omega arith
sum_of-append f (x ∷ xs) ys = omega (arith, sum_of-append f xs ys)

abbrev tables_count : Person → ℕ
tables_count p = p.tables_made

-- The tables of the named and of the nameless.
abbrev total : List Person × Person → ℕ
total (people, hidden) = sum_of tables_count people + hidden.tables_made

total-add_person :
    (reg : Registry) (mats : List String) (c : Contributor) (acc : List Person × Person)
    → total (add_person reg mats c acc) ≡ total acc + length mats
unfolding add_person
total-add_person reg [] c (people, hidden) = omega arith
total-add_person reg (m ∷ ms) c (people, hidden) = elim (Bool-cases c.anonymous) [
  | inl t ↦ rw t (omega arith)
  | inr t ↦ rw t (omega (arith, sum_of-append tables_count people))
]

total-gather :
    (finished : List String) (reg : Registry) (cs : Dict String Contributor)
    → (acc : List Person × Person)
    → total (gather finished reg cs acc)
      ≡ total acc + sum_of (λ e. length (made_by finished reg e.0)) cs
unfolding gather
total-gather finished reg [] acc = omega arith
total-gather finished reg ((key, c) ∷ cs) acc = omega (
  arith,
  total-gather finished reg cs (add_person reg (made_by finished reg key) c acc),
  total-add_person reg (made_by finished reg key) c acc,
)

total-arrange : (acc : List Person × Person) → sum_of tables_count (arrange acc) ≡ total acc
unfolding arrange
total-arrange (people, hidden) = elim (Bool-cases (hidden.tables_made == 0)) [
  | inl t ↦ rw t (
      omega (
        arith,
        sum_of-append tables_count (sorted_by before_person people) [],
        sum_of-sorted_by tables_count before_person people,
        eq_of_beq hidden.tables_made 0 t,
      ))
  | inr t ↦ rw t (
      omega (
        arith,
        sum_of-append tables_count (sorted_by before_person people) (hidden ∷ []),
        sum_of-sorted_by tables_count before_person people,
      ))
]

-- The tables of all rows add up to those of all registered contributors, the anonymous included.
people_of_total :
    (finished : List String) (reg : Registry)
    → sum_of (λ p. p.tables_made) (people_of finished reg)
      ≡ sum_of (λ e. length (made_by finished reg e.0)) reg.contributors
unfolding people_of
people_of_total finished reg = omega (
  arith,
  total-arrange (gather finished reg reg.contributors ([], nobody)),
  total-gather finished reg reg.contributors ([], nobody),
)

Rows : List String → Registry → List Person × Person → Type 0
Rows finished reg (people, hidden) =
    IsNameless hidden
    × ((p : Person)
        → In p people
        → (key : String) × (c : Contributor) × In (key, c) reg.contributors
          × IsRowOf finished reg p key c)

add_person-Rows :
    (finished : List String) (reg : Registry) (key : String) (c : Contributor)
    → (acc : List Person × Person) → In (key, c) reg.contributors
    → Rows finished reg acc
    → Rows finished reg (add_person reg (made_by finished reg key) c acc)
unfolding add_person Rows
add_person-Rows finished reg key c (people, hidden) i v =
    elim (Bool-cases (is_empty (made_by finished reg key))) [
      | inl t ↦ rw t v
      | inr t ↦ elim (Bool-cases c.anonymous) [
        | inl a ↦ rw t (rw a v)
        | inr a ↦ rw t (
            rw a (
              v.0,
              λ p m. elim (In-append p people _ m) [
                | inl k ↦ v.1 p k
                | inr (inl e) ↦ (key, c, i, rw e (a, refl, refl, refl, refl))
                | inr (inr k) ↦ absurd k
              ],
            ))
      ]
    ]

gather-Rows :
    (finished : List String) (reg : Registry) (cs : Dict String Contributor)
    → (acc : List Person × Person) → ((e : String × Contributor) → In e cs → In e reg.contributors)
    → Rows finished reg acc
    → Rows finished reg (gather finished reg cs acc)
unfolding gather
gather-Rows finished reg [] acc sub v = v
gather-Rows finished reg ((key, c) ∷ cs) acc sub v =
    gather-Rows finished reg cs (add_person reg (made_by finished reg key) c acc)
      (λ e i. sub e (inr i)) (add_person-Rows finished reg key c acc (sub (key, c) (inl refl)) v)

arrange-Rows :
    (finished : List String) (reg : Registry) (acc : List Person × Person) (p : Person)
    → Rows finished reg acc
    → In p (arrange acc)
    → IsNameless p
      ⊎ ((key : String) × (c : Contributor) × In (key, c) reg.contributors
          × IsRowOf finished reg p key c)
unfolding arrange Rows
arrange-Rows finished reg (people, hidden) p v i =
    elim (In-append p (sorted_by before_person people) _ i) [
      | inl k ↦ inr (v.1 p ((In-sorted_by before_person p people).0 k))
      | inr k ↦ elim (Bool-cases (hidden.tables_made == 0)) [
        | inl t ↦ absurd (rw t at k)
        | inr t ↦ elim (rw t at k) [ inl e ↦ inl (rw e v.0) | inr n ↦ absurd n ]
      ]
    ]

-- Every row is the nameless one, or that of a registered contributor who is not anonymous, with
-- that contributor's names and the materials that they made.
people_of_named :
    (finished : List String) (reg : Registry) (p : Person)
    → In p (people_of finished reg)
    → IsNameless p
      ⊎ ((key : String) × (c : Contributor) × In (key, c) reg.contributors
          × IsRowOf finished reg p key c)
unfolding people_of Rows
people_of_named finished reg p i =
    arrange-Rows finished reg (gather finished reg reg.contributors ([], nobody)) p
      (gather-Rows finished reg reg.contributors ([], nobody) (λ e k. k)
        ((refl, refl, refl, refl), λ q n. absurd n))
      i
