-- ===== src/Verify/Hygiene/Stems.antt =====
-- The stems of file names, and lists of problems that are empty.
use Prim.Native.Char.{Char}
use mathlib.Core.Option
use text.Mathlib.TextLemmas.{nil-append, cons-append}
use helpmate_tablebase.Base.{
  flat_map, ◌==◌, string_eq, Bool-cases, Option-cases, In, filter, contains, contains→In, String,
  ◌<>◌, ◌≡◌, refl, sym, ap, ◌∙◌, subst, ◌↔◌, ◌⊎◌, inl, inr, Bool, false, Option, none, some, List,
  [], ◌∷◌, ◌++◌, map, pair_eq, nat_eq, option_eq, list_eq, bool_eq,
}
use helpmate_tablebase.Claims.{strip_suffix, stems, to_set}

pub strip_suffix_cases :
    (c : Char) (o : Option String) (m : String)
    → Option.map (String.◌∷◌ c) o ≡ some m
    → (r : String) × (o ≡ some r) × (m ≡ String.◌∷◌ c r)
strip_suffix_cases c none m h = absurd (cc)
strip_suffix_cases c (some r) m h = (r, refl, cc)

pub empty_of : (m : String) → some "" ≡ some m → m ≡ ""
empty_of m h = cc

pub strip_suffix_lem : (suffix s m : String) → strip_suffix suffix s ≡ some m → s ≡ m <> suffix
unfolding strip_suffix
strip_suffix_lem suffix String.[] m h = elim (Bool-cases (suffix == "")) [
  | inl e ↦
      let same = (string_eq.equal_iff suffix "").0 e in
      let end = empty_of m (rw (e, strip_suffix) at h) in rw (same, end) (sym (nil-append _))
  | inr e ↦ absurd (cc (rw (e, strip_suffix) at h))
]
strip_suffix_lem suffix (String.◌∷◌ c s) m h = elim (Bool-cases (suffix == String.◌∷◌ c s)) [
  | inl e ↦
      let same = (string_eq.equal_iff suffix (String.◌∷◌ c s)).0 e in
      let end = empty_of m (rw (e, strip_suffix) at h) in rw (same, end) (sym (nil-append _))
  | inr e ↦
      let (r, f, g) = strip_suffix_cases c (strip_suffix suffix s) m (rw (e, strip_suffix) at h) in
      let rest = strip_suffix_lem suffix s r f in
      rw g (ap (String.◌∷◌ c) rest ∙ sym (cons-append c r suffix))
]

pub nil_of_append : {A : Type 0} (xs ys : List A) → xs ++ ys ≡ [] → (xs ≡ []) × (ys ≡ [])
nil_of_append [] ys h = (refl, h)
nil_of_append (x ∷ xs) ys h = absurd (cc)

pub none_of_nil :
    {A B : Type 0} (f : A → B) (p : A → Bool) (xs : List A) (a : A)
    → map f (filter p xs) ≡ []
    → In a xs
    → p a ≡ false
none_of_nil f p [] a h i = elim i [ ]
none_of_nil f p (x ∷ xs) a h (inl e) = elim (Bool-cases (p x)) [
  | inl t ↦ absurd (cc (rw t at h))
  | inr t ↦ rw e t
]
none_of_nil f p (x ∷ xs) a h (inr i) = elim (Bool-cases (p x)) [
  | inl t ↦ absurd (cc (rw t at h))
  | inr t ↦ none_of_nil f p xs a (rw t at h) i
]

pub nil_of_flat_map :
    {A B : Type 0} (f : A → List B) (xs : List A) (a : A) → flat_map f xs ≡ [] → In a xs → f a ≡ []
nil_of_flat_map f [] a h i = elim i [ ]
nil_of_flat_map f (x ∷ xs) a h (inl e) = rw e ((nil_of_append (f x) (flat_map f xs) h).0)
nil_of_flat_map f (x ∷ xs) a h (inr i) =
    nil_of_flat_map f xs a (nil_of_append (f x) (flat_map f xs) h).1 i

pub nil_of_map : {A B : Type 0} (f : A → B) (xs : List A) → map f xs ≡ [] → xs ≡ []
nil_of_map f [] h = refl
nil_of_map f (x ∷ xs) h = absurd (cc)

pub stem_cases :
    (r : String) (rest : List String) (m : String) → In m (r ∷ rest) → (m ≡ r) ⊎ In m rest
stem_cases r rest m h = h

-- The stems of a suffix are those of the files that end in it.
pub In-stems :
    (suffix : String) (fs : List String) (m : String) → In m (stems suffix fs) → In (m <> suffix) fs
unfolding stems
In-stems suffix [] m i = elim i [ ]
In-stems suffix (f ∷ fs) m i = elim (Option-cases (strip_suffix suffix f)) [
  | inl e ↦ inr (In-stems suffix fs m (rw (e, stems) at i))
  | inr (r, e) ↦ elim (stem_cases r (stems suffix fs) m (rw (e, stems) at i)) [
    | inl q ↦ inl (sym (rw q (strip_suffix_lem suffix f r e)))
    | inr j ↦ inr (In-stems suffix fs m j)
  ]
]

pub In-stems_of :
    (suffix : String) (fs : List String) (f m : String)
    → In f fs
    → strip_suffix suffix f ≡ some m
    → In m (stems suffix fs)
unfolding stems
In-stems_of suffix [] f m i e = elim i [ ]
In-stems_of suffix (g ∷ fs) f m (inl q) e =
    let here : strip_suffix suffix g ≡ some m = subst (λ x. strip_suffix suffix x ≡ some m) q e in
    rw (here, In) (inl refl)
In-stems_of suffix (g ∷ fs) f m (inr i) e =
    let rest = In-stems_of suffix fs f m i e in
    elim (Option-cases (strip_suffix suffix g)) [
      | inl z ↦ rw (z, In) rest
      | inr (r, z) ↦ rw (z, In) (inr rest)
    ]

pub In-to_set : (xs : List String) (m : String) → In m (to_set xs) ↔ In m xs
unfolding to_set
In-to_set [] m = ((λ h. h), (λ h. h))
In-to_set (x ∷ xs) m =
    let (to, from) = In-to_set xs m in
    elim (Bool-cases (contains (to_set xs) x)) [
      | inl c ↦
          let here = contains→In (to_set xs) x c in
          rw c (
            (λ h. inr (to h)),
            (λ h. elim h [ inl e ↦ subst (λ y. In y (to_set xs)) (sym e) here | inr i ↦ from i ]),
          )
      | inr c ↦ rw c (
        (λ h. elim h [ inl e ↦ inl e | inr i ↦ inr (to i) ]),
        (λ h. elim h [ inl e ↦ inl e | inr i ↦ inr (from i) ]),
      )
    ]
