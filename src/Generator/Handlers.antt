-- ===== src/Generator/Handlers.antt =====
-- The handlers that the generated module defines, and those that it registers.
pub mod Lines
pub mod Registered
use Prim.Native.String.{String}
use nginx_rpc.Common.{
  ℕ, zero, suc, ◌≡◌, refl, sym, ap, ◌∙◌, Bool, true, false, Option, none, some, List, [], ◌∷◌, ◌++◌,
  append-nil, append_assoc, Bool-cases, inl, inr,
}
use nginx_rpc.Generator.Names.{Text, codes}
use nginx_rpc.Generator.Printing.{Vars, lookup, Call, blanks, format, Session, print, for_each}
use nginx_rpc.Generator.Templates.{proto_server_name_lower, proto_server_method_name}

-- The service and the method that the variables name.
abbrev pub Entry : Type 0
Entry = Option Text × Option Text

abbrev pub entry : Vars → Entry
entry vars = (lookup proto_server_name_lower vars, lookup proto_server_method_name vars)

-- A line that was printed, with what its variables name.
abbrev pub Line : Type 0
Line = Text × Entry

-- The lines to keep among those that the calls print.
abbrev pub entries : (keep : Text → Bool) → List Call → List Line
entries keep [] = []
entries keep (c ∷ cs) = elim (keep c.text) [
  | true ↦ (c.text, entry c.vars) ∷ entries keep cs
  | false ↦ entries keep cs
]

abbrev pub picked : (keep : Text → Bool) → Session → List Line
picked keep s = entries keep s.calls

-- The lines to keep in a template, each with an entry.
abbrev pub repeated : (keep : Text → Bool) → List String → Entry → List Line
repeated keep [] e = []
repeated keep (s ∷ template) e = elim (keep (codes s)) [
  | true ↦ (codes s, e) ∷ repeated keep template e
  | false ↦ repeated keep template e
]

-- None of the lines stands in the template.
abbrev pub Silent : (Text → Bool) → List String → Type 0
Silent keep template = (e : Entry) → repeated keep template e ≡ []

-- The lists that a function gives for the elements, one behind the other.
abbrev pub flat_map {ℓ κ} : {A : Type ℓ} {B : Type κ} → (A → List B) → List A → List B
flat_map f [] = []
flat_map f (a ∷ rest) = f a ++ flat_map f rest

entries-append :
    (keep : Text → Bool) (xs ys : List Call)
    → entries keep (xs ++ ys) ≡ entries keep xs ++ entries keep ys
entries-append keep [] ys = refl
entries-append keep (c ∷ cs) ys = elim (Bool-cases (keep c.text)) [
  | inl e ↦ rw (entries, e, entries-append keep cs ys) refl
  | inr e ↦ rw (entries, e, entries-append keep cs ys) refl
]

module _ (keep : Text → Bool) (newline : keep (codes "\n") ≡ false) where
  entries-blanks : (vars : Vars) (lt : ℕ) → entries keep (blanks vars lt) ≡ []
  unfolding blanks
  entries-blanks vars zero = refl
  entries-blanks vars (suc lt) = rw (newline) (entries-blanks vars lt)

  entries-format :
      (vars : Vars) (template : List String) (lt : ℕ)
      → entries keep (format vars template lt) ≡ repeated keep template (entry vars)
  unfolding format
  entries-format vars [] lt = entries-blanks vars lt
  entries-format vars (s ∷ template) lt = elim (Bool-cases (keep (codes s))) [
    | inl e ↦ rw (entries, repeated, e, newline, entries-format vars template lt) refl
    | inr e ↦ rw (entries, repeated, e, newline, entries-format vars template lt) refl
  ]

  -- What a text adds when it is printed.
  pub print-picked :
      (template : List String) (lt : ℕ) (s : Session)
      → picked keep (print template lt s) ≡ picked keep s ++ repeated keep template (entry s.vars)
  unfolding print
  print-picked template lt s =
      entries-append keep s.calls (format s.vars template lt)
      ∙ ap (λ es. entries keep s.calls ++ es) (entries-format s.vars template lt)

  -- A text without the lines.
  pub print-Silent :
      (template : List String) (lt : ℕ) (s : Session)
      → Silent keep template
      → picked keep (print template lt s) ≡ picked keep s
  print-Silent template lt s none_there =
      print-picked template lt s
      ∙ ap (λ es. picked keep s ++ es) (none_there (entry s.vars))
      ∙ append-nil (picked keep s)

  pub for_each-Silent {ℓ} :
      {A : Type ℓ} (xs : List A) (body : A → Session → Session) (s : Session)
      → ((a : A) (s2 : Session) → picked keep (body a s2) ≡ picked keep s2)
      → picked keep (for_each xs body s) ≡ picked keep s
  unfolding for_each
  for_each-Silent [] body s quiet = refl
  for_each-Silent (a ∷ rest) body s quiet = for_each-Silent rest body (body a s) quiet ∙ quiet a s

-- A loop whose body adds entries and keeps what they rest on.
pub for_each-picked {ℓ κ} :
    (keep : Text → Bool) {A : Type ℓ} (P : Session → Type κ) (f : A → List Line) (xs : List A)
    (body : A → Session → Session) (s : Session)
    → ((a : A) (s2 : Session)
        → P s2
        → (picked keep (body a s2) ≡ picked keep s2 ++ f a) × P (body a s2))
    → P s
    → (picked keep (for_each xs body s) ≡ picked keep s ++ flat_map f xs) × P (for_each xs body s)
unfolding for_each
for_each-picked keep P f [] body s step p = (sym (append-nil (picked keep s)), p)
for_each-picked keep P f (a ∷ rest) body s step p =
    let (e, p2) = step a s p in
    let (e2, p3) = for_each-picked keep P f rest body (body a s) step p2 in
    (
      e2
          ∙ ap (λ es. es ++ flat_map f rest) e
          ∙ append_assoc (picked keep s) (f a) (flat_map f rest),
      p3,
    )
