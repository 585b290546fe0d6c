-- ===== src/Generator/Complete.antt =====
-- Every variable that a printed text names is set at that time.
pub mod Server
pub mod Plugin
use Prim.Native.String.{String}
use nginx_rpc.Common.{
  ℕ, zero, suc, ◌≡◌, refl, sym, ap, ◌∙◌, subst, Bool, true, false, ◌&&◌, Option, none, some, List,
  [], ◌∷◌, ◌++◌, ◌==◌, Bool-cases, All, All-append, inl, inr, if◌then◌else◌,
}
use nginx_rpc.Generator.{Service, Method, of_service, of_method, File, of_file}
use nginx_rpc.Generator.Names.{Text, codes, same, lower}
use nginx_rpc.Generator.Names.Paths.{same_refl, same_sound, and-split}
use nginx_rpc.Generator.Printing.{
  Vars, lookup, set, Call, blanks, format, Session, assign, print, for_each,
}
use nginx_rpc.Generator.Templates.{
  proto_name, proto_name_upper, proto_package, proto_namespace, proto_namepath, proto_server_name,
  proto_server_name_lower, proto_server_method_name, proto_server_method_request_name,
  proto_server_method_response_name,
}

-- The names that stand between delimiters in a text, or none if the last one does not end; the
-- second argument is the part of a name that was read.
abbrev pub scan : (delimiter : ℕ) → Option Text → Text → Option (List Text)
scan d none [] = some []
scan d (some name) [] = none
scan d none (c ∷ cs) = elim (c == d) [ true ↦ scan d (some []) cs | false ↦ scan d none cs ]
scan d (some name) (c ∷ cs) = elim (c == d) [
  | true ↦ elim (scan d none cs) [ some names ↦ some (name ∷ names) | none ↦ none ]
  | false ↦ scan d (some (name ++ c ∷ [])) cs
]

abbrev pub HasValue : Vars → Text → Type 0
HasValue vars k = (v : Text) × (lookup k vars ≡ some v)

-- The text of a call is well formed, and each variable that it names has a value.
pub record IsComplete (delimiter : ℕ) (c : Call) : Type 0 where
  pub names : List Text
  pub scanned : scan delimiter none c.text ≡ some names
  pub all_set : All (HasValue c.vars) names

-- The test that a template names only variables of `keys`.
abbrev member : Text → List Text → Bool
member k [] = false
member k (j ∷ js) = elim (same k j) [ true ↦ true | false ↦ member k js ]

abbrev all_members : List Text → List Text → Bool
all_members keys [] = true
all_members keys (k ∷ ks) = member k keys && all_members keys ks

abbrev known : List Text → Option (List Text) → Bool
known keys none = false
known keys (some names) = all_members keys names

abbrev pub covers : (delimiter : ℕ) (keys : List Text) → List String → Bool
covers d keys [] = true
covers d keys (s ∷ template) = known keys (scan d none (codes s)) && covers d keys template

member-HasValue :
    (vars : Vars) (k : Text) (keys : List Text)
    → member k keys ≡ true
    → All (HasValue vars) keys
    → HasValue vars k
member-HasValue vars k [] e are = absurd (cc e)
member-HasValue vars k (j ∷ js) e are = elim (Bool-cases (same k j)) [
  | inl h ↦ subst (HasValue vars) (sym (same_sound k j h)) are.0
  | inr h ↦ member-HasValue vars k js (rw (member, h) at e) are.1
]

all_members-HasValue :
    (vars : Vars) (keys ks : List Text)
    → all_members keys ks ≡ true
    → All (HasValue vars) keys
    → All (HasValue vars) ks
all_members-HasValue vars keys [] e are = tt
all_members-HasValue vars keys (k ∷ ks) e are =
    let (first, rest) = and-split (member k keys) (all_members keys ks) e in
    (member-HasValue vars k keys first are, all_members-HasValue vars keys ks rest are)

known-IsComplete :
    (d : ℕ) (vars : Vars) (text : Text) (keys : List Text) (o : Option (List Text))
    → scan d none text ≡ o
    → known keys o ≡ true
    → All (HasValue vars) keys
    → IsComplete d (record { vars = vars; text = text })
known-IsComplete d vars text keys none scanned e are = absurd (cc e)
known-IsComplete d vars text keys (some names) scanned e are = record {
  names = names;
  scanned = scanned;
  all_set = all_members-HasValue vars keys names e are;
}

-- A session whose calls are complete, with these variables set.
pub record Good (d : ℕ) (keys : List Text) (s : Session) : Type 0 where
  pub set_keys : All (HasValue s.vars) keys
  pub complete : All (IsComplete d) s.calls

HasValue-set : (k v : Text) (vars : Vars) (j : Text) → HasValue vars j → HasValue (set k v vars) j
unfolding lookup
HasValue-set k v vars j is = elim (Bool-cases (same j k)) [
  | inl h ↦ (v, rw h refl)
  | inr h ↦ (is.0, rw h is.1)
]

All-HasValue :
    (k v : Text) (vars : Vars) (keys : List Text)
    → All (HasValue vars) keys
    → All (HasValue (set k v vars)) keys
All-HasValue k v vars [] is = tt
All-HasValue k v vars (j ∷ js) is = (HasValue-set k v vars j is.0, All-HasValue k v vars js is.1)

pub assign-Good :
    {d : ℕ} {keys : List Text} (k v : Text) (s : Session)
    → Good d keys s
    → Good d (k ∷ keys) (assign k v s)
unfolding assign lookup
assign-Good {d} {keys} k v s g = record {
  set_keys = ((v, rw (same_refl k) refl), All-HasValue k v s.vars keys g.set_keys);
  complete = g.complete;
}

-- One variable fewer.
pub Good-forget :
    {d : ℕ} {k : Text} {keys : List Text} {s : Session} → Good d (k ∷ keys) s → Good d keys s
Good-forget g = record { set_keys = g.set_keys.1; complete = g.complete }

module _ (d : ℕ) (newline : scan d none (codes "\n") ≡ some []) where
  blanks-IsComplete : (vars : Vars) (lt : ℕ) → All (IsComplete d) (blanks vars lt)
  unfolding blanks
  blanks-IsComplete vars zero = tt
  blanks-IsComplete vars (suc lt) =
      (record { names = []; scanned = newline; all_set = tt }, blanks-IsComplete vars lt)

  format-IsComplete :
      (vars : Vars) (keys : List Text) (template : List String) (lt : ℕ)
      → covers d keys template ≡ true
      → All (HasValue vars) keys
      → All (IsComplete d) (format vars template lt)
  unfolding format
  format-IsComplete vars keys [] lt e are = blanks-IsComplete vars lt
  format-IsComplete vars keys (s ∷ template) lt e are =
      let (first, rest) =
        and-split (known keys (scan d none (codes s))) (covers d keys template) e in
      (
        known-IsComplete d vars (codes s) keys (scan d none (codes s)) refl first are,
        (
          record { names = []; scanned = newline; all_set = tt },
          format-IsComplete vars keys template lt rest are,
        ),
      )

  pub print-Good :
      {keys : List Text} (template : List String) (lt : ℕ) (s : Session)
      → covers d keys template ≡ true
      → Good d keys s
      → Good d keys (print template lt s)
  unfolding print
  print-Good {keys} template lt s e g = record {
    set_keys = g.set_keys;
    complete =
        All-append (IsComplete d) s.calls (format s.vars template lt) g.complete
          (format-IsComplete s.vars keys template lt e g.set_keys);
  }

pub for_each-Good {ℓ} :
    {A : Type ℓ} {d : ℕ} {keys : List Text} (xs : List A) (body : A → Session → Session)
    (s : Session)
    → ((a : A) (s2 : Session) → Good d keys s2 → Good d keys (body a s2))
    → Good d keys s
    → Good d keys (for_each xs body s)
unfolding for_each
for_each-Good [] body s step g = g
for_each-Good (a ∷ rest) body s step g = for_each-Good rest body (body a s) step (step a s g)
