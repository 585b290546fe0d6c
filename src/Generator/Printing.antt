-- ===== src/Generator/Printing.antt =====
-- Printing with variables, as the generator does it: what protobuf's Printer is given, call by call.
use Prim.Native.String.{String}
use nginx_rpc.Common.{ℕ, zero, suc, List, [], ◌∷◌, ◌++◌, Option, none, some, if◌then◌else◌}
use nginx_rpc.Generator.Names.{Text, codes, same}

-- `std::map<std::string, std::string>`, and `vars[k] = v`.
abbrev pub Vars : Type 0
Vars = List (Text × Text)

unfoldable pub lookup : Text → Vars → Option Text
lookup k [] = none
lookup k ((j, v) ∷ m) = if same k j then some v else lookup k m

abbrev pub set : Text → Text → Vars → Vars
set k v m = (k, v) ∷ m

-- A call of Print: the variables that it is given, and the text.
pub record Call : Type 0 where
  pub vars : Vars
  pub text : Text

-- `lt` empty lines.
unfoldable pub blanks : Vars → (lt : ℕ) → List Call
blanks vars zero = []
blanks vars (suc lt) = record { vars = vars; text = codes "\n" } ∷ blanks vars lt

-- Format
unfoldable pub format : Vars → (start : List String) (lt : ℕ) → List Call
unfolding blanks
format vars [] lt = blanks vars lt
format vars (s ∷ start) lt =
    record { vars = vars; text = codes s }
    ∷ record { vars = vars; text = codes "\n" }
    ∷ format vars start lt

-- What a function of the generator has at hand: its variables, and the calls that it has made.
pub record Session : Type 0 where
  pub vars : Vars
  pub calls : List Call

-- A fresh Printer and no variables.
abbrev pub start : Session
start = record { vars = []; calls = [] }

infixl 1 ◌|>◌
abbrev pub ◌|>◌ {ℓ κ} : {A : Type ℓ} {B : Type κ} → A → (A → B) → B
x |> f = f x

unfoldable pub assign : Text → Text → Session → Session
assign k v s = record s { vars = set k v s.vars }

unfoldable pub print : List String → (lt : ℕ) → Session → Session
unfolding format
print template lt s = record s { calls = s.calls ++ format s.vars template lt }

-- A loop over the services of a file, or the methods of a service.
unfoldable pub for_each {ℓ} : {A : Type ℓ} → List A → (A → Session → Session) → Session → Session
for_each [] body s = s
for_each (a ∷ rest) body s = for_each rest body (body a s)
