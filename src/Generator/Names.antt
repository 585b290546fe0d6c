-- ===== src/Generator/Names.antt =====
-- The functions on names at the top of ngx_rpc_plugin/ngx_rpc_generator.cpp. A std::string is the
-- list of its bytes.
pub mod Paths
pub mod Dots
use Prim.Native.Char.{code}
use Prim.Native.String.{String}
use nginx_rpc.Common.{
  ℕ, zero, suc, ◌+◌, ◌-◌, Bool, true, false, ◌&&◌, Option, none, some, List, [], ◌∷◌, ◌++◌, map,
  take, drop, length, leb, ◌==◌, if◌then◌else◌,
}
use nginx_rpc.Memory.{Outcome, done, no_fuel}

abbrev pub Text : Type 0
Text = List ℕ

-- The bytes of a literal of the source.
abbrev pub codes : String → Text
codes String.[] = []
codes (String.◌∷◌ c s) = code c ∷ codes s

-- `compare(...) == 0`
abbrev pub same : Text → Text → Bool
same [] [] = true
same [] (y ∷ ys) = false
same (x ∷ xs) [] = false
same (x ∷ xs) (y ∷ ys) = (x == y) && same xs ys

-- StripSuffix: whether the suffix was there, and the name without it.
unfoldable pub strip_suffix : (suffix filename : Text) → Bool × Text
strip_suffix suffix filename =
    let suffix_pos = length filename - length suffix in
    if leb (length suffix) (length filename) && same (drop suffix_pos filename) suffix
    then (true, take suffix_pos filename)
    else (false, filename)

-- `rfind` of one byte: the last place where it stands.
unfoldable pub rfind : ℕ → Text → Option ℕ
rfind d [] = none
rfind d (c ∷ cs) = elim (rfind d cs) [
  | some i ↦ some (suc i)
  | none ↦ if c == d then some 0 else none
]

-- What stands behind the last slash, or all.
unfoldable pub base_name : Text → Text
unfolding rfind
base_name filename = elim (rfind 47 filename) [ some i ↦ drop (i + 1) filename | none ↦ filename ]

abbrev pub proto : Text
proto = codes ".proto"

abbrev pub proto_devel : Text
proto_devel = codes ".protodevel"

-- StripProto
unfoldable pub strip_proto : Text → Text
unfolding base_name strip_suffix
strip_proto filename =
    let base = base_name filename in
    let (stripped, name) = strip_suffix proto_devel base in
    if stripped then name else (strip_suffix proto name).1

-- `::tolower` and `::toupper` in the C locale.
unfoldable pub to_lower : ℕ → ℕ
to_lower c = if leb 65 c && leb c 90 then c + 32 else c

unfoldable pub to_upper : ℕ → ℕ
to_upper c = if leb 97 c && leb c 122 then c - 32 else c

-- Lower and Upper
unfoldable pub lower : Text → Text
unfolding to_lower
lower input = map to_lower input

unfoldable pub upper : Text → Text
unfolding to_upper
upper input = map to_upper input

-- Whether a text begins with another.
abbrev pub begins : (search subject : Text) → Bool
begins [] subject = true
begins (x ∷ xs) [] = false
begins (x ∷ xs) (y ∷ ys) = (x == y) && begins xs ys

-- The first place where `search` stands.
unfoldable pub find_first : (search subject : Text) → Option ℕ
find_first search [] = if begins search [] then some 0 else none
find_first search (c ∷ cs) =
    if begins search (c ∷ cs)
    then some 0
    else elim (find_first search cs) [ some i ↦ some (suc i) | none ↦ none ]

-- `subject.find(search, pos)`, counted from `pos`: npos also where `pos` is behind the end.
unfoldable pub find : (search subject : Text) (pos : ℕ) → Option ℕ
unfolding find_first
find search subject pos =
    if leb pos (length subject) then find_first search (drop pos subject) else none

-- One round of the loop of Replace, for what find gave.
unfoldable pub replace_round :
    (again : Text → ℕ → Outcome Text) (search replace : Text)
    → Option ℕ
    → (subject : Text) (pos : ℕ) → Outcome Text
replace_round again search replace none subject pos = done subject
replace_round again search replace (some i) subject pos =
    let found = pos + i in
    again (take found subject ++ (replace ++ drop (found + length search) subject))
      (found + length replace)

unfoldable pub replace_loop : (fuel : ℕ) (search replace subject : Text) (pos : ℕ) → Outcome Text
unfolding replace_round find
replace_loop zero search replace subject pos = no_fuel
replace_loop (suc fuel) search replace subject pos =
    replace_round (replace_loop fuel search replace) search replace (find search subject pos)
      subject pos

-- Replace, with a round for each byte of the input and one more.
unfoldable pub replace_all : (input search replace : Text) → Outcome Text
unfolding replace_loop
replace_all input search replace = replace_loop (suc (length input)) search replace input 0
