-- ===== src/Generator/Names/Dots.antt =====
-- Replace on a single byte, the only kind of search that the generator makes.
use nginx_rpc.Common.{
  ℕ, zero, suc, ◌+◌, ◌<◌, ◌≡◌, refl, sym, ap, ◌∙◌, true, false, Option, none, some, [], ◌∷◌, ◌++◌,
  take, drop, length, length-append, leb, ◌==◌, if◌then◌else◌, NotIn, Bool-cases, arith,
  append_assoc, inl, inr,
}
use nginx_rpc.Memory.{done, ◌>>=◌}
use nginx_rpc.Generator.Names.{Text, find_first, find, replace_loop, replace_round, replace_all}

-- Each byte `d` of a text replaced.
unfoldable pub substitute : (d : ℕ) (replace s : Text) → Text
substitute d replace [] = []
substitute d replace (c ∷ cs) =
    let rest = substitute d replace cs in if d == c then replace ++ rest else c ∷ rest

drop-append : (xs ys : Text) → drop (length xs) (xs ++ ys) ≡ ys
drop-append [] ys = refl
drop-append (x ∷ xs) ys = drop-append xs ys

drop-further : (xs ys : Text) (n : ℕ) → drop (length xs + n) (xs ++ ys) ≡ drop n ys
drop-further [] ys n = let e : 0 + n ≡ n = omega arith in rw e refl
drop-further (x ∷ xs) ys n =
    let e : suc (length xs) + n ≡ suc (length xs + n) = omega arith in rw e (drop-further xs ys n)

take-further : (xs ys : Text) (n : ℕ) → take (length xs + n) (xs ++ ys) ≡ xs ++ take n ys
take-further [] ys n = let e : 0 + n ≡ n = omega arith in rw e refl
take-further (x ∷ xs) ys n =
    let e : suc (length xs) + n ≡ suc (length xs + n) = omega arith in
    rw e (ap (λ zs. x ∷ zs) (take-further xs ys n))

module _ (d : ℕ) (replace : Text) where
  -- What the search for the byte finds in a text.
  data Found (s : Text) : Option ℕ → Type 0 where
    absent : substitute d replace s ≡ s → Found s none
    present :
        {i : ℕ}
        → substitute d replace s ≡ take i s ++ (replace ++ substitute d replace (drop (suc i) s))
        → length (take i s) ≡ i
        → length (drop (suc i) s) < length s
        → Found s (some i)

  Found-later :
      (c : ℕ) (cs : Text) (o : Option ℕ)
      → (d == c) ≡ false
      → Found cs o
      → Found (c ∷ cs) (elim o [ some i ↦ some (suc i) | none ↦ none ])
  unfolding substitute
  Found-later c cs none ne (absent e) = absent (rw (ne, e) refl)
  Found-later c cs (some i) ne (present e n less) =
      present (rw (ne, e) refl) (ap suc n) (omega (arith, less))

  find_first-Found : (s : Text) → Found s (find_first (d ∷ []) s)
  unfolding find_first substitute
  find_first-Found [] = absent refl
  find_first-Found (c ∷ cs) = elim (Bool-cases (d == c)) [
    | inl e ↦ rw e (present (rw e refl) refl (omega arith))
    | inr e ↦ rw e (Found-later c cs (find_first (d ∷ []) cs) e (find_first-Found cs))
  ]

  find-behind : (front s : Text) → find (d ∷ []) (front ++ s) (length front) ≡ find_first (d ∷ []) s
  unfolding find
  find-behind front s =
      let fits : leb (length front) (length (front ++ s)) ≡ true =
        ground (arith, length-append front s) in
      rw (fits, drop-append front s) refl

  -- A round, if the loop does its work from any place behind which less is left.
  replace_round-Found :
      (fuel : ℕ) (front s : Text)
      → ((front2 s2 : Text)
          → length s2 < length s
          → replace_loop fuel (d ∷ []) replace (front2 ++ s2) (length front2)
            ≡ done (front2 ++ substitute d replace s2))
      → (o : Option ℕ) → Found s o
      → replace_round
          (replace_loop fuel (d ∷ []) replace)
          (d ∷ [])
          replace
          o
          (front ++ s)
          (length front)
        ≡ done (front ++ substitute d replace s)
  unfolding replace_round
  replace_round-Found fuel front s again none (absent e) = rw e refl
  replace_round-Found fuel front s again (some i) (present e n less) =
      let front2 = front ++ take i s ++ replace in
      let back = drop (suc i) s in
      let found : length front + i + suc zero ≡ length front + suc i = omega arith in
      let moved : take (length front + i) (front ++ s)
            ++ (replace ++ drop (length front + i + suc zero) (front ++ s))
          ≡ front2 ++ back =
        rw (found, take-further front s i, drop-further front s (suc i))
          (sym (append_assoc (front ++ take i s) replace back)) in
      let place : length front + i + length replace ≡ length front2 =
        omega
          (arith, length-append (front ++ take i s) replace, length-append front (take i s), n) in
      let joined : front2 ++ substitute d replace back ≡ front ++ substitute d replace s =
        append_assoc (front ++ take i s) replace (substitute d replace back)
        ∙ append_assoc front (take i s) (replace ++ substitute d replace back)
        ∙ ap (λ t. front ++ t) (sym e) in
      rw (moved, place) (again front2 back less ∙ ap done joined)

  replace_loop-substitute :
      (fuel : ℕ) (front s : Text)
      → length s < fuel
      → replace_loop fuel (d ∷ []) replace (front ++ s) (length front)
        ≡ done (front ++ substitute d replace s)
  unfolding replace_loop
  replace_loop-substitute zero front s enough = absurd (omega (arith, enough))
  replace_loop-substitute (suc fuel) front s enough = rw (find-behind front s) (
      replace_round-Found fuel front s
        (λ front2 s2 less. replace_loop-substitute fuel front2 s2 (omega (arith, less, enough)))
        (find_first (d ∷ []) s) (find_first-Found s))

-- Replace of one byte by any text ends, and gives the input with each such byte replaced.
pub replace_all-substitute :
    (d : ℕ) (replace input : Text)
    → replace_all input (d ∷ []) replace ≡ done (substitute d replace input)
unfolding replace_all
replace_all-substitute d replace input =
    replace_loop-substitute d replace (suc (length input)) [] input (omega arith)

-- Substituting `e` for `d` and then `d` for `e`, in a text without `e`.
substitute-back :
    (d e : ℕ) (s : Text) → NotIn e s → substitute e (d ∷ []) (substitute d (e ∷ []) s) ≡ s
unfolding substitute
substitute-back d e [] out = refl
substitute-back d e (c ∷ cs) out =
    let self : (e == e) ≡ true = ground arith in
    let other : (e == c) ≡ false = ground (arith, out.0) in
    elim (Bool-cases (d == c)) [
      | inl h ↦
          let eq : d ≡ c = ground (arith, h) in
          rw (h, self, substitute-back d e cs out.1) (ap (λ x. x ∷ cs) eq)
      | inr h ↦ rw (h, other, substitute-back d e cs out.1) refl
    ]

-- Replacing each byte `d` by `e`, and then each `e` by `d`, gives the input back, if it has no `e` of
-- its own: so the path of a package, with slashes for its dots, determines the package.
pub replace_all-back :
    (d e : ℕ) (input : Text)
    → NotIn e input
    → (replace_all input (d ∷ []) (e ∷ []) >>= λ s. replace_all s (e ∷ []) (d ∷ [])) ≡ done input
replace_all-back d e input out =
    rw (replace_all-substitute d (e ∷ []) input)
      (replace_all-substitute e (d ∷ []) _ ∙ ap done (substitute-back d e input out))
