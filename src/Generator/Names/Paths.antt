-- ===== src/Generator/Names/Paths.antt =====
-- StripProto on the path of a proto file.
use nginx_rpc.Common.{
  ℕ, zero, suc, ◌+◌, ◌-◌, ◌≡◌, ◌≢◌, refl, sym, ap, ◌∙◌, Bool, true, false, ◌&&◌, none, some, [],
  ◌∷◌, ◌++◌, take, drop, length, length-append, leb, ◌==◌, NotIn, Bool-cases, arith, inl, inr,
}
use nginx_rpc.Generator.Names.{
  Text, codes, same, strip_suffix, rfind, base_name, proto, strip_proto,
}

rfind-NotIn : (d : ℕ) (s : Text) → NotIn d s → rfind d s ≡ none
unfolding rfind
rfind-NotIn d [] out = refl
rfind-NotIn d (c ∷ cs) out =
    let other : (c == d) ≡ false = ground (arith, out.0) in rw (rfind-NotIn d cs out.1, other) refl

rfind-last : (d : ℕ) (dir s : Text) → NotIn d s → rfind d (dir ++ d ∷ s) ≡ some (length dir)
unfolding rfind
rfind-last d [] s out =
    let here : (d == d) ≡ true = ground arith in rw (rfind-NotIn d s out, here) refl
rfind-last d (c ∷ cs) s out = rw (rfind-last d cs s out) refl

drop-behind : (dir : Text) (d : ℕ) (s : Text) → drop (length dir + 1) (dir ++ d ∷ s) ≡ s
drop-behind dir d s = let n : length dir + 1 ≡ suc (length dir) = omega arith in rw n (drop_suc dir)
  where
    drop_suc : (xs : Text) → drop (suc (length xs)) (xs ++ d ∷ s) ≡ s
    drop_suc [] = refl
    drop_suc (x ∷ xs) = drop_suc xs

base_name-last : (dir s : Text) → NotIn 47 s → base_name (dir ++ 47 ∷ s) ≡ s
unfolding base_name
base_name-last dir s out = rw (base_name, rfind-last 47 dir s out) (drop-behind dir 47 s)

base_name-NotIn : (s : Text) → NotIn 47 s → base_name s ≡ s
unfolding base_name
base_name-NotIn s out = rw (base_name, rfind-NotIn 47 s out) refl

pub same_refl : (s : Text) → same s s ≡ true
same_refl [] = refl
same_refl (x ∷ xs) = ground (arith, same_refl xs)

drop-append : (xs ys : Text) → drop (length xs) (xs ++ ys) ≡ ys
drop-append [] ys = refl
drop-append (x ∷ xs) ys = drop-append xs ys

take-append : (xs ys : Text) → take (length xs) (xs ++ ys) ≡ xs
take-append [] ys = refl
take-append (x ∷ xs) ys = ap (λ zs. x ∷ zs) (take-append xs ys)

strip_suffix-append : (suffix s : Text) → strip_suffix suffix (s ++ suffix) ≡ (true, s)
unfolding strip_suffix
strip_suffix-append suffix s =
    let n : length (s ++ suffix) - length suffix ≡ length s =
      omega (arith, length-append s suffix) in
    let fits : leb (length suffix) (length (s ++ suffix)) ≡ true =
      ground (arith, length-append s suffix) in
    rw (n, fits, drop-append s suffix, same_refl suffix, take-append s suffix) refl

-- The last byte of a text.
last : ℕ → Text → ℕ
last d [] = d
last d (x ∷ xs) = last x xs

last-append : (d : ℕ) (xs : Text) (y : ℕ) (ys : Text) → last d (xs ++ y ∷ ys) ≡ last y ys
unfolding last
last-append d [] y ys = refl
last-append d (x ∷ xs) y ys = last-append x xs y ys

take-drop : (n : ℕ) (s : Text) → take n s ++ drop n s ≡ s
take-drop zero s = refl
take-drop (suc n) [] = refl
take-drop (suc n) (x ∷ xs) = ap (λ ys. x ∷ ys) (take-drop n xs)

pub and-split : (a b : Bool) → (a && b) ≡ true → (a ≡ true) × (b ≡ true)
and-split true b e = (refl, e)
and-split false b e = absurd (cc e)

==-sound : (x y : ℕ) → (x == y) ≡ true → x ≡ y
==-sound x y e = ground (arith, e)

pub same_sound : (xs ys : Text) → same xs ys ≡ true → xs ≡ ys
same_sound [] [] e = refl
same_sound [] (y ∷ ys) e = absurd (cc e)
same_sound (x ∷ xs) [] e = absurd (cc e)
same_sound (x ∷ xs) (y ∷ ys) e =
    let (first, rest) = and-split (x == y) (same xs ys) e in
    cc (==-sound x y first, same_sound xs ys rest)

-- A text that ends in another byte does not end in the suffix.
strip_suffix-last :
    (y : ℕ) (ys s : Text) → last 0 s ≢ last y ys → strip_suffix (y ∷ ys) s ≡ (false, s)
unfolding strip_suffix
strip_suffix-last y ys s ne =
    let k = length s - suc (length ys) in
    let fits = leb (suc (length ys)) (length s) in
    elim (Bool-cases (fits && same (drop k s) (y ∷ ys))) [
      | inr e ↦ rw e refl
      | inl e ↦
          let ends : drop k s ≡ y ∷ ys = same_sound (drop k s) (y ∷ ys) (and-split fits _ e).1 in
          let whole : s ≡ take k s ++ y ∷ ys = sym (take-drop k s) ∙ ap (λ t. take k s ++ t) ends in
          absurd (ne (ap (last 0) whole ∙ last-append 0 (take k s) y ys))
    ]

NotIn-append : (d : ℕ) (xs ys : Text) → NotIn d xs → NotIn d ys → NotIn d (xs ++ ys)
NotIn-append d [] ys out out2 = out2
NotIn-append d (x ∷ xs) ys out out2 = (out.0, NotIn-append d xs ys out.1 out2)

last-proto : (s : Text) → last 0 (s ++ proto) ≢ last 46 (codes "protodevel")
unfolding last
last-proto s e = absurd (omega (arith, sym (last-append 0 s 46 (codes "proto")) ∙ e))

strip_proto-base : (filename s : Text) → base_name filename ≡ s ++ proto → strip_proto filename ≡ s
unfolding strip_proto
strip_proto-base filename s e =
    let kept = strip_suffix-last 46 (codes "protodevel") (s ++ proto) (last-proto s) in
    rw (e, kept, strip_suffix-append proto s) refl

-- The name of the file `dir`/`s`.proto, where `s` has no slash, is `s`, and so is that of `s`.proto
-- without a directory.
pub strip_proto-append :
    (dir s : Text)
    → NotIn 47 s
    → (strip_proto (dir ++ (codes "/" ++ (s ++ proto))) ≡ s) × (strip_proto (s ++ proto) ≡ s)
strip_proto-append dir s out =
    let clean : NotIn 47 (s ++ proto) = NotIn-append 47 s proto out (ground arith) in
    (
      strip_proto-base (dir ++ 47 ∷ (s ++ proto)) s (base_name-last dir (s ++ proto) clean),
      strip_proto-base (s ++ proto) s (base_name-NotIn (s ++ proto) clean),
    )
