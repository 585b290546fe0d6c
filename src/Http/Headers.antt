-- ===== src/Http/Headers.antt =====
-- ngx_http_header_modify_content_length in ngx_rpc_module/ngx_http_rpc.c: the walk over nginx's
-- list of header parts, each an array of headers.
use nginx_rpc.Common.{
  ℕ, ◌≡◌, ◌≢◌, refl, Bool, true, false, List, [], ◌∷◌, ◌++◌, All, length, if◌then◌else◌, ◌==◌, ◌&&◌,
  Bool-cases, inl, inr,
}
use nginx_rpc.Memory.{Status, ok, error, Outcome, done, fault, ◌>>=◌}

-- `ngx_table_elt_t`: a key with its length, a value, and the hash that is 0 in a deleted entry.
pub record Header : Type 0 where
  pub hash : ℕ
  pub key : List ℕ
  pub value : List ℕ
  pub value_len : ℕ

-- "Content-Length:"
abbrev pub content_length : List ℕ
content_length =
    67 ∷ 111 ∷ 110 ∷ 116 ∷ 101 ∷ 110 ∷ 116 ∷ 45 ∷ 76 ∷ 101 ∷ 110 ∷ 103 ∷ 116 ∷ 104 ∷ 58 ∷ []

-- `same a b n` is `ngx_strncasecmp(a, b, n) == 0`; `printed` is what snprintf writes into the 32
-- bytes of `buffer`, which ngx_palloc returned or not; `linked` tells whether
-- `headers_in.content_length`, whose value is set too, is there.
module _ (same : List ℕ → List ℕ → ℕ → Bool) (printed : List ℕ) (buffer linked : Bool) where
  -- The header is in use and its key matches, for as long as the key is.
  abbrev pub hits : Header → Bool
  hits x = if x.hash == 0 then false else same x.key content_length (length x.key)

  -- The header after the write. Its length becomes the size of the buffer.
  abbrev pub rewritten : Header → Header
  rewritten x = record x { value = printed; value_len = 32 }

  -- A header that was passed stays in front of its part.
  abbrev before : Header → List (List Header) → List (List Header)
  before x [] = (x ∷ []) ∷ []
  before x (part ∷ parts) = (x ∷ part) ∷ parts

  -- One round, at the header `x`; `rest` is what the further rounds give.
  visit :
      (hit : Bool) (x : Header) (xs : List Header) (parts : List (List Header))
      → Outcome (Status × List (List Header))
      → Outcome (Status × List (List Header))
  visit true x xs parts rest =
      if buffer && linked then done (ok, (rewritten x ∷ xs) ∷ parts) else fault
  visit false x xs parts rest = rest >>= λ r. done (r.0, before x r.1)

  -- The loop, at the rest of the current part, with the parts behind it. At the end of a part the
  -- first header of the next one is read without a test that the part has one.
  unfoldable pub walk :
      (xs : List Header) (parts : List (List Header)) → Outcome (Status × List (List Header))
  unfolding visit
  walk [] [] = done (error, [] ∷ [])
  walk [] ([] ∷ parts) = fault
  walk [] ((y ∷ ys) ∷ parts) =
      visit (hits y) y ys parts (walk ys parts) >>= λ r. done (r.0, [] ∷ r.1)
  walk (x ∷ xs) parts = visit (hits x) x xs parts (walk xs parts)

  -- ngx_http_header_modify_content_length on the header list; the first part is embedded in the
  -- list, so there is one.
  unfoldable pub modify_content_length : List (List Header) → Outcome (Status × List (List Header))
  unfolding walk
  modify_content_length [] = fault
  modify_content_length (part ∷ parts) = walk part parts

  -- The same on one list: the first header that is hit is rewritten.
  pub replace_first : List Header → Status × List Header
  replace_first [] = (error, [])
  replace_first (x ∷ xs) =
      let rest = replace_first xs in if hits x then (ok, rewritten x ∷ xs) else (rest.0, x ∷ rest.1)

-- All headers, part by part.
abbrev pub flat : List (List Header) → List Header
flat [] = []
flat (part ∷ parts) = part ++ flat parts

-- What a walk gives: the status and headers `s`, in parts.
abbrev pub Gives : Status × List Header → Outcome (Status × List (List Header)) → Type 0
Gives s o = (ps : List (List Header)) × (o ≡ done (s.0, ps)) × (flat ps ≡ s.1)

module _ (same : List ℕ → List ℕ → ℕ → Bool) (printed : List ℕ) where
  before-flat :
      (x : Header) (ps : List (List Header))
      → flat (before same printed true true x ps) ≡ x ∷ flat ps
  before-flat x [] = refl
  before-flat x (p ∷ ps) = refl

  visit-Gives :
      (x : Header) (xs : List Header) (parts : List (List Header))
      (rest : Outcome (Status × List (List Header)))
      → Gives (replace_first same printed true true (xs ++ flat parts)) rest
      → Gives
          (replace_first same printed true true (x ∷ xs ++ flat parts))
          (visit same printed true true (hits same printed true true x) x xs parts rest)
  unfolding visit replace_first
  visit-Gives x xs parts rest (ps, run, eq) = elim (Bool-cases (hits same printed true true x)) [
    | inl hit ↦ ((rewritten same printed true true x ∷ xs) ∷ parts, rw hit, rw hit)
    | inr miss ↦
        (before same printed true true x ps, rw (miss, run), rw (miss, before-flat x ps, eq))
  ]

  walk-Gives :
      (xs : List Header) (parts : List (List Header))
      → All (λ p. p ≢ []) parts
      → Gives
          (replace_first same printed true true (xs ++ flat parts))
          (walk same printed true true xs parts)
  unfolding walk replace_first
  walk-Gives [] [] full = ([] ∷ [], refl, refl)
  walk-Gives [] ([] ∷ parts) full = absurd (full.0 refl)
  walk-Gives [] ((y ∷ ys) ∷ parts) full =
      let (ps, run, eq) = visit-Gives y ys parts _ (walk-Gives ys parts full.1) in
      ([] ∷ ps, rw run, eq)
  walk-Gives (x ∷ xs) parts full = visit-Gives x xs parts _ (walk-Gives xs parts full)

  -- When no part behind the first is empty, and the buffer and the parsed length are there, the
  -- walk over the parts ends and rewrites the first header that is hit, in whichever part it
  -- stands, and no other; it succeeds exactly if there is one.
  pub modify_content_length-replace_first :
      (part : List Header) (parts : List (List Header))
      → All (λ p. p ≢ []) parts
      → Gives
          (replace_first same printed true true (part ++ flat parts))
          (modify_content_length same printed true true (part ∷ parts))
  unfolding modify_content_length
  modify_content_length-replace_first part parts full = walk-Gives part parts full
