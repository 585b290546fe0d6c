-- ===== src/Http/Routes/Lookup.antt =====
-- Which method a path leads to.
use nginx_rpc.Common.{
  ℕ, suc, ◌≡◌, refl, ap, ◌∙◌, true, Option, none, some, List, [], ◌∷◌, if◌then◌else◌, All,
}
use nginx_rpc.Memory.{ok, done}
use nginx_rpc.Generator.Names.{Text, same, lower}
use nginx_rpc.Http.Routes.{
  MethodConf, HashKey, first_of, NgxHash, Methods, keys_from, with_table, postconfiguration,
  find_method,
}

-- The place, counted from `i`, of the first method whose name is `uri` once it is in lower case.
abbrev pub first_method : (i : ℕ) → (uri : Text) → List MethodConf → Option ℕ
first_method i uri [] = none
first_method i uri (m ∷ ms) =
    if same (lower m.name) uri then some i else first_method (suc i) uri ms

keys_from-hashed :
    (key_lc : Text → ℕ) (i : ℕ) (ms : List MethodConf)
    → All (λ (k : HashKey). k.key_hash ≡ key_lc k.key) (keys_from key_lc i ms)
unfolding keys_from
keys_from-hashed key_lc i [] = tt
keys_from-hashed key_lc i (m ∷ ms) = (refl, keys_from-hashed key_lc (suc i) ms)

first_of-keys_from :
    (key_lc : Text → ℕ) (i : ℕ) (uri : Text) (ms : List MethodConf)
    → first_of uri (keys_from key_lc i ms) ≡ first_method i uri ms
unfolding keys_from
first_of-keys_from key_lc i uri [] = refl
first_of-keys_from key_lc i uri (m ∷ ms) =
    ap (λ o. if same (lower m.name) uri then some i else o)
      (first_of-keys_from key_lc (suc i) uri ms)

module _ {Table : Type 0} (hash : NgxHash Table) where
  -- When the hash is built and the handler is put into its phase, ngx_http_rpc_postconfiguration
  -- gives NGX_OK, and from then on the path of a request leads to the first method that was
  -- registered under a name that is this path once the name is in lower case.
  pub postconfiguration-find_method :
      (conf : Methods Table) (ms : List MethodConf) (t : Table)
      → conf.method_array ≡ some ms
      → hash.init (keys_from hash.key_lc 0 ms) ≡ some t
      → (postconfiguration hash true true conf ≡ done (ok, record conf { method_hash = some t }))
        × ((uri : Text) → find_method hash t uri ≡ first_method 0 uri ms)
  unfolding postconfiguration with_table find_method
  postconfiguration-find_method conf ms t em et = (
    simp (em, et),
    (λ uri.
        hash.find_init (keys_from hash.key_lc 0 ms) t uri (keys_from-hashed hash.key_lc 0 ms) et
        ∙ first_of-keys_from hash.key_lc 0 uri ms),
  )
