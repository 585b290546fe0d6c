-- ===== src/Http/Routes.antt =====
-- The table of methods: ngx_http_rpc_create_main_conf and ngx_http_rpc_postconfiguration of
-- ngx_rpc_module/ngx_http_rpc.c. nginx's hash is a parameter.
pub mod Lookup
use nginx_rpc.Common.{
  ℕ, zero, suc, ◌≡◌, Bool, true, false, Option, none, some, List, [], ◌∷◌, if◌then◌else◌, All,
}
use nginx_rpc.Memory.{Status, ok, error, Outcome, done, fault, ◌>>=◌, deref}
use nginx_rpc.Heap.{Freed, Heap, slab, buffer, slab_free}
use nginx_rpc.Generator.Names.{Text, same, lower}

-- The log of a method: that of the cycle, or one of its own with the file that was opened.
pub data Log : Type 0 where
  of_cycle : Log
  own : (file : Option ℕ) → Log

-- `method_conf_t`
pub record MethodConf : Type 0 where
  pub name : Text
  pub impl : Option ℕ
  pub handler : ℕ
  pub log : Option Log

-- `ngx_hash_key_t`: the value is the place of the method in the array.
pub record HashKey : Type 0 where
  pub key : Text
  pub key_hash : ℕ
  pub value : ℕ

-- The first key that is the given name once it is in lower case.
abbrev pub first_of : Text → List HashKey → Option ℕ
first_of name [] = none
first_of name (k ∷ ks) = if same (lower k.key) name then some k.value else first_of name ks

-- ngx_hash_key_lc, ngx_hash_init and ngx_hash_find. nginx keeps the keys in lower case, and
-- compares them with the name as it is.
pub record NgxHash (Table : Type 0) : Type 0 where
  pub key_lc : Text → ℕ
  pub init : List HashKey → Option Table
  pub find : Table → (hash : ℕ) → Text → Option ℕ
  pub find_init :
      (keys : List HashKey) (t : Table) (name : Text)
      → All (λ k. k.key_hash ≡ key_lc k.key) keys
      → init keys ≡ some t
      → find t (key_lc name) name ≡ first_of name keys

-- The part of `ngx_http_rpc_conf_t` that holds the methods.
pub record Methods (Table : Type 0) : Type 0 where
  pub method_array : Option (List MethodConf)
  pub method_hash : Option Table

-- ngx_http_rpc_create_main_conf: whether ngx_pcalloc and ngx_array_create gave memory.
unfoldable pub create_main_conf :
    {Table : Type 0} → (allocated array : Bool) → Option (Methods Table)
create_main_conf allocated array =
    if allocated
    then some (record { method_array = if array then some [] else none; method_hash = none })
    else none

-- The loop that fills the array of keys, from the `i`-th method on.
unfoldable pub keys_from : (key_lc : Text → ℕ) (i : ℕ) → List MethodConf → List HashKey
keys_from key_lc i [] = []
keys_from key_lc i (m ∷ ms) =
    record { key = m.name; key_hash = key_lc m.name; value = i } ∷ keys_from key_lc (suc i) ms

-- The part after ngx_hash_init.
unfoldable pub with_table :
    {Table : Type 0} → (pushed : Bool) → Methods Table → Option Table → Status × Methods Table
with_table pushed conf none = (error, conf)
with_table pushed conf (some t) =
    (if pushed then ok else error, record conf { method_hash = some t })

-- ngx_http_rpc_postconfiguration. `created` tells whether there is memory for the keys, which is used
-- untested, and `pushed` whether the phase's array takes the handler.
unfoldable pub postconfiguration :
    {Table : Type 0}
    → NgxHash Table
    → (created pushed : Bool) → Methods Table
    → Outcome (Status × Methods Table)
unfolding keys_from with_table
postconfiguration hash created pushed conf = deref conf.method_array >>= λ ms.
    if created
    then done (with_table pushed conf (hash.init (keys_from hash.key_lc 0 ms)))
    else fault

-- What ngx_http_rpc_http_handler finds for the path of a request.
unfoldable pub find_method : {Table : Type 0} → NgxHash Table → Table → (uri : Text) → Option ℕ
find_method hash t uri = hash.find t (hash.key_lc uri) uri
