-- ===== src/Inspect/Setup/Registered.antt =====
-- What the directive registers, and which paths lead to it.
use nginx_rpc.Common.{ℕ, ◌≡◌, refl, ◌∙◌, Bool, true, Option, none, some, List, [], ◌∷◌, map}
use nginx_rpc.Memory.{ok, done}
use nginx_rpc.Generator.Names.{Text, codes, lower}
use nginx_rpc.Http.Routes.{
  own, of_cycle, MethodConf, NgxHash, Methods, keys_from, postconfiguration, find_method,
}
use nginx_rpc.Http.Routes.Lookup.{postconfiguration-find_method}
use nginx_rpc.Inspect.{forward_path}
use nginx_rpc.Inspect.Setup.{
  InspectConf, set_conf_file, set_log_file, method_of, push, push_methods, success, set_application,
}

-- The four methods of a configuration.
abbrev pub four_methods : InspectConf → List MethodConf
four_methods conf =
    method_of conf (codes "/ngxrpc/inspect/Application/interface") 0
    ∷ method_of conf (codes "/ngxrpc/inspect.Application.interface") 0
    ∷ method_of conf (codes "/ngxrpc/inspect/Application/requeststatus") 1
    ∷ method_of conf (codes "/ngxrpc/inspect.Application.requeststatus") 1
    ∷ []

-- The configuration that the directive leaves, with the words behind its name.
abbrev pub with_files :
    (open_file : Text → Option ℕ) (server : ℕ) (files : List Text) → InspectConf → InspectConf
with_files open_file server [] conf = record conf {
  application_log = some of_cycle;
  application_impl = some server;
}
with_files open_file server (conf_file ∷ []) conf = record conf {
  application_log = some of_cycle;
  application_conf_file = conf_file;
  application_impl = some server;
}
with_files open_file server (conf_file ∷ log_file ∷ more) conf = record {
  application_log = some (own (open_file conf_file));
  application_conf_file = conf_file;
  application_log_file = log_file;
  application_impl = some server;
}

module _ (granted : ℕ → Bool) (all : (k : ℕ) → granted k ≡ true) where
  -- The directive, with any words behind its name, in a main configuration without methods, when every
  -- allocation is granted: it succeeds and registers four methods of the new server, two for each
  -- handler; with two words, the log of all of them writes to the configuration file.
  pub set_application-four_methods :
      {Table : Type 0} (open_file : Text → Option ℕ) (server : ℕ) (word : Text) (files : List Text)
      (rpc_conf : Methods Table) (conf : InspectConf)
      → rpc_conf.method_array ≡ some []
      → set_application granted true open_file server (word ∷ files) (some rpc_conf) conf
        ≡ done (
          success,
          some (record rpc_conf {
            method_array = some (four_methods (with_files open_file server files conf));
          }),
          with_files open_file server files conf,
        )
  unfolding set_application set_conf_file set_log_file push_methods push
  set_application-four_methods open_file server word [] rpc_conf conf e =
      rw (e, all 0, all 1, all 2, all 3) refl
  set_application-four_methods open_file server word (f ∷ []) rpc_conf conf e =
      rw (e, all 0, all 1, all 2, all 3) refl
  set_application-four_methods open_file server word (f ∷ g ∷ more) rpc_conf conf e =
      rw (e, all 0, all 1, all 2, all 3) refl

  -- From the directive, with any words behind its name, to the lookup: after set_application, on a
  -- main configuration without methods, and ngx_http_rpc_postconfiguration, with every allocation
  -- granted and the hash built, the configuration has the files and the log that these words give;
  -- the path to which requeststatus forwards leads to the first method, whose handler is that of
  -- interface, and the paths as they are registered, with a capital, lead to no method.
  pub set_application-find_method :
      {Table : Type 0} (hash : NgxHash Table) (open_file : Text → Option ℕ) (server : ℕ)
      (word : Text) (files : List Text) (rpc_conf : Methods Table) (conf : InspectConf) (t : Table)
      → rpc_conf.method_array ≡ some []
      → hash.init (keys_from hash.key_lc 0 (four_methods (with_files open_file server files conf)))
        ≡ some t
      → (rpc_conf' : Methods Table) × (ms : List MethodConf) × (set_application granted true
            open_file server
            (word ∷ files)
            (some rpc_conf)
            conf
          ≡ done (success, some rpc_conf', with_files open_file server files conf))
        × (rpc_conf'.method_array ≡ some ms)
        × (map (λ m. m.handler) ms ≡ 0 ∷ 0 ∷ 1 ∷ 1 ∷ [])
        × (postconfiguration hash true true rpc_conf'
            ≡ done (ok, record rpc_conf' { method_hash = some t }))
        × (find_method hash t forward_path ≡ some 0)
        × (find_method hash t (codes "/ngxrpc/inspect/application/requeststatus") ≡ some 2)
        × (find_method hash t (codes "/ngxrpc/inspect/Application/interface") ≡ none)
        × (find_method hash t (codes "/ngxrpc/inspect/Application/requeststatus") ≡ none)
  unfolding lower
  set_application-find_method {Table} hash open_file server word files rpc_conf conf t e et =
      let ms = four_methods (with_files open_file server files conf) in
      let rpc_conf' : Methods Table = record rpc_conf { method_array = some ms } in
      let (ran, found) = postconfiguration-find_method hash rpc_conf' ms t refl et in
      (
        rpc_conf',
        ms,
        set_application-four_methods open_file server word files rpc_conf conf e,
        refl,
        refl,
        ran,
        found forward_path ∙ refl,
        found (codes "/ngxrpc/inspect/application/requeststatus") ∙ refl,
        found (codes "/ngxrpc/inspect/Application/interface") ∙ refl,
        found (codes "/ngxrpc/inspect/Application/requeststatus") ∙ refl,
      )
