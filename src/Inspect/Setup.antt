-- ===== src/Inspect/Setup.antt =====
-- The configuration of ngx_rpc_inspect_module/ngx_http_inspect_module.cpp: its creation, the
-- directive that registers the methods, and the exit of a process.
pub mod Registered
use nginx_rpc.Common.{
  ℕ, zero, suc, Bool, true, false, Option, none, some, List, [], ◌∷◌, ◌++◌, get_elem?,
  if◌then◌else◌,
}
use nginx_rpc.Memory.{Outcome, done, fault, ◌>>=◌, deref}
use nginx_rpc.Generator.Names.{Text, codes}
use nginx_rpc.Http.Routes.{Log, of_cycle, own, MethodConf, Methods}

-- `ngx_http_inspect_conf_t`
pub record InspectConf : Type 0 where
  pub application_log : Option Log
  pub application_conf_file : Text
  pub application_log_file : Text
  pub application_impl : Option ℕ

-- ngx_http_inspect_create_loc_conf, on whether ngx_pcalloc gives memory.
unfoldable pub create_loc_conf : (allocated : Bool) → Outcome InspectConf
create_loc_conf allocated =
    if allocated
    then done (record {
      application_log = none;
      application_conf_file = [];
      application_log_file = [];
      application_impl = none;
    })
    else fault

-- `if(cf->args->nelts > 1)`
unfoldable pub set_conf_file : (value1 : Option Text) → InspectConf → InspectConf
set_conf_file none conf = conf
set_conf_file (some v) conf = record conf { application_conf_file = v }

-- `if(cf->args->nelts > 2)`: a log of its own, if ngx_palloc gives one.
unfoldable pub set_log_file :
    (allocated : Bool) (open_file : Text → Option ℕ) (value1 value2 : Option Text)
    → InspectConf
    → Outcome InspectConf
set_log_file allocated open_file value1 none conf = done conf
set_log_file allocated open_file value1 (some v) conf =
    if allocated
    then (do
      path ← deref value1
      done
          (record conf { application_log_file = v; application_log = some (own (open_file path)) }))
    else fault

-- A method of this configuration: `handler` is 0 for ngxrpc_inspect_application_interface and 1 for
-- ngxrpc_inspect_application_requeststatus.
abbrev pub method_of : InspectConf → Text → (handler : ℕ) → MethodConf
method_of conf name handler = record {
  name = name;
  impl = conf.application_impl;
  handler = handler;
  log = conf.application_log;
}

-- A method put behind the others; ngx_array_push may fail, and its result is written through.
unfoldable pub push :
    (granted : ℕ → Bool) (k : ℕ) → MethodConf → List MethodConf → Outcome (List MethodConf)
push granted k m ms = if granted k then done (ms ++ m ∷ []) else fault

-- The four methods that are registered.
unfoldable pub push_methods :
    (granted : ℕ → Bool) → InspectConf → List MethodConf → Outcome (List MethodConf)
unfolding push
push_methods granted conf ms = do
  ms1 ← push granted 0 (method_of conf (codes "/ngxrpc/inspect/Application/interface") 0) ms
  ms2 ← push granted 1 (method_of conf (codes "/ngxrpc/inspect.Application.interface") 0) ms1
  ms3 ← push granted 2 (method_of conf (codes "/ngxrpc/inspect/Application/requeststatus") 1) ms2
  push granted 3 (method_of conf (codes "/ngxrpc/inspect.Application.requeststatus") 1) ms3

-- What the directive gives: NGX_OK, which is the NULL of success, or a message.
pub data Answer : Type 0 where
  success not_init : Answer

-- ngx_conf_set_inspect_application_hanlder, with the words of the directive; `server` is the new
-- Application_server.
unfoldable pub set_application :
    {Table : Type 0}
    → (granted : ℕ → Bool) (allocated : Bool) (open_file : Text → Option ℕ) (server : ℕ)
      (args : List Text)
    → Option (Methods Table)
    → InspectConf
    → Outcome (Answer × Option (Methods Table) × InspectConf)
unfolding set_conf_file set_log_file push_methods
set_application granted allocated open_file server args none conf = done (not_init, none, conf)
set_application granted allocated open_file server args (some rpc_conf) conf = do
  let value1 = get_elem? args 1
  let conf1 = record (set_conf_file value1 conf) {
    application_impl = some server;
    application_log = some of_cycle;
  }
  conf2 ← set_log_file allocated open_file value1 (get_elem? args 2) conf1
  ms ← deref rpc_conf.method_array
  ms' ← push_methods granted conf2 ms
  done (success, some (record rpc_conf { method_array = some ms' }), conf2)

-- The configurations of a location, by module: that of this module, or of another one.
pub data LocConf : Type 0 where
  inspect : InspectConf → LocConf
  other : LocConf

-- What is deleted, of the configuration at hand.
unfoldable pub release : LocConf → Outcome (Option ℕ)
release (inspect c) = done c.application_impl
release other = fault

-- ngx_inspect_process_exit: `http_module` is the ctx_index of `ngx_http_module`, with which it looks
-- for its configuration. The memory of another module's is no ngx_http_inspect_conf_t.
unfoldable pub process_exit : (loc_conf : ℕ → Option LocConf) (http_module : ℕ) → Outcome (Option ℕ)
unfolding release
process_exit loc_conf http_module = deref (loc_conf http_module) >>= release
