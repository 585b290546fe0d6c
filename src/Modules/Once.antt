-- ===== src/Modules/Once.antt =====
-- Each function that the tables of Modules name, and how often they name it.
use nginx_rpc.Common.{
  ℕ, suc, ◌≡◌, refl, Option, none, some, List, [], ◌∷◌, ◌++◌, map, if◌then◌else◌, ◌==◌,
}
use nginx_rpc.Modules.{
  Hook, Command, ProcModule, HttpModule, Module, ngx_proc_rpc_module, ngx_http_rpc_module,
  ngx_http_inspect_module, ngx_proc_rpc_set_shm_size, ngx_proc_rpc_set_log,
  ngx_proc_rpc_create_loc_conf, ngx_proc_rpc_merge_loc_conf, ngx_proc_rpc_process_init,
  ngx_proc_rpc_process_exit, ngx_proc_rpc_master_init, ngx_proc_rpc_master_exit,
  ngx_http_rpc_postconfiguration, ngx_http_rpc_create_main_conf, ngx_http_rpc_init_process,
  ngx_http_rpc_exit_process, ngx_conf_set_inspect_application_hanlder,
  ngx_http_inspect_create_loc_conf, ngx_inspect_process_exit,
}

-- The functions of a table, in its order.
abbrev proc_hooks : ProcModule → List (Option Hook)
proc_hooks m =
    m.create_main_conf ∷ m.init_main_conf ∷ m.create_proc_conf ∷ m.merge_proc_conf ∷ m.prepare
    ∷ m.process_init ∷ m.process_loop ∷ m.process_exit ∷ []

abbrev http_hooks : HttpModule → List (Option Hook)
http_hooks m =
    m.preconfiguration ∷ m.postconfiguration ∷ m.create_main_conf ∷ m.init_main_conf
    ∷ m.create_srv_conf ∷ m.merge_srv_conf ∷ m.create_loc_conf ∷ m.merge_loc_conf ∷ []

abbrev module_hooks : {C : Type 0} → (C → List (Option Hook)) → Module C → List (Option Hook)
module_hooks of_ctx m =
    of_ctx m.ctx
    ++ map (λ (c : Command). some c.set) m.commands
    ++ m.init_master ∷ m.init_module ∷ m.init_process ∷ m.init_thread ∷ m.exit_thread
      ∷ m.exit_process ∷ m.exit_master ∷ []

abbrev all_hooks : List (Option Hook)
all_hooks =
    module_hooks proc_hooks ngx_proc_rpc_module
    ++ module_hooks http_hooks ngx_http_rpc_module
    ++ module_hooks http_hooks ngx_http_inspect_module

-- The functions numbered.
abbrev number : Hook → ℕ
number ngx_proc_rpc_set_shm_size = 0
number ngx_proc_rpc_set_log = 1
number ngx_proc_rpc_create_loc_conf = 2
number ngx_proc_rpc_merge_loc_conf = 3
number ngx_proc_rpc_process_init = 4
number ngx_proc_rpc_process_exit = 5
number ngx_proc_rpc_master_init = 6
number ngx_proc_rpc_master_exit = 7
number ngx_http_rpc_postconfiguration = 8
number ngx_http_rpc_create_main_conf = 9
number ngx_http_rpc_init_process = 10
number ngx_http_rpc_exit_process = 11
number ngx_conf_set_inspect_application_hanlder = 12
number ngx_http_inspect_create_loc_conf = 13
number ngx_inspect_process_exit = 14

-- How often a list names a function.
abbrev pub times : Hook → List (Option Hook) → ℕ
times h [] = 0
times h (none ∷ hs) = times h hs
times h (some g ∷ hs) = let rest = times h hs in if number h == number g then suc rest else rest

-- Every function is named by the three tables exactly once.
pub named_once : (h : Hook) → times h all_hooks ≡ 1
named_once ngx_proc_rpc_set_shm_size = refl
named_once ngx_proc_rpc_set_log = refl
named_once ngx_proc_rpc_create_loc_conf = refl
named_once ngx_proc_rpc_merge_loc_conf = refl
named_once ngx_proc_rpc_process_init = refl
named_once ngx_proc_rpc_process_exit = refl
named_once ngx_proc_rpc_master_init = refl
named_once ngx_proc_rpc_master_exit = refl
named_once ngx_http_rpc_postconfiguration = refl
named_once ngx_http_rpc_create_main_conf = refl
named_once ngx_http_rpc_init_process = refl
named_once ngx_http_rpc_exit_process = refl
named_once ngx_conf_set_inspect_application_hanlder = refl
named_once ngx_http_inspect_create_loc_conf = refl
named_once ngx_inspect_process_exit = refl
