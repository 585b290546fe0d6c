-- ===== src/Modules.antt =====
-- The tables by which nginx finds the functions of ngx_rpc_module and ngx_rpc_inspect_module:
-- directives, configuration hooks, and the hooks of the start and the end of processes. nginx
-- itself, which reads the tables, is not modelled.
pub mod Once
use nginx_rpc.Common.{
  ℕ, zero, suc, ◌≡◌, refl, Bool, true, false, if◌then◌else◌, ite, Option, none, some, List, [], ◌∷◌,
  ◌++◌,
}
use nginx_rpc.Generator.Names.{Text, codes}

-- The functions that the tables name.
pub data Hook : Type 0 where
  ngx_proc_rpc_set_shm_size ngx_proc_rpc_set_log : Hook
  ngx_proc_rpc_create_loc_conf ngx_proc_rpc_merge_loc_conf : Hook
  ngx_proc_rpc_process_init ngx_proc_rpc_process_exit : Hook
  ngx_proc_rpc_master_init ngx_proc_rpc_master_exit : Hook
  ngx_http_rpc_postconfiguration ngx_http_rpc_create_main_conf : Hook
  ngx_http_rpc_init_process ngx_http_rpc_exit_process : Hook
  ngx_conf_set_inspect_application_hanlder ngx_http_inspect_create_loc_conf : Hook
  ngx_inspect_process_exit : Hook

-- Where a directive may stand, how many arguments it takes, and which configuration it is given.
pub data Flag : Type 0 where
  proc_conf http_loc_conf take1 any : Flag

pub data ConfOffset : Type 0 where
  proc_conf_offset http_loc_conf_offset : ConfOffset

-- `ngx_command_t`
pub record Command : Type 0 where
  pub name : Text
  pub allowed : List Flag
  pub set : Hook
  pub conf : ConfOffset
  pub offset : ℕ

-- `ngx_proc_module_t`
pub record ProcModule : Type 0 where
  pub name : Text
  pub create_main_conf : Option Hook
  pub init_main_conf : Option Hook
  pub create_proc_conf : Option Hook
  pub merge_proc_conf : Option Hook
  pub prepare : Option Hook
  pub process_init : Option Hook
  pub process_loop : Option Hook
  pub process_exit : Option Hook

-- `ngx_http_module_t`
pub record HttpModule : Type 0 where
  pub preconfiguration : Option Hook
  pub postconfiguration : Option Hook
  pub create_main_conf : Option Hook
  pub init_main_conf : Option Hook
  pub create_srv_conf : Option Hook
  pub merge_srv_conf : Option Hook
  pub create_loc_conf : Option Hook
  pub merge_loc_conf : Option Hook

-- `ngx_module_t`, with its context.
pub record Module (Ctx : Type 0) : Type 0 where
  pub ctx : Ctx
  pub commands : List Command
  pub init_master : Option Hook
  pub init_module : Option Hook
  pub init_process : Option Hook
  pub init_thread : Option Hook
  pub exit_thread : Option Hook
  pub exit_process : Option Hook
  pub exit_master : Option Hook

abbrev pub ngx_proc_rpc_commands : List Command
ngx_proc_rpc_commands =
    record {
      name = codes "ngx_proc_rpc_set_shm_size";
      allowed = proc_conf ∷ take1 ∷ [];
      set = ngx_proc_rpc_set_shm_size;
      conf = proc_conf_offset;
      offset = 0;
    }
    ∷ record {
      name = codes "ngx_proc_rpc_set_log";
      allowed = proc_conf ∷ take1 ∷ [];
      set = ngx_proc_rpc_set_log;
      conf = proc_conf_offset;
      offset = 0;
    }
    ∷ []

abbrev pub ngx_proc_rpc_module_ctx : ProcModule
ngx_proc_rpc_module_ctx = record {
  name = codes "ngx_proc_rpc";
  create_main_conf = none;
  init_main_conf = none;
  create_proc_conf = some ngx_proc_rpc_create_loc_conf;
  merge_proc_conf = some ngx_proc_rpc_merge_loc_conf;
  prepare = none;
  process_init = some ngx_proc_rpc_process_init;
  process_loop = none;
  process_exit = some ngx_proc_rpc_process_exit;
}

abbrev pub ngx_proc_rpc_module : Module ProcModule
ngx_proc_rpc_module = record {
  ctx = ngx_proc_rpc_module_ctx;
  commands = ngx_proc_rpc_commands;
  init_master = none;
  init_module = some ngx_proc_rpc_master_init;
  init_process = none;
  init_thread = none;
  exit_thread = none;
  exit_process = none;
  exit_master = some ngx_proc_rpc_master_exit;
}

abbrev pub ngx_http_rpc_module_ctx : HttpModule
ngx_http_rpc_module_ctx = record {
  preconfiguration = none;
  postconfiguration = some ngx_http_rpc_postconfiguration;
  create_main_conf = some ngx_http_rpc_create_main_conf;
  init_main_conf = none;
  create_srv_conf = none;
  merge_srv_conf = none;
  create_loc_conf = none;
  merge_loc_conf = none;
}

abbrev pub ngx_http_rpc_module : Module HttpModule
ngx_http_rpc_module = record {
  ctx = ngx_http_rpc_module_ctx;
  commands = [];
  init_master = none;
  init_module = none;
  init_process = some ngx_http_rpc_init_process;
  init_thread = none;
  exit_thread = none;
  exit_process = some ngx_http_rpc_exit_process;
  exit_master = none;
}

abbrev pub ngx_http_inspect_commands : List Command
ngx_http_inspect_commands =
    record {
      name = codes "ngx_conf_set_inspect_application_hanlder";
      allowed = http_loc_conf ∷ any ∷ [];
      set = ngx_conf_set_inspect_application_hanlder;
      conf = http_loc_conf_offset;
      offset = 0;
    }
    ∷ []

abbrev pub ngx_http_inspect_module_ctx : HttpModule
ngx_http_inspect_module_ctx = record {
  preconfiguration = none;
  postconfiguration = none;
  create_main_conf = none;
  init_main_conf = none;
  create_srv_conf = none;
  merge_srv_conf = none;
  create_loc_conf = some ngx_http_inspect_create_loc_conf;
  merge_loc_conf = none;
}

abbrev pub ngx_http_inspect_module : Module HttpModule
ngx_http_inspect_module = record {
  ctx = ngx_http_inspect_module_ctx;
  commands = ngx_http_inspect_commands;
  init_master = none;
  init_module = none;
  init_process = none;
  init_thread = none;
  exit_thread = none;
  exit_process = some ngx_inspect_process_exit;
  exit_master = none;
}
