-- ===== src/Generator/Module.antt =====
-- GetNgxModuleHeader, in the order in which it prints, and Generate.
use Prim.Native.String.{String}
use nginx_rpc.Common.{ℕ, List, [], ◌∷◌, ◌++◌, if◌then◌else◌}
use nginx_rpc.Memory.{Outcome, done, ◌>>=◌}
use nginx_rpc.Generator.{
  Method, Service, File, of_service, of_method, of_file, get_server_impl_header, get_ngx_config,
}
use nginx_rpc.Generator.Names.{Text, codes, replace_all, strip_proto}
use nginx_rpc.Generator.Printing.{Call, Session, print, for_each, ◌|>◌}
use nginx_rpc.Generator.Templates.Conf.{
  ngx_rpc_module_inlucde, ngx_prc_module_conf_start, ngx_rpc_module_conf_servers,
  ngx_prc_module_conf_end, ngx_rpc_server_set_conf, ngx_rpc_commands_start, ngx_rpc_commands_items,
  ngx_rpc_commands_end, ngx_rpc_http_module_decalres, ngx_rpc_http_module_define,
  ngx_rpc_moudle_decarles, ngx_rpc_moudle_define,
}
use nginx_rpc.Generator.Templates.Method.{
  ngx_rpc_create_loc_start, ngx_rpc_create_loc_items, ngx_rpc_create_loc_end,
  ngx_rpc_method_process,
}
use nginx_rpc.Generator.Templates.Register.{
  ngx_rpc_set_server_method_start, ngx_rpc_set_server_method_item, ngx_rpc_set_server_method_end,
  ngx_rpc_exit_start, ngx_rpc_exit_item, ngx_rpc_exit_end,
}

-- A loop over the services that sets their variables and prints one text.
unfoldable pub each_service : (template : List String) (lt : ℕ) → List Service → Session → Session
unfolding for_each of_service print
each_service template lt services =
    for_each services (λ srvdesc s. of_service srvdesc s |> print template lt)

-- A loop over the methods of a service.
unfoldable pub each_method : (template : List String) (lt : ℕ) → List Method → Session → Session
unfolding for_each of_method print
each_method template lt methods =
    for_each methods (λ method s. of_method method s |> print template lt)

-- The includes, the configuration's type, and the declarations of the setters.
unfoldable pub print_conf : List Service → Session → Session
unfolding each_service
print_conf services s =
    s
    |> print ngx_rpc_module_inlucde 3
    |> print ngx_prc_module_conf_start 0
    |> each_service ngx_rpc_module_conf_servers 1 services
    |> print ngx_prc_module_conf_end 3
    |> each_service ngx_rpc_server_set_conf 1 services

-- The directives, and the two records of the module.
unfoldable pub print_commands : List Service → Session → Session
unfolding each_service
print_commands services s =
    s
    |> print ngx_rpc_commands_start 0
    |> each_service ngx_rpc_commands_items 0 services
    |> print ngx_rpc_commands_end 3
    |> print ngx_rpc_http_module_decalres 1
    |> print ngx_rpc_http_module_define 3
    |> print ngx_rpc_moudle_decarles 1
    |> print ngx_rpc_moudle_define 3

-- The function that creates the configuration.
unfoldable pub print_create_loc : List Service → Session → Session
unfolding each_service
print_create_loc services s =
    s
    |> print ngx_rpc_create_loc_start 0
    |> each_service ngx_rpc_create_loc_items 2 services
    |> print ngx_rpc_create_loc_end 3

-- The handlers of a service's methods.
unfoldable pub service_handlers : Service → Session → Session
unfolding of_service each_method
service_handlers srvdesc s =
    of_service srvdesc s |> each_method ngx_rpc_method_process 3 srvdesc.methods

-- The setter of a service, which registers its methods.
unfoldable pub service_setter : Service → Session → Session
unfolding of_service each_method
service_setter srvdesc s =
    of_service srvdesc s
    |> print ngx_rpc_set_server_method_start 0
    |> each_method ngx_rpc_set_server_method_item 0 srvdesc.methods
    |> print ngx_rpc_set_server_method_end 3

-- The function that runs at a process's exit.
unfoldable pub print_exit : List Service → Session → Session
unfolding each_service
print_exit services s =
    s
    |> print ngx_rpc_exit_start 0
    |> each_service ngx_rpc_exit_item 0 services
    |> print ngx_rpc_exit_end 0

-- GetNgxModuleHeader
unfoldable pub get_ngx_module_header : File → Outcome (List Call)
unfolding of_file print_conf print_commands print_create_loc service_handlers service_setter
    print_exit
get_ngx_module_header file = do
  namespace ← replace_all file.package_name (codes ".") (codes "::")
  namepath ← replace_all file.package_name (codes ".") (codes "/")
  let s =
      of_file file namespace namepath
      |> print_conf file.services
      |> print_commands file.services
      |> print_create_loc file.services
      |> for_each file.services service_handlers
      |> for_each file.services service_setter
      |> print_exit file.services
  done s.calls

-- A file that is written: its name, the delimiter of its Printer, and the calls of Print whose
-- output it holds.
pub record Written : Type 0 where
  pub filename : Text
  pub delimiter : ℕ
  pub code : List Call

-- What Generate gives: the files that it has written, or false.
pub data Generated : Type 0 where
  refused : Generated
  written : List Written → Generated

abbrev pub module_dir : Text → Text
module_dir file_name = codes "ngx_rpc_" ++ file_name ++ codes "_module/"

-- Insert, on the files written before.
abbrev pub insert : List Written → Text → (delimiter : ℕ) → List Call → List Written
insert files filename delimiter code =
    files ++ record { filename = filename; delimiter = delimiter; code = code } ∷ []

-- NginxRpcGenerator::Generate
unfoldable pub generate : File → Outcome Generated
unfolding get_server_impl_header get_ngx_module_header get_ngx_config strip_proto
generate file =
    if file.cc_generic_services
    then (do
      let file_name = strip_proto file.name
      let dir = module_dir file_name
      impl ← get_server_impl_header file
      let f1 = insert [] (dir ++ file_name ++ codes "_impl.h") 36 impl
      module_cpp ← get_ngx_module_header file
      let f2 =
          insert f1 (dir ++ codes "ngx_http_" ++ file_name ++ codes "_module.cpp") 36 module_cpp
      done (written (insert f2 (dir ++ codes "config") 37 (get_ngx_config file))))
    else done refused
