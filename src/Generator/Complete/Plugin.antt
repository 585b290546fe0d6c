-- ===== src/Generator/Complete/Plugin.antt =====
-- The variables of GetNgxModuleHeader, and the files of Generate.
use Prim.Native.String.{String}
use nginx_rpc.Common.{ℕ, ◌≡◌, refl, true, List, [], ◌∷◌, ◌++◌, All}
use nginx_rpc.Memory.{done}
use nginx_rpc.Generator.{Method, Service, File, get_server_impl_header, get_ngx_config}
use nginx_rpc.Generator.Names.{codes, strip_proto}
use nginx_rpc.Generator.Names.Dots.{substitute, replace_all-substitute}
use nginx_rpc.Generator.Printing.{Call, Session}
use nginx_rpc.Generator.Module.{
  each_service, each_method, print_conf, print_commands, print_create_loc, service_handlers,
  service_setter, print_exit, get_ngx_module_header, Written, written, module_dir, generate,
}
use nginx_rpc.Generator.Complete.{IsComplete, Good, covers, print-Good, for_each-Good}
use nginx_rpc.Generator.Complete.Server.{
  file_keys, service_keys, method_keys, of_file-Good, of_service-Good, of_method-Good,
  forget_service, forget_method, get_server_impl_header-IsComplete, get_ngx_config-IsComplete,
}
use nginx_rpc.Generator.Templates.Conf.{
  ngx_rpc_module_inlucde, ngx_prc_module_conf_start, ngx_rpc_module_conf_servers,
  ngx_prc_module_conf_end, ngx_rpc_server_set_conf, ngx_rpc_commands_start, ngx_rpc_commands_items,
  ngx_rpc_commands_end, ngx_rpc_http_module_decalres, ngx_rpc_http_module_define,
  ngx_rpc_moudle_decarles, ngx_rpc_moudle_define,
}
use nginx_rpc.Generator.Templates.Method.{
  ngx_rpc_create_loc_start, ngx_rpc_create_loc_items, ngx_rpc_create_loc_end,
  ngx_rpc_method_process,
}
use nginx_rpc.Generator.Templates.Register.{
  ngx_rpc_set_server_method_start, ngx_rpc_set_server_method_item, ngx_rpc_set_server_method_end,
  ngx_rpc_exit_start, ngx_rpc_exit_item, ngx_rpc_exit_end,
}

each_service-Good :
    (template : List String) (lt : ℕ) (services : List Service) (s : Session)
    → covers 36 service_keys template ≡ true
    → Good 36 file_keys s
    → Good 36 file_keys (each_service template lt services s)
unfolding each_service
each_service-Good template lt services s e g =
    for_each-Good services _ s
      (λ srvdesc s2 g2.
        forget_service (print-Good 36 refl template lt _ e (of_service-Good srvdesc s2 g2)))
      g

each_method-Good :
    (template : List String) (lt : ℕ) (methods : List Method) (s : Session)
    → covers 36 method_keys template ≡ true
    → Good 36 service_keys s
    → Good 36 service_keys (each_method template lt methods s)
unfolding each_method
each_method-Good template lt methods s e g =
    for_each-Good methods _ s
      (λ method s2 g2.
        forget_method (print-Good 36 refl template lt _ e (of_method-Good method s2 g2)))
      g

print_conf-Good :
    (services : List Service) (s : Session)
    → Good 36 file_keys s
    → Good 36 file_keys (print_conf services s)
unfolding print_conf
print_conf-Good services s g =
    let g1 =
      print-Good 36 refl ngx_prc_module_conf_start 0 _ refl
        (print-Good 36 refl ngx_rpc_module_inlucde 3 s refl g) in
    let g2 = each_service-Good ngx_rpc_module_conf_servers 1 services _ refl g1 in
    let g3 = print-Good 36 refl ngx_prc_module_conf_end 3 _ refl g2 in
    each_service-Good ngx_rpc_server_set_conf 1 services _ refl g3

print_commands-Good :
    (services : List Service) (s : Session)
    → Good 36 file_keys s
    → Good 36 file_keys (print_commands services s)
unfolding print_commands
print_commands-Good services s g =
    let g1 = print-Good 36 refl ngx_rpc_commands_start 0 s refl g in
    let g2 = each_service-Good ngx_rpc_commands_items 0 services _ refl g1 in
    let g3 = print-Good 36 refl ngx_rpc_commands_end 3 _ refl g2 in
    let g4 = print-Good 36 refl ngx_rpc_http_module_decalres 1 _ refl g3 in
    let g5 = print-Good 36 refl ngx_rpc_http_module_define 3 _ refl g4 in
    let g6 = print-Good 36 refl ngx_rpc_moudle_decarles 1 _ refl g5 in
    print-Good 36 refl ngx_rpc_moudle_define 3 _ refl g6

print_create_loc-Good :
    (services : List Service) (s : Session)
    → Good 36 file_keys s
    → Good 36 file_keys (print_create_loc services s)
unfolding print_create_loc
print_create_loc-Good services s g =
    let g1 = print-Good 36 refl ngx_rpc_create_loc_start 0 s refl g in
    let g2 = each_service-Good ngx_rpc_create_loc_items 2 services _ refl g1 in
    print-Good 36 refl ngx_rpc_create_loc_end 3 _ refl g2

service_handlers-Good :
    (srvdesc : Service) (s : Session)
    → Good 36 file_keys s
    → Good 36 file_keys (service_handlers srvdesc s)
unfolding service_handlers
service_handlers-Good srvdesc s g =
    forget_service (
      each_method-Good ngx_rpc_method_process 3 srvdesc.methods _ refl
        (of_service-Good srvdesc s g))

service_setter-Good :
    (srvdesc : Service) (s : Session)
    → Good 36 file_keys s
    → Good 36 file_keys (service_setter srvdesc s)
unfolding service_setter
service_setter-Good srvdesc s g =
    let g1 =
      print-Good 36 refl ngx_rpc_set_server_method_start 0 _ refl (of_service-Good srvdesc s g) in
    let g2 = each_method-Good ngx_rpc_set_server_method_item 0 srvdesc.methods _ refl g1 in
    forget_service (print-Good 36 refl ngx_rpc_set_server_method_end 3 _ refl g2)

print_exit-Good :
    (services : List Service) (s : Session)
    → Good 36 file_keys s
    → Good 36 file_keys (print_exit services s)
unfolding print_exit
print_exit-Good services s g =
    let g1 = print-Good 36 refl ngx_rpc_exit_start 0 s refl g in
    let g2 = each_service-Good ngx_rpc_exit_item 0 services _ refl g1 in
    print-Good 36 refl ngx_rpc_exit_end 0 _ refl g2

-- GetNgxModuleHeader ends, and each text that it prints names only variables that are set then.
pub get_ngx_module_header-IsComplete :
    (file : File)
    → (calls : List Call) × (get_ngx_module_header file ≡ done calls) × All (IsComplete 36) calls
unfolding get_ngx_module_header
get_ngx_module_header-IsComplete file =
    let namespace = substitute 46 (codes "::") file.package_name in
    let namepath = substitute 46 (codes "/") file.package_name in
    let services = file.services in
    let g1 = print_conf-Good services _ (of_file-Good file namespace namepath) in
    let g2 = print_create_loc-Good services _ (print_commands-Good services _ g1) in
    let g3 = for_each-Good services service_handlers _ service_handlers-Good g2 in
    let g4 = for_each-Good services service_setter _ service_setter-Good g3 in
    let g5 = print_exit-Good services _ g4 in
    (
      _,
      rw
          (
            replace_all-substitute 46 (codes "::") file.package_name,
            replace_all-substitute 46 (codes "/") file.package_name,
          )
          refl,
      g5.complete,
    )

-- The files that Generate writes, for the calls of Print behind the first two.
abbrev three_files : File → (calls calls2 : List Call) → List Written
three_files file calls calls2 =
    let file_name = strip_proto file.name in
    let dir = module_dir file_name in
    record { filename = dir ++ file_name ++ codes "_impl.h"; delimiter = 36; code = calls }
    ∷ record {
      filename = dir ++ codes "ngx_http_" ++ file_name ++ codes "_module.cpp";
      delimiter = 36;
      code = calls2;
    }
    ∷ record { filename = dir ++ codes "config"; delimiter = 37; code = get_ngx_config file }
    ∷ []

generate-three_files :
    (file : File) (calls calls2 : List Call)
    → file.cc_generic_services ≡ true
    → get_server_impl_header file ≡ done calls
    → get_ngx_module_header file ≡ done calls2
    → generate file ≡ done (written (three_files file calls calls2))
unfolding generate
generate-three_files file calls calls2 e run run2 = simp (e, run, run2)

-- For a proto file with generic services, Generate ends and writes three files, which it names after
-- the proto file's base name; in each of them, every text that is printed is well formed and
-- names only variables that have a value at that time.
pub generate-IsComplete :
    (file : File)
    → file.cc_generic_services ≡ true
    → (impl : Written) × (module_cpp : Written) × (config : Written) × (generate file
        ≡ done (written (impl ∷ module_cpp ∷ config ∷ [])))
      × (impl.filename
          ≡ module_dir (strip_proto file.name) ++ strip_proto file.name ++ codes "_impl.h")
      × (module_cpp.filename
          ≡ module_dir (strip_proto file.name)
            ++ codes "ngx_http_"
            ++ strip_proto file.name
            ++ codes "_module.cpp")
      × (config.filename ≡ module_dir (strip_proto file.name) ++ codes "config")
      × All (λ w. All (IsComplete w.delimiter) w.code) (impl ∷ module_cpp ∷ config ∷ [])
unfolding generate
generate-IsComplete file e =
    let (calls, run, complete) = get_server_impl_header-IsComplete file in
    let (calls2, run2, complete2) = get_ngx_module_header-IsComplete file in
    let file_name = strip_proto file.name in
    let dir = module_dir file_name in
    (
      record { filename = dir ++ file_name ++ codes "_impl.h"; delimiter = 36; code = calls },
      record {
        filename = dir ++ codes "ngx_http_" ++ file_name ++ codes "_module.cpp";
        delimiter = 36;
        code = calls2;
      },
      record { filename = dir ++ codes "config"; delimiter = 37; code = get_ngx_config file },
      generate-three_files file calls calls2 e run run2,
      refl,
      refl,
      refl,
      (complete, (complete2, (get_ngx_config-IsComplete file, tt))),
    )
