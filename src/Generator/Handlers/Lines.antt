-- ===== src/Generator/Handlers/Lines.antt =====
-- Which methods' handlers GetNgxModuleHeader defines and registers.
use Prim.Native.String.{String}
use nginx_rpc.Common.{ℕ, ◌≡◌, refl, ap, ◌∙◌, Bool, false, some, List, ◌++◌}
use nginx_rpc.Generator.{Method, Service, of_service, of_method}
use nginx_rpc.Generator.Names.{Text, codes, lower}
use nginx_rpc.Generator.Printing.{lookup, Session, assign, print}
use nginx_rpc.Generator.Templates.{proto_server_name_lower}
use nginx_rpc.Generator.Module.{
  each_service, each_method, print_conf, print_commands, print_create_loc, service_handlers,
  service_setter, print_exit,
}
use nginx_rpc.Generator.Handlers.{
  Entry, Line, entry, picked, repeated, Silent, flat_map, print-picked, print-Silent,
  for_each-Silent, for_each-picked,
}
use nginx_rpc.Generator.Templates.Conf.{
  ngx_rpc_module_inlucde, ngx_prc_module_conf_start, ngx_rpc_module_conf_servers,
  ngx_prc_module_conf_end, ngx_rpc_server_set_conf, ngx_rpc_commands_start, ngx_rpc_commands_items,
  ngx_rpc_commands_end, ngx_rpc_http_module_decalres, ngx_rpc_http_module_define,
  ngx_rpc_moudle_decarles, ngx_rpc_moudle_define,
}
use nginx_rpc.Generator.Templates.Method.{
  ngx_rpc_create_loc_start, ngx_rpc_create_loc_items, ngx_rpc_create_loc_end,
  ngx_rpc_method_process,
}
use nginx_rpc.Generator.Templates.Register.{
  ngx_rpc_set_server_method_start, ngx_rpc_set_server_method_item, ngx_rpc_set_server_method_end,
  ngx_rpc_exit_start, ngx_rpc_exit_item, ngx_rpc_exit_end,
}

-- The names of a handler: those of its service and of its method.
abbrev pub handler : Service → Method → Entry
handler srvdesc method = (some (lower srvdesc.name), some method.name)

entry-of_method :
    (srvdesc : Service) (method : Method) (s : Session)
    → lookup proto_server_name_lower s.vars ≡ some (lower srvdesc.name)
    → entry (of_method method s).vars ≡ handler srvdesc method
unfolding of_method assign lookup
entry-of_method srvdesc method s e = ap (λ o. (o, some method.name)) e

module _ (keep : Text → Bool) (newline : keep (codes "\n") ≡ false) where
  each_service-Silent :
      (template : List String) (lt : ℕ) (services : List Service) (s : Session)
      → Silent keep template
      → picked keep (each_service template lt services s) ≡ picked keep s
  unfolding each_service of_service assign
  each_service-Silent template lt services s q =
      for_each-Silent keep newline services _ s
        (λ srvdesc s2. print-Silent keep newline template lt _ q)

  each_method-picked :
      (template : List String) (lt : ℕ) (srvdesc : Service) (methods : List Method) (s : Session)
      → lookup proto_server_name_lower s.vars ≡ some (lower srvdesc.name)
      → picked keep (each_method template lt methods s)
        ≡ picked keep s
          ++ flat_map (λ method. repeated keep template (handler srvdesc method)) methods
  unfolding each_method of_method assign print lookup
  each_method-picked template lt srvdesc methods s e =
      (for_each-picked keep
        (λ s2. lookup proto_server_name_lower s2.vars ≡ some (lower srvdesc.name))
        (λ method. repeated keep template (handler srvdesc method)) methods _ s
        (λ method s2 e2. (
          print-picked keep newline template lt (of_method method s2)
              ∙ ap (λ x. picked keep s2 ++ repeated keep template x)
                  (entry-of_method srvdesc method s2 e2),
          e2,
        ))
        e).0

  pub print_conf-Silent :
      (services : List Service) (s : Session)
      → Silent keep ngx_rpc_module_inlucde
      → Silent keep ngx_prc_module_conf_start
      → Silent keep ngx_rpc_module_conf_servers
      → Silent keep ngx_prc_module_conf_end
      → Silent keep ngx_rpc_server_set_conf
      → picked keep (print_conf services s) ≡ picked keep s
  unfolding print_conf
  print_conf-Silent services s q1 q2 q3 q4 q5 =
      each_service-Silent ngx_rpc_server_set_conf 1 services _ q5
      ∙ print-Silent keep newline ngx_prc_module_conf_end 3 _ q4
      ∙ each_service-Silent ngx_rpc_module_conf_servers 1 services _ q3
      ∙ print-Silent keep newline ngx_prc_module_conf_start 0 _ q2
      ∙ print-Silent keep newline ngx_rpc_module_inlucde 3 s q1

  pub print_commands-Silent :
      (services : List Service) (s : Session)
      → Silent keep ngx_rpc_commands_start
      → Silent keep ngx_rpc_commands_items
      → Silent keep ngx_rpc_commands_end
      → Silent keep ngx_rpc_http_module_decalres
      → Silent keep ngx_rpc_http_module_define
      → Silent keep ngx_rpc_moudle_decarles
      → Silent keep ngx_rpc_moudle_define
      → picked keep (print_commands services s) ≡ picked keep s
  unfolding print_commands
  print_commands-Silent services s q1 q2 q3 q4 q5 q6 q7 =
      print-Silent keep newline ngx_rpc_moudle_define 3 _ q7
      ∙ print-Silent keep newline ngx_rpc_moudle_decarles 1 _ q6
      ∙ print-Silent keep newline ngx_rpc_http_module_define 3 _ q5
      ∙ print-Silent keep newline ngx_rpc_http_module_decalres 1 _ q4
      ∙ print-Silent keep newline ngx_rpc_commands_end 3 _ q3
      ∙ each_service-Silent ngx_rpc_commands_items 0 services _ q2
      ∙ print-Silent keep newline ngx_rpc_commands_start 0 s q1

  pub print_create_loc-Silent :
      (services : List Service) (s : Session)
      → Silent keep ngx_rpc_create_loc_start
      → Silent keep ngx_rpc_create_loc_items
      → Silent keep ngx_rpc_create_loc_end
      → picked keep (print_create_loc services s) ≡ picked keep s
  unfolding print_create_loc
  print_create_loc-Silent services s q1 q2 q3 =
      print-Silent keep newline ngx_rpc_create_loc_end 3 _ q3
      ∙ each_service-Silent ngx_rpc_create_loc_items 2 services _ q2
      ∙ print-Silent keep newline ngx_rpc_create_loc_start 0 s q1

  pub print_exit-Silent :
      (services : List Service) (s : Session)
      → Silent keep ngx_rpc_exit_start
      → Silent keep ngx_rpc_exit_item
      → Silent keep ngx_rpc_exit_end
      → picked keep (print_exit services s) ≡ picked keep s
  unfolding print_exit
  print_exit-Silent services s q1 q2 q3 =
      print-Silent keep newline ngx_rpc_exit_end 0 _ q3
      ∙ each_service-Silent ngx_rpc_exit_item 0 services _ q2
      ∙ print-Silent keep newline ngx_rpc_exit_start 0 s q1

  -- What a template adds that is printed for every method of a service.
  abbrev pub per_method : List String → Service → List Line
  per_method template srvdesc =
      flat_map (λ method. repeated keep template (handler srvdesc method)) srvdesc.methods

  pub service_handlers-picked :
      (srvdesc : Service) (s : Session)
      → picked keep (service_handlers srvdesc s)
        ≡ picked keep s ++ per_method ngx_rpc_method_process srvdesc
  unfolding service_handlers of_service assign lookup
  service_handlers-picked srvdesc s =
      each_method-picked ngx_rpc_method_process 3 srvdesc srvdesc.methods (of_service srvdesc s)
        refl

  pub service_setter-picked :
      (srvdesc : Service) (s : Session)
      → Silent keep ngx_rpc_set_server_method_start
      → Silent keep ngx_rpc_set_server_method_end
      → picked keep (service_setter srvdesc s)
        ≡ picked keep s ++ per_method ngx_rpc_set_server_method_item srvdesc
  unfolding service_setter of_service assign lookup print
  service_setter-picked srvdesc s q1 q2 =
      print-Silent keep newline ngx_rpc_set_server_method_end 3 _ q2
      ∙ each_method-picked ngx_rpc_set_server_method_item 0 srvdesc srvdesc.methods _ refl
      ∙ ap (λ es. es ++ per_method ngx_rpc_set_server_method_item srvdesc)
          (print-Silent keep newline ngx_rpc_set_server_method_start 0 (of_service srvdesc s) q1)
