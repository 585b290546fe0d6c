-- ===== src/Generator/Handlers/Registered.antt =====
-- The handlers that the generated module registers are those that it defines.
use nginx_rpc.Common.{Bool, ◌||◌, List, [], ◌∷◌}
use nginx_rpc.Generator.{Method, Service, File, of_file}
use nginx_rpc.Generator.Names.{Text, codes, same}
use nginx_rpc.Generator.Names.Dots.{substitute}
use nginx_rpc.Generator.Printing.{Session, for_each}
use nginx_rpc.Generator.Templates.Conf.{
  ngx_rpc_module_inlucde, ngx_prc_module_conf_start, ngx_rpc_module_conf_servers,
  ngx_prc_module_conf_end, ngx_rpc_server_set_conf, ngx_rpc_commands_start, ngx_rpc_commands_items,
  ngx_rpc_commands_end, ngx_rpc_http_module_decalres, ngx_rpc_http_module_define,
  ngx_rpc_moudle_decarles, ngx_rpc_moudle_define,
}
use nginx_rpc.Generator.Templates.Method.{
  ngx_rpc_create_loc_start, ngx_rpc_create_loc_items, ngx_rpc_create_loc_end,
}
use nginx_rpc.Generator.Templates.Register.{
  ngx_rpc_set_server_method_start, ngx_rpc_set_server_method_end, ngx_rpc_exit_start,
  ngx_rpc_exit_item, ngx_rpc_exit_end,
}
use nginx_rpc.Generator.Module.{
  print_conf, print_commands, print_create_loc, service_handlers, service_setter, print_exit,
}
use nginx_rpc.Generator.Handlers.{Line, Silent, flat_map}
use nginx_rpc.Generator.Handlers.Lines.{handler}

-- The line that begins a handler's definition, the two lines that give an entry of the table of methods
-- its name, and the line that gives it its handler.
abbrev pub definition : Text
definition =
    codes
      "static void ngxrpc_$PROTO_NAME$_$PROTO_SERVER_NAME_LOWER$_$PROTO_SERVER_METHOD_NAME$(ngx_rpc_task_t* _this, void* p1)"

abbrev pub slash_name : Text
slash_name =
    codes
      "        method->name    = ngx_string(\"/$PROTO_NAMEPATH$/$PROTO_SERVER_NAME$/$PROTO_SERVER_METHOD_NAME$\");"

abbrev pub dot_name : Text
dot_name =
    codes
      "        method->name    = ngx_string(\"/$PROTO_NAMEPATH$.$PROTO_SERVER_NAME$.$PROTO_SERVER_METHOD_NAME$\");"

abbrev pub its_handler : Text
its_handler =
    codes
      "        method->handler = ngxrpc_$PROTO_NAME$_$PROTO_SERVER_NAME_LOWER$_$PROTO_SERVER_METHOD_NAME$;"

abbrev pub defining : Text → Bool
defining line = same line definition

abbrev pub registering : Text → Bool
registering line = same line slash_name || same line dot_name || same line its_handler

-- What a method is defined by, and what it is registered by: its handler under both paths.
abbrev pub defined : Service → Method → List Line
defined srvdesc method = (definition, handler srvdesc method) ∷ []

abbrev pub registered : Service → Method → List Line
registered srvdesc method =
    let e = handler srvdesc method in
    (slash_name, e) ∷ (its_handler, e) ∷ (dot_name, e) ∷ (its_handler, e) ∷ []

-- What `f` gives for the methods of a file, one behind the other.
abbrev pub for_methods : (Service → Method → List Line) → File → List Line
for_methods f file = flat_map (λ srvdesc. flat_map (f srvdesc) srvdesc.methods) file.services

-- What the last three loops print, behind the parts that define and register nothing.
abbrev tail : File → Session → Session
tail file s =
    print_exit file.services
      (for_each file.services service_setter (for_each file.services service_handlers s))

abbrev front : File → Session
front file =
    let namespace = substitute 46 (codes "::") file.package_name in
    let namepath = substitute 46 (codes "/") file.package_name in
    print_create_loc file.services
      (print_commands file.services (print_conf file.services (of_file file namespace namepath)))

-- The lines stand in none of the templates that are neither a handler nor a registration.
abbrev Elsewhere : (Text → Bool) → Type 0
Elsewhere keep =
    Silent keep ngx_rpc_module_inlucde
    × Silent keep ngx_prc_module_conf_start
    × Silent keep ngx_rpc_module_conf_servers
    × Silent keep ngx_prc_module_conf_end
    × Silent keep ngx_rpc_server_set_conf
    × Silent keep ngx_rpc_commands_start
    × Silent keep ngx_rpc_commands_items
    × Silent keep ngx_rpc_commands_end
    × Silent keep ngx_rpc_http_module_decalres
    × Silent keep ngx_rpc_http_module_define
    × Silent keep ngx_rpc_moudle_decarles
    × Silent keep ngx_rpc_moudle_define
    × Silent keep ngx_rpc_create_loc_start
    × Silent keep ngx_rpc_create_loc_items
    × Silent keep ngx_rpc_create_loc_end
    × Silent keep ngx_rpc_set_server_method_start
    × Silent keep ngx_rpc_set_server_method_end
    × Silent keep ngx_rpc_exit_start
    × Silent keep ngx_rpc_exit_item
    × Silent keep ngx_rpc_exit_end
