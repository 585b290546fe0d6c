-- ===== src/Generator/Complete/Server.antt =====
-- The variables of GetServerImplHeader and of GetNgxConfig.
use nginx_rpc.Common.{◌≡◌, refl, List, [], ◌∷◌, All}
use nginx_rpc.Memory.{done}
use nginx_rpc.Generator.{
  Method, Service, File, of_service, of_method, of_file, server_method, server_class,
  get_server_impl_header, get_ngx_config,
}
use nginx_rpc.Generator.Names.{Text, lower, codes, strip_proto}
use nginx_rpc.Generator.Names.Dots.{substitute, replace_all-substitute}
use nginx_rpc.Generator.Printing.{Call, Session, start, assign, print, ◌|>◌}
use nginx_rpc.Generator.Complete.{
  IsComplete, Good, assign-Good, Good-forget, print-Good, for_each-Good,
}
use nginx_rpc.Generator.Templates.{
  proto_name, proto_name_upper, proto_package, proto_namespace, proto_namepath, proto_server_name,
  proto_server_name_lower, proto_server_method_name, proto_server_method_request_name,
  proto_server_method_response_name,
}
use nginx_rpc.Generator.Templates.Register.{ngx_rpc_config}
use nginx_rpc.Generator.Templates.Server.{
  ngx_rpc_server_header_start, ngx_rpc_server_header_end, ngx_rpc_server_include,
  ngx_rpc_server_namespace_start, ngx_rpc_server_namespace_end, ngx_rpc_server_class_start,
  ngx_rpc_server_class_end, ngx_rpc_server_method,
}

-- The variables that are set for a file, for a service of it, and for a method of that.
abbrev pub file_keys : List Text
file_keys = proto_namepath ∷ proto_namespace ∷ proto_package ∷ proto_name_upper ∷ proto_name ∷ []

abbrev pub service_keys : List Text
service_keys = proto_server_name_lower ∷ proto_server_name ∷ file_keys

abbrev pub method_keys : List Text
method_keys =
    proto_server_method_response_name ∷ proto_server_method_request_name ∷ proto_server_method_name
    ∷ service_keys

pub of_file-Good :
    (file : File) (namespace namepath : Text) → Good 36 file_keys (of_file file namespace namepath)
unfolding of_file
of_file-Good file namespace namepath = assign-Good _ _ _ (
    assign-Good _ _ _ (
      assign-Good _ _ _
        (assign-Good _ _ _ (assign-Good _ _ start (record { set_keys = tt; complete = tt })))))

pub of_service-Good :
    (srvdesc : Service) (s : Session)
    → Good 36 file_keys s
    → Good 36 service_keys (of_service srvdesc s)
unfolding of_service
of_service-Good srvdesc s g = assign-Good _ _ _ (assign-Good _ _ s g)

pub of_method-Good :
    (method : Method) (s : Session)
    → Good 36 service_keys s
    → Good 36 method_keys (of_method method s)
unfolding of_method
of_method-Good method s g = assign-Good _ _ _ (assign-Good _ _ _ (assign-Good _ _ s g))

pub forget_service : {s : Session} → Good 36 service_keys s → Good 36 file_keys s
forget_service g = Good-forget (Good-forget g)

pub forget_method : {s : Session} → Good 36 method_keys s → Good 36 service_keys s
forget_method g = Good-forget (Good-forget (Good-forget g))

server_method-Good :
    (method : Method) (s : Session)
    → Good 36 service_keys s
    → Good 36 service_keys (server_method method s)
unfolding server_method
server_method-Good method s g =
    forget_method (print-Good 36 refl ngx_rpc_server_method 3 _ refl (of_method-Good method s g))

server_class-Good :
    (srvdesc : Service) (s : Session)
    → Good 36 file_keys s
    → Good 36 file_keys (server_class srvdesc s)
unfolding server_class
server_class-Good srvdesc s g = forget_service (
    print-Good 36 refl ngx_rpc_server_class_end 3 _ refl (
      for_each-Good srvdesc.methods server_method _ server_method-Good
        (print-Good 36 refl ngx_rpc_server_class_start 3 _ refl (of_service-Good srvdesc s g))))

-- GetServerImplHeader ends, and each text that it prints names only variables that are set then.
pub get_server_impl_header-IsComplete :
    (file : File)
    → (calls : List Call) × (get_server_impl_header file ≡ done calls) × All (IsComplete 36) calls
unfolding get_server_impl_header
get_server_impl_header-IsComplete file =
    let namespace = substitute 46 (codes " {\nnamespace ") file.package_name in
    let namepath = substitute 46 (codes "/") file.package_name in
    let closing = substitute 46 (codes " \n} //for ") file.package_name in
    let s0 = of_file file namespace namepath in
    let g0 = of_file-Good file namespace namepath in
    let g1 = print-Good 36 refl ngx_rpc_server_namespace_start 3 _ refl (
      print-Good 36 refl ngx_rpc_server_include 3 _ refl
        (print-Good 36 refl ngx_rpc_server_header_start 3 s0 refl g0)) in
    let g2 = for_each-Good file.services server_class _ server_class-Good g1 in
    let g3 = print-Good 36 refl ngx_rpc_server_header_end 3 _ refl (
      print-Good 36 refl ngx_rpc_server_namespace_end 3 _ refl
        (Good-forget (assign-Good proto_namespace closing _ g2))) in
    (
      _,
      rw
          (
            replace_all-substitute 46 (codes " {\nnamespace ") file.package_name,
            replace_all-substitute 46 (codes "/") file.package_name,
            replace_all-substitute 46 (codes " \n} //for ") file.package_name,
          )
          refl,
      g3.complete,
    )

-- Each text that GetNgxConfig prints names only variables that are set then.
pub get_ngx_config-IsComplete : (file : File) → All (IsComplete 37) (get_ngx_config file)
unfolding get_ngx_config
get_ngx_config-IsComplete file =
    let name = lower (strip_proto file.name) in
    let g = assign-Good {d = 37} proto_name name start (record { set_keys = tt; complete = tt }) in
    let printed : Good 37 (proto_name ∷ [])
        (start |> assign proto_name name |> print ngx_rpc_config 3) =
      print-Good 37 refl ngx_rpc_config 3 _ refl g in
    printed.complete
