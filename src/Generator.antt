-- ===== src/Generator.antt =====
-- ngx_rpc_plugin: the plugin of protoc that writes an nginx module for the services of a proto file.
-- protobuf's Printer is kept apart: the functions give the calls of Print that they make.
pub mod Names
pub mod Templates
pub mod Printing
pub mod Module
pub mod Complete
pub mod Handlers
use nginx_rpc.Common.{ℕ, Bool, true, false, List, [], ◌∷◌, ◌++◌, if◌then◌else◌}
use nginx_rpc.Memory.{Outcome, done, ◌>>=◌}
use nginx_rpc.Generator.Names.{Text, codes, lower, upper, strip_proto, replace_all}
use nginx_rpc.Generator.Templates.{
  proto_name, proto_name_upper, proto_package, proto_namespace, proto_namepath, proto_server_name,
  proto_server_name_lower, proto_server_method_name, proto_server_method_request_name,
  proto_server_method_response_name,
}
use nginx_rpc.Generator.Templates.Register.{ngx_rpc_config}
use nginx_rpc.Generator.Templates.Server.{
  ngx_rpc_server_header_start, ngx_rpc_server_header_end, ngx_rpc_server_include,
  ngx_rpc_server_namespace_start, ngx_rpc_server_namespace_end, ngx_rpc_server_class_start,
  ngx_rpc_server_class_end, ngx_rpc_server_method,
}
use nginx_rpc.Generator.Printing.{Call, Session, start, assign, print, for_each, ◌|>◌}

-- What is used of protobuf's MethodDescriptor, ServiceDescriptor and FileDescriptor.
pub record Method : Type 0 where
  pub name : Text
  pub input_type : Text
  pub output_type : Text

pub record Service : Type 0 where
  pub name : Text
  pub methods : List Method

pub record File : Type 0 where
  pub name : Text
  pub package_name : Text
  pub services : List Service
  pub cc_generic_services : Bool

-- The variables of a service and of a method.
unfoldable pub of_service : Service → Session → Session
unfolding assign
of_service srvdesc s =
    s
    |> assign proto_server_name srvdesc.name
    |> assign proto_server_name_lower (lower srvdesc.name)

unfoldable pub of_method : Method → Session → Session
unfolding assign
of_method method s =
    s
    |> assign proto_server_method_name method.name
    |> assign proto_server_method_request_name method.input_type
    |> assign proto_server_method_response_name method.output_type

-- The variables of a file: `namespace` and `namepath` come from its package.
unfoldable pub of_file : File → (namespace namepath : Text) → Session
unfolding assign
of_file file namespace namepath =
    let name = lower (strip_proto file.name) in
    start
    |> assign proto_name name
    |> assign proto_name_upper (upper name)
    |> assign proto_package file.package_name
    |> assign proto_namespace namespace
    |> assign proto_namepath namepath

-- The class of a service, in GetServerImplHeader.
unfoldable pub server_method : Method → Session → Session
unfolding of_method print
server_method method s = of_method method s |> print ngx_rpc_server_method 3

unfoldable pub server_class : Service → Session → Session
unfolding of_service print for_each server_method
server_class srvdesc s =
    of_service srvdesc s
    |> print ngx_rpc_server_class_start 3
    |> for_each srvdesc.methods server_method
    |> print ngx_rpc_server_class_end 3

-- GetServerImplHeader
unfoldable pub get_server_impl_header : File → Outcome (List Call)
unfolding of_file server_class
get_server_impl_header file = do
  namespace ← replace_all file.package_name (codes ".") (codes " {\nnamespace ")
  namepath ← replace_all file.package_name (codes ".") (codes "/")
  let s =
      of_file file namespace namepath
      |> print ngx_rpc_server_header_start 3
      |> print ngx_rpc_server_include 3
      |> print ngx_rpc_server_namespace_start 3
      |> for_each file.services server_class
  closing ← replace_all file.package_name (codes ".") (codes " \n} //for ")
  let last =
      s
      |> assign proto_namespace closing
      |> print ngx_rpc_server_namespace_end 3
      |> print ngx_rpc_server_header_end 3
  done last.calls

-- GetNgxConfig
unfoldable pub get_ngx_config : File → List Call
unfolding assign print
get_ngx_config file =
    let s = start |> assign proto_name (lower (strip_proto file.name)) |> print ngx_rpc_config 3 in
    s.calls
