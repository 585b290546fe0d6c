-- ===== src/Generator/Templates.antt =====
-- The texts that the generator prints, line by line, and the names of their variables
-- (ngx_rpc_plugin/ngx_rpc_defines.h).
pub mod Conf
pub mod Method
pub mod Register
pub mod Server
use nginx_rpc.Generator.Names.{Text, codes}

abbrev pub proto_name : Text
proto_name = codes "PROTO_NAME"

abbrev pub proto_name_upper : Text
proto_name_upper = codes "PROTO_NAME_UPPER"

abbrev pub proto_package : Text
proto_package = codes "PROTO_PACKAGE"

abbrev pub proto_namespace : Text
proto_namespace = codes "PROTO_NAMESPACE"

abbrev pub proto_namepath : Text
proto_namepath = codes "PROTO_NAMEPATH"

abbrev pub proto_server_name : Text
proto_server_name = codes "PROTO_SERVER_NAME"

abbrev pub proto_server_name_lower : Text
proto_server_name_lower = codes "PROTO_SERVER_NAME_LOWER"

abbrev pub proto_server_method_name : Text
proto_server_method_name = codes "PROTO_SERVER_METHOD_NAME"

abbrev pub proto_server_method_request_name : Text
proto_server_method_request_name = codes "PROTO_SERVER_METHOD_REQUEST_NAME"

abbrev pub proto_server_method_response_name : Text
proto_server_method_response_name = codes "PROTO_SERVER_METHOD_RESPONSE_NAME"
