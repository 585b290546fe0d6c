-- ===== src/Generator/Templates/Server.antt =====
-- ngx_rpc_plugin/ngx_rpc_server_template.h: the classes that implement the services.
use Prim.Native.String.{String}
use nginx_rpc.Common.{List, [], ◌∷◌}

abbrev pub ngx_rpc_server_header_start : List String
ngx_rpc_server_header_start =
    "#ifndef __$PROTO_NAME_UPPER$_SERVER_IMPL_H__" ∷ "#define __$PROTO_NAME_UPPER$_SERVER_IMPL_H__"
    ∷ []

abbrev pub ngx_rpc_server_header_end : List String
ngx_rpc_server_header_end = "#endif // for __$PROTO_NAME_UPPER$_SERVER_IMPL_H_" ∷ []

abbrev pub ngx_rpc_server_include : List String
ngx_rpc_server_include = "#include \"$PROTO_NAME$.pb.h\"" ∷ "#include \"ngx_rpc_channel.h\"" ∷ []

abbrev pub ngx_rpc_server_namespace_start : List String
ngx_rpc_server_namespace_start = "namespace $PROTO_NAMESPACE$ {" ∷ []

abbrev pub ngx_rpc_server_namespace_end : List String
ngx_rpc_server_namespace_end = "} // for $PROTO_NAMESPACE$" ∷ []

abbrev pub ngx_rpc_server_class_start : List String
ngx_rpc_server_class_start =
    "class $PROTO_SERVER_NAME$_server " ∷ "{" ∷ "public:"
    ∷ "    $PROTO_SERVER_NAME$_server(const std::string& conf_file)" ∷ "    {" ∷ "    }" ∷ []

abbrev pub ngx_rpc_server_class_end : List String
ngx_rpc_server_class_end = "}; /// for class $PROTO_SERVER_NAME$_server" ∷ []

abbrev pub ngx_rpc_server_method : List String
ngx_rpc_server_method =
    "     void $PROTO_SERVER_METHOD_NAME$(RpcChannel *channel,const $PROTO_SERVER_METHOD_REQUEST_NAME$* request,"
    ∷ "                                     $PROTO_SERVER_METHOD_RESPONSE_NAME$* response, RpcCallHandler done)"
    ∷ "    {" ∷ "         DEBUG(\"$PROTO_SERVER_METHOD_NAME$ was called!\")" ∷ ""
    ∷ "         //finish this method" ∷ "         done(channel,request,response,NGX_HTTP_OK);"
    ∷ "    }" ∷ []
