-- ===== src/Generator/Templates/Register.antt =====
-- ngx_rpc_plugin/ngx_rpc_module_template.h: registering the methods, the exit, and the config file.
use Prim.Native.String.{String}
use nginx_rpc.Common.{List, [], ◌∷◌}

abbrev pub ngx_rpc_set_server_method_start : List String
ngx_rpc_set_server_method_start =
    "static char* ngx_conf_set_$PROTO_NAME$_$PROTO_SERVER_NAME_LOWER$_hanlder(ngx_conf_t *cf, ngx_command_t *cmd, void *conf)"
    ∷ "{" ∷ "" ∷ "    ngx_http_rpc_conf_t *rpc_conf = (ngx_http_rpc_conf_t *)"
    ∷ "            ngx_http_conf_get_module_main_conf(cf, ngx_http_rpc_module);" ∷ ""
    ∷ "    if(rpc_conf == NULL)" ∷ "    {"
    ∷ "        ngx_conf_log_error(NGX_LOG_WARN, cf, 0, \"ngx_http_rpc_module not init\");"
    ∷ "        return (char*)\"ngx_http_rpc_module not init\";" ∷ "    }" ∷ ""
    ∷ "    ngx_http_$PROTO_NAME$_conf_t *$PROTO_NAME$_conf = (ngx_http_$PROTO_NAME$_conf_t*) conf;"
    ∷ "    ngx_str_t* value = (ngx_str_t*)cf->args->elts;" ∷ "" ∷ "    if(cf->args->nelts > 1)"
    ∷ "    {" ∷ "         $PROTO_NAME$_conf->$PROTO_SERVER_NAME_LOWER$_conf_file = (value[1]);"
    ∷ "    }" ∷ ""
    ∷ "    const std::string app_conf((const char *)$PROTO_NAME$_conf->$PROTO_SERVER_NAME_LOWER$_conf_file.data);"
    ∷ "    $PROTO_NAME$_conf->$PROTO_SERVER_NAME_LOWER$_impl = new $PROTO_SERVER_NAME$_server(app_conf);"
    ∷ "" ∷ "" ∷ "    $PROTO_NAME$_conf->$PROTO_SERVER_NAME_LOWER$_log = ngx_cycle->log;" ∷ ""
    ∷ "    if( cf->args->nelts > 2)" ∷ "    {"
    ∷ "       $PROTO_NAME$_conf->$PROTO_SERVER_NAME_LOWER$_log_file = (value[2]);"
    ∷ "       $PROTO_NAME$_conf->$PROTO_SERVER_NAME_LOWER$_log  = (ngx_log_t*)ngx_palloc(cf->pool, sizeof(ngx_log_t));"
    ∷ "       $PROTO_NAME$_conf->$PROTO_SERVER_NAME_LOWER$_log->file = ngx_conf_open_file(cf->cycle, &value[1]);"
    ∷ "       $PROTO_NAME$_conf->$PROTO_SERVER_NAME_LOWER$_log->log_level = NGX_DEBUG;" ∷ "    }"
    ∷ "" ∷ []

abbrev pub ngx_rpc_set_server_method_item : List String
ngx_rpc_set_server_method_item =
    "    " ∷ "    " ∷ "    {"
    ∷ "        method_conf_t *method = (method_conf_t *)ngx_array_push(rpc_conf->method_array);"
    ∷ "        method->name    = ngx_string(\"/$PROTO_NAMEPATH$/$PROTO_SERVER_NAME$/$PROTO_SERVER_METHOD_NAME$\");"
    ∷ "        method->_impl   = $PROTO_NAME$_conf->$PROTO_SERVER_NAME_LOWER$_impl;"
    ∷ "        method->handler = ngxrpc_$PROTO_NAME$_$PROTO_SERVER_NAME_LOWER$_$PROTO_SERVER_METHOD_NAME$;"
    ∷ "        method->log     = $PROTO_NAME$_conf->$PROTO_SERVER_NAME_LOWER$_log;" ∷ "    }"
    ∷ "    " ∷ "    {"
    ∷ "        method_conf_t *method = (method_conf_t *)ngx_array_push(rpc_conf->method_array);"
    ∷ "        method->name    = ngx_string(\"/$PROTO_NAMEPATH$.$PROTO_SERVER_NAME$.$PROTO_SERVER_METHOD_NAME$\");"
    ∷ "        method->_impl   = $PROTO_NAME$_conf->$PROTO_SERVER_NAME_LOWER$_impl;"
    ∷ "        method->handler = ngxrpc_$PROTO_NAME$_$PROTO_SERVER_NAME_LOWER$_$PROTO_SERVER_METHOD_NAME$;"
    ∷ "        method->log     = $PROTO_NAME$_conf->$PROTO_SERVER_NAME_LOWER$_log;" ∷ "    }" ∷ []

abbrev pub ngx_rpc_set_server_method_end : List String
ngx_rpc_set_server_method_end =
    "" ∷ "" ∷ "     ngx_log_error(NGX_LOG_INFO, ngx_cycle->log, 0,"
    ∷ "              \"ngx_conf_set_$PROTO_NAME$_$PROTO_SERVER_NAME_LOWER$_hanlder with $PROTO_SERVER_NAME_LOWER$_impl:%p, conf file:%V log_file:%V\","
    ∷ "              $PROTO_NAME$_conf->$PROTO_SERVER_NAME_LOWER$_impl,"
    ∷ "              &$PROTO_NAME$_conf->$PROTO_SERVER_NAME_LOWER$_conf_file,"
    ∷ "              &$PROTO_NAME$_conf->$PROTO_SERVER_NAME_LOWER$_log_file);" ∷ "" ∷ ""
    ∷ "     return NGX_OK;" ∷ "}" ∷ []

abbrev pub ngx_rpc_exit_start : List String
ngx_rpc_exit_start =
    "static void ngx_$PROTO_NAME$_process_exit(ngx_cycle_t* cycle)" ∷ "{"
    ∷ "    ngx_http_conf_ctx_t * ctx = (ngx_http_conf_ctx_t *) cycle->conf_ctx[ngx_http_module.index];"
    ∷ "    ngx_http_$PROTO_NAME$_conf_t *c = (ngx_http_$PROTO_NAME$_conf_t *) ctx ->loc_conf[ngx_http_module.ctx_index];"
    ∷ "" ∷ "    ngx_log_error(NGX_LOG_INFO, cycle->log, 0, \"ngx_$PROTO_NAME$_process_exit done\");"
    ∷ "" ∷ []

abbrev pub ngx_rpc_exit_item : List String
ngx_rpc_exit_item =
    "    // release the instance " ∷ "    delete c->$PROTO_SERVER_NAME_LOWER$_impl;" ∷ "" ∷ []

abbrev pub ngx_rpc_exit_end : List String
ngx_rpc_exit_end = "" ∷ "}" ∷ []

abbrev pub ngx_rpc_config : List String
ngx_rpc_config =
    "#Add this module when configure nginx with --add-module=\"ngx_rpc_%PROTO_NAME%_module\""
    ∷ "#this is the module name" ∷ "ngx_addon_name=\"ngx_http_%PROTO_NAME%_module\"" ∷ ""
    ∷ "HTTP_MODULES=\"$HTTP_MODULES ngx_http_%PROTO_NAME%_module \"" ∷ ""
    ∷ "#sources files with lowwer case" ∷ "NGX_ADDON_SRCS=\"$NGX_ADDON_SRCS \\"
    ∷ "    $ngx_addon_dir/%PROTO_NAME%.pb.cc \\"
    ∷ "    $ngx_addon_dir/ngx_http_%PROTO_NAME%_module.cpp \"" ∷ "" ∷ "#this header files"
    ∷ "NGX_ADDON_DEPS=\"$NGX_ADDON_DEPS \\" ∷ "    $ngx_addon_dir/%PROTO_NAME%_impl.h \\"
    ∷ "    $ngx_addon_dir/%PROTO_NAME%.pb.h \"" ∷ "" ∷ "CORE_INCS=\"$CORE_INCS $ngx_addon_dir\""
    ∷ "" ∷ []
