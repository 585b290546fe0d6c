-- ===== src/Generator/Templates/Conf.antt =====
-- ngx_rpc_plugin/ngx_rpc_module_template.h: the types, directives and module records.
use Prim.Native.String.{String}
use nginx_rpc.Common.{List, [], ◌∷◌}

abbrev pub ngx_rpc_module_inlucde : List String
ngx_rpc_module_inlucde =
    "" ∷ "extern \"C\" {" ∷ "    #include \"ngx_http_rpc.h\"" ∷ "}" ∷ ""
    ∷ "#include \"$PROTO_NAME$_impl.h\"" ∷ "#include \"ngx_rpc_channel.h\"" ∷ ""
    ∷ "using namespace $PROTO_NAMESPACE$;" ∷ []

abbrev pub ngx_prc_module_conf_start : List String
ngx_prc_module_conf_start = "typedef struct" ∷ "{" ∷ []

abbrev pub ngx_rpc_module_conf_servers : List String
ngx_rpc_module_conf_servers =
    "    ngx_log_t *$PROTO_SERVER_NAME_LOWER$_log;"
    ∷ "    ngx_str_t  $PROTO_SERVER_NAME_LOWER$_conf_file;"
    ∷ "    ngx_str_t  $PROTO_SERVER_NAME_LOWER$_log_file;"
    ∷ "    $PROTO_SERVER_NAME$_server *$PROTO_SERVER_NAME_LOWER$_impl;" ∷ []

abbrev pub ngx_prc_module_conf_end : List String
ngx_prc_module_conf_end = "} ngx_http_$PROTO_NAME$_conf_t;" ∷ []

abbrev pub ngx_rpc_server_set_conf : List String
ngx_rpc_server_set_conf =
    "// register the $PROTO_SERVER_NAME$ to ngx_http_rpc_module"
    ∷ "static char *ngx_conf_set_$PROTO_NAME$_$PROTO_SERVER_NAME_LOWER$_hanlder(ngx_conf_t *cf, ngx_command_t *cmd, void *conf);"
    ∷ []

abbrev pub ngx_rpc_commands_start : List String
ngx_rpc_commands_start = "static ngx_command_t ngx_http_$PROTO_NAME$_commands[] = {" ∷ []

abbrev pub ngx_rpc_commands_items : List String
ngx_rpc_commands_items =
    "    " ∷ "    { ngx_string(\"ngx_conf_set_$PROTO_NAME$_$PROTO_SERVER_NAME_LOWER$_hanlder\"),"
    ∷ "      NGX_HTTP_LOC_CONF | NGX_CONF_ANY,"
    ∷ "      ngx_conf_set_$PROTO_NAME$_$PROTO_SERVER_NAME_LOWER$_hanlder,"
    ∷ "      NGX_HTTP_LOC_CONF_OFFSET," ∷ "      0," ∷ "      NULL}," ∷ "    " ∷ []

abbrev pub ngx_rpc_commands_end : List String
ngx_rpc_commands_end = "     ngx_null_command" ∷ "};" ∷ []

abbrev pub ngx_rpc_http_module_decalres : List String
ngx_rpc_http_module_decalres =
    "static void* ngx_http_$PROTO_NAME$_create_loc_conf(ngx_conf_t *cf);" ∷ []

abbrev pub ngx_rpc_http_module_define : List String
ngx_rpc_http_module_define =
    "static ngx_http_module_t ngx_http_$PROTO_NAME$_module_ctx = {"
    ∷ "    NULL,                /* preconfiguration */"
    ∷ "    NULL,                /* postconfiguration */" ∷ ""
    ∷ "    NULL,                /* create main configuration */"
    ∷ "    NULL,                /* init main configuration */" ∷ ""
    ∷ "    NULL,                /* create server configuration */"
    ∷ "    NULL,                /* merge server configuration */" ∷ ""
    ∷ "    ngx_http_$PROTO_NAME$_create_loc_conf,/* create location configuration */"
    ∷ "    NULL                 /* merge location configuration */" ∷ "};" ∷ []

abbrev pub ngx_rpc_moudle_decarles : List String
ngx_rpc_moudle_decarles = "static void ngx_$PROTO_NAME$_process_exit(ngx_cycle_t* cycle);" ∷ []

abbrev pub ngx_rpc_moudle_define : List String
ngx_rpc_moudle_define =
    "extern \"C\" {" ∷ "ngx_module_t ngx_http_$PROTO_NAME$_module = {" ∷ "    NGX_MODULE_V1,"
    ∷ "    &ngx_http_$PROTO_NAME$_module_ctx,        /* module context */"
    ∷ "    ngx_http_$PROTO_NAME$_commands,          /* module directives */"
    ∷ "    NGX_HTTP_MODULE,                         /* module type */"
    ∷ "    NULL,                                  /* init master */"
    ∷ "    /// there no where called init_master"
    ∷ "    /// but some where called init module instead"
    ∷ "    NULL,             /* init module */" ∷ "    NULL,             /* init process */"
    ∷ "    NULL,             /* init thread */" ∷ "    NULL,             /* exit thread */"
    ∷ "    ngx_$PROTO_NAME$_process_exit, /* exit process */"
    ∷ "    NULL,                     /* exit master */" ∷ "    NGX_MODULE_V1_PADDING" ∷ "};"
    ∷ "} // for extern C" ∷ []
