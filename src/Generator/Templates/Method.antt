-- ===== src/Generator/Templates/Method.antt =====
-- ngx_rpc_plugin/ngx_rpc_module_template.h: the functions that make the configuration and run a method.
use Prim.Native.String.{String}
use nginx_rpc.Common.{List, [], ◌∷◌}

abbrev pub ngx_rpc_create_loc_start : List String
ngx_rpc_create_loc_start =
    "static void* ngx_http_$PROTO_NAME$_create_loc_conf(ngx_conf_t *cf)" ∷ "{"
    ∷ "    ngx_http_$PROTO_NAME$_conf_t *conf = (ngx_http_$PROTO_NAME$_conf_t *)ngx_pcalloc(cf->pool,"
    ∷ "                                              sizeof(ngx_http_$PROTO_NAME$_conf_t));" ∷ ""
    ∷ []

abbrev pub ngx_rpc_create_loc_items : List String
ngx_rpc_create_loc_items =
    "    conf->$PROTO_SERVER_NAME_LOWER$_conf_file = ngx_string(\"\");"
    ∷ "    conf->$PROTO_SERVER_NAME_LOWER$_log_file  = ngx_string(\"\");"
    ∷ "    conf->$PROTO_SERVER_NAME_LOWER$_impl      = NULL;" ∷ []

abbrev pub ngx_rpc_create_loc_end : List String
ngx_rpc_create_loc_end = "    return conf;" ∷ "}" ∷ []

abbrev pub ngx_rpc_method_process : List String
ngx_rpc_method_process =
    "static void ngxrpc_$PROTO_NAME$_$PROTO_SERVER_NAME_LOWER$_$PROTO_SERVER_METHOD_NAME$(ngx_rpc_task_t* _this, void* p1)"
    ∷ "{" ∷ "    ngx_http_rpc_ctx_t *rpc_ctx = (ngx_http_rpc_ctx_t *)p1;" ∷ ""
    ∷ "    RpcChannel *cntl = new RpcChannel(rpc_ctx->r);" ∷ "" ∷ "    cntl->task = _this;"
    ∷ "    cntl->req  = new $PROTO_SERVER_METHOD_REQUEST_NAME$();"
    ∷ "    cntl->res  = new $PROTO_SERVER_METHOD_RESPONSE_NAME$();" ∷ ""
    ∷ "    cntl->done =  std::bind(&RpcChannel::finish_request,"
    ∷ "                                  std::placeholders::_1,"
    ∷ "                                  std::placeholders::_2,"
    ∷ "                                  std::placeholders::_3,"
    ∷ "                                  std::placeholders::_4);" ∷ "" ∷ ""
    ∷ "    NgxChainBufferReader reader(_this->req_bufs);" ∷ ""
    ∷ "    if(!cntl->req->ParseFromZeroCopyStream(&reader))" ∷ "    {"
    ∷ "         ngx_log_error(NGX_LOG_ERR, _this->log, 0,"
    ∷ "                       \"ParseFromZeroCopyStream req_bufs:%p %d\","
    ∷ "                        _this->req_bufs.buf->pos,"
    ∷ "                       (_this->req_bufs.buf->last - _this->req_bufs.buf->pos));" ∷ ""
    ∷ "        cntl->done(cntl, cntl->req, cntl->res, NGX_HTTP_INTERNAL_SERVER_ERROR);"
    ∷ "        return;" ∷ "    }" ∷ ""
    ∷ "    $PROTO_SERVER_NAME$_server * impl = ($PROTO_SERVER_NAME$_server *) rpc_ctx->method->_impl;"
    ∷ "" ∷ "    //call the implement method"
    ∷ "    impl->$PROTO_SERVER_METHOD_NAME$(cntl, ($PROTO_SERVER_METHOD_REQUEST_NAME$*)cntl->req, ($PROTO_SERVER_METHOD_RESPONSE_NAME$*)cntl->res, cntl->done);"
    ∷ "" ∷ "}" ∷ []
