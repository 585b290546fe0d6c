-- ===== src/Tests/Plugins.antt =====
-- The code generator on a file with one service of one method.
use nginx_rpc.Common.{◌≡◌, refl, true, some, [], ◌∷◌, ◌++◌, All}
use nginx_rpc.Memory.{done}
use nginx_rpc.Generator.{Method, Service, File}
use nginx_rpc.Generator.Names.{Text, codes, strip_proto, replace_all, proto}
use nginx_rpc.Generator.Names.Dots.{substitute, replace_all-substitute}
use nginx_rpc.Generator.Module.{Written, written, generate, module_dir}
use nginx_rpc.Generator.Complete.{IsComplete}
use nginx_rpc.Generator.Complete.Plugin.{generate-IsComplete}
use nginx_rpc.Generator.Handlers.{Entry}

abbrev service : Service
service = record {
  name = codes "Application";
  methods =
      record {
        name = codes "interface";
        input_type = codes "Request";
        output_type = codes "Response";
      }
      ∷ [];
}

abbrev inspect : File
inspect = record {
  name = codes "proto/inspect.proto";
  package_name = codes "ngxrpc.inspect";
  services = service ∷ [];
  cc_generic_services = true;
}

replace_all-substitute_example :
    replace_all (codes "a.b") (codes ".") (codes "::") ≡ done (codes "a::b")
unfolding substitute
replace_all-substitute_example = replace_all-substitute 46 (codes "::") (codes "a.b")

generate-IsComplete_example :
    (impl : Written) × (module_cpp : Written) × (config : Written) × (generate inspect
      ≡ done (written (impl ∷ module_cpp ∷ config ∷ [])))
    × (impl.filename
        ≡ module_dir (strip_proto inspect.name) ++ strip_proto inspect.name ++ codes "_impl.h")
    × (module_cpp.filename
        ≡ module_dir (strip_proto inspect.name)
          ++ codes "ngx_http_"
          ++ strip_proto inspect.name
          ++ codes "_module.cpp")
    × (config.filename ≡ module_dir (strip_proto inspect.name) ++ codes "config")
    × All (λ w. All (IsComplete w.delimiter) w.code) (impl ∷ module_cpp ∷ config ∷ [])
generate-IsComplete_example = generate-IsComplete inspect refl

abbrev interface_handler : Entry
interface_handler = (some (codes "application"), some (codes "interface"))
