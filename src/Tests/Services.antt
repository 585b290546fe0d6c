-- ===== src/Tests/Services.antt =====
-- The built-in service, with messages that are their own bytes, and a hash that is a list.
use nginx_rpc.Common.{
  ℕ, ◌≡◌, refl, sym, ap, true, Option, none, some, List, [], ◌∷◌, map, length, All, arith,
}
use nginx_rpc.Heap.{pool, Spot, req, Chain}
use nginx_rpc.Ring.{task}
use nginx_rpc.Notify.{push_task}
use nginx_rpc.Task.{zeroed}
use nginx_rpc.Memory.{request_finish, ok, done, Memory}
use nginx_rpc.Channel.Reply.{serve, stream_out-serve}
use nginx_rpc.Generator.Names.{Text, codes}
use nginx_rpc.Http.Routes.{
  MethodConf, HashKey, first_of, NgxHash, Methods, keys_from, postconfiguration, find_method,
}
use nginx_rpc.Http.Routes.Lookup.{first_method, postconfiguration-find_method}
use nginx_rpc.Inspect.{
  Write, Parse, Merge, application_interface, application_requeststatus, foward_done, forward_path,
}
use nginx_rpc.Inspect.Answers.{
  Answered, Forwarded, Streams, application_interface-Answered, requeststatus-relayed,
}
use nginx_rpc.Inspect.Setup.{InspectConf, success, set_application}
use nginx_rpc.Inspect.Setup.Registered.{four_methods, with_files, set_application-find_method}
use nginx_rpc.Tests.Values.{quiet, small_heap}

abbrev pub as_is : Text → List ℕ
as_is s = s

abbrev pub written : Write
written json t h = serve (as_is json) t h

pub written-Streams : Streams as_is written
written-Streams = record {
  granted = λ k. true;
  fuel = 0;
  all_granted = λ k. refl;
  leaves = λ json t h fits. stream_out-serve (λ k. true) 0 t json h (λ k. refl) fits;
}

abbrev pub parsed : Parse
parsed t h = (some (codes "{}"), h)

abbrev pub merged : Merge
merged t h = (codes "{}", h)

-- The request chain of a task has a buffer.
abbrev request_chain : Spot → Chain
request_chain (req t) = record { buf = some (pool 0); next = none }
request_chain s = small_heap.chain s

abbrev pub with_request : Memory
with_request = record quiet { heap = record small_heap { chain = request_chain } }

application_interface-Answered_example :
    (m' : Memory) × (application_interface written parsed 7 4 with_request ≡ done m')
    × Answered 4 (codes "hehe") 200 m'
application_interface-Answered_example =
    application_interface-Answered as_is written written-Streams parsed 7 4 with_request (pool 0)
      (omega arith) refl

-- The subrequest has ended with 200, and notify 2 waits for the task.
abbrev answered_request : Memory
answered_request = record with_request {
  task = λ _. record zeroed { done_notify = some 2; response_states = 200 };
}

requeststatus-relayed_example :
    (m' : Memory) × (m3 : Memory) × (application_requeststatus written parsed 3 7 4 with_request
      ≡ done m')
    × Forwarded 7 3 4 (codes "{}") m'
    × (foward_done written merged 7 4 answered_request ≡ (push_task 2 (task 4) m3).1)
    × (m3.links ≡ answered_request.links)
    × Answered 4 (codes "{}") 200 (foward_done written merged 7 4 answered_request)
    × (((foward_done written merged 7 4 answered_request).task 4).finish
        ≡ record { handler = request_finish; p1 = 7 })
requeststatus-relayed_example =
    requeststatus-relayed as_is written written-Streams parsed merged 3 7 2 4 (codes "{}")
      with_request answered_request refl (omega arith) (omega arith) (omega arith) refl

abbrev list_find : List HashKey → ℕ → Text → Option ℕ
list_find t hash name = first_of name t

list_find_init :
    (keys t : List HashKey) (name : Text)
    → All (λ k. k.key_hash ≡ length k.key) keys
    → some keys ≡ some t
    → list_find t (length name) name ≡ first_of name keys
list_find_init keys t name hashed e = let eq : keys ≡ t = cc e in sym (ap (first_of name) eq)

abbrev list_hash : NgxHash (List HashKey)
list_hash = record {
  key_lc = length;
  init = λ ks. some ks;
  find = list_find;
  find_init = list_find_init;
}

abbrev no_methods : Methods (List HashKey)
no_methods = record { method_array = some []; method_hash = none }

abbrev blank_conf : InspectConf
blank_conf = record {
  application_log = none;
  application_conf_file = [];
  application_log_file = [];
  application_impl = none;
}

abbrev opened : Text → Option ℕ
opened path = some (length path)

abbrev four : List MethodConf
four = four_methods (with_files opened 1 (codes "on" ∷ []) blank_conf)

abbrev four_keys : List HashKey
four_keys = keys_from length 0 four

postconfiguration-find_method_example :
    (postconfiguration list_hash true true (record no_methods { method_array = some four })
      ≡ done (ok, record { method_array = some four; method_hash = some four_keys }))
    × ((uri : Text) → find_method list_hash four_keys uri ≡ first_method 0 uri four)
postconfiguration-find_method_example =
    postconfiguration-find_method list_hash (record no_methods { method_array = some four }) four
      four_keys refl refl

set_application-find_method_example :
    (rpc_conf' : Methods (List HashKey)) × (ms : List MethodConf) × (set_application
        (λ _. true)
        true
        opened
        1
        (codes "set_inspect_application_hanlder" ∷ codes "on" ∷ [])
        (some no_methods)
        blank_conf
      ≡ done (success, some rpc_conf', with_files opened 1 (codes "on" ∷ []) blank_conf))
    × (rpc_conf'.method_array ≡ some ms)
    × (map (λ m. m.handler) ms ≡ 0 ∷ 0 ∷ 1 ∷ 1 ∷ [])
    × (postconfiguration list_hash true true rpc_conf'
        ≡ done (ok, record rpc_conf' { method_hash = some four_keys }))
    × (find_method list_hash four_keys forward_path ≡ some 0)
    × (find_method list_hash four_keys (codes "/ngxrpc/inspect/application/requeststatus") ≡ some 2)
    × (find_method list_hash four_keys (codes "/ngxrpc/inspect/Application/interface") ≡ none)
    × (find_method list_hash four_keys (codes "/ngxrpc/inspect/Application/requeststatus") ≡ none)
set_application-find_method_example =
    set_application-find_method (λ _. true) (λ _. refl) list_hash opened 1
      (codes "set_inspect_application_hanlder") (codes "on" ∷ []) no_methods blank_conf four_keys
      refl refl
