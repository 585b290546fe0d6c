-- ===== src/Inspect.antt =====
-- ngx_rpc_inspect_module: the service that is built in. A message of it is known by its JSON text;
-- what protobuf makes of one is a parameter: `write` gives the heap after a message was serialized into
-- the response chain of a task, with the bytes that the stream counts, and a parser gives the text
-- it has read, or none if it fails, with the heap after its calls of Next and BackUp.
pub mod Answers
pub mod Journey
pub mod Objects
pub mod Setup
use nginx_rpc.Common.{ℕ, Option, none, some, [], if◌then◌else◌}
use nginx_rpc.Heap.{req, Heap}
use nginx_rpc.Memory.{
  Outcome, done, fault, ◌>>=◌, deref, Callee, unset, forward_done, method, Memory, Closure,
}
use nginx_rpc.Channel.{finish_request, forward_request}
use nginx_rpc.Generator.Names.{Text, codes}

abbrev pub Write : Type 0
Write = Text → (t : ℕ) → Heap → Heap × ℕ

abbrev pub Parse : Type 0
Parse = (t : ℕ) → Heap → Option Text × Heap

-- What a message holds after a parser has run, whether it failed or not, with the heap.
abbrev pub Merge : Type 0
Merge = (t : ℕ) → Heap → Text × Heap

-- Application_server::interface. Its `done` is RpcChannel::finish_request.
unfoldable pub interface : Write → (r t : ℕ) → Memory → Memory
unfolding finish_request
interface write r t m = finish_request (write (codes "hehe")) r 200 t m

-- The path that requeststatus forwards to.
abbrev pub forward_path : Text
forward_path = codes "/ngxrpc/inspect/application/interface"

-- Application_server::requeststatus, on the text of its request; `channel` is the new channel.
unfoldable pub requeststatus : Write → (r channel : ℕ) → (json : Text) → (t : ℕ) → Memory → Memory
unfolding forward_request
requeststatus write r channel json t m = forward_request (write json) r channel forward_path t m

-- Application_server::requeststatus_forward_done: the caller's channel is given the new response.
unfoldable pub requeststatus_forward_done :
    Write → (r : ℕ) → (json : Text) → (new_status t : ℕ) → Memory → Memory
unfolding finish_request
requeststatus_forward_done write r json new_status t m =
    finish_request (write json) r new_status t m

-- Where a handler fails to parse, the message that it logs, as an error, reads the request's first
-- buffer, and it answers with an empty response. The log is taken to record errors.
unfoldable pub unparsed : Write → (r t : ℕ) → Memory → Outcome Memory
unfolding finish_request
unparsed write r t m =
    deref (m.heap.chain (req t)).buf >>= λ b. done (finish_request (write []) r 500 t m)

-- What a handler does when the request is parsed, and when it is not.
unfoldable pub on_request :
    Write
    → (call : Text → Memory → Memory) → (r t : ℕ) → Memory
    → Option Text × Heap
    → Outcome Memory
unfolding unparsed
on_request write call r t m (none, h) = unparsed write r t (record m { heap = h })
on_request write call r t m (some json, h) = done (call json (record m { heap = h }))

-- ngxrpc_inspect_application_interface, for the request `r`.
unfoldable pub application_interface : Write → Parse → (r t : ℕ) → Memory → Outcome Memory
unfolding on_request interface
application_interface write parse r t m =
    on_request write (λ json. interface write r t) r t m (parse t m.heap)

-- ngxrpc_inspect_application_requeststatus
unfoldable pub application_requeststatus :
    Write → Parse → (channel r t : ℕ) → Memory → Outcome Memory
unfolding on_request requeststatus
application_requeststatus write parse channel r t m =
    on_request write (λ json. requeststatus write r channel json t) r t m (parse t m.heap)

-- RpcChannel::foward_done for the channel that requeststatus has made: it parses the request's
-- chain, goes on with what the response then holds, and calls requeststatus_forward_done.
unfoldable pub foward_done : Write → Merge → (r t : ℕ) → Memory → Memory
unfolding requeststatus_forward_done
foward_done write merge r t m =
    let (json, h) = merge t m.heap in
    requeststatus_forward_done write r json (m.task t).response_states t (record m { heap = h })
