-- ===== src/Inspect/Objects.antt =====
-- ngx_rpc_inspect_module with the C++ objects that its handlers make: the channel and the messages.
pub mod Interface
pub mod Forward
pub mod Relayed
use nginx_rpc.Common.{ℕ, zero, suc, Option, none, some, [], put}
use nginx_rpc.Heap
use nginx_rpc.Memory.{Outcome, done, ◌>>=◌, deref}
use nginx_rpc.Channel.Objects.{
  Write, Handler, finish, status_forward, RpcChannel, Objects, World, allocate, look, read_text,
  write_text, construct, finish_call, forward_call, call,
}
use nginx_rpc.Channel.Objects
use nginx_rpc.Generator.Names.{Text, codes}
use nginx_rpc.Inspect.{Parse, forward_path}

-- `new Request()`, `new Response()`, and New of a message.
unfoldable pub new_message : Objects → ℕ × Objects
unfolding allocate
new_message o = let (p, o1) = allocate o in (p, record o1 { text = put o1.text p [] })

-- The first lines of both handlers: the channel with its two messages.
unfoldable pub new_call : (r t : ℕ) → Objects → ℕ × ℕ × ℕ × Objects
unfolding construct new_message
new_call r t o =
    let (cntl, o1) = construct r o in
    let (request, o2) = new_message o1 in
    let (response, o3) = new_message o2 in
    let c = record (o3.channel cntl) {
      task = t;
      req = some request;
      res = some response;
      handler = finish;
    } in
    (cntl, request, response, record o3 { channel = put o3.channel cntl c })

-- Application_server::interface
unfoldable pub interface : (write : Write) (channel req res : ℕ) → Handler → World → Outcome World
unfolding write_text call
interface write channel req res handler w = do
  o ← write_text res (codes "hehe") w.objects
  call 1 write handler channel req res 200 (record w { objects = o })

-- Application_server::requeststatus
unfoldable pub requeststatus :
    (write : Write) (channel req res : ℕ) → Handler → World → Outcome World
unfolding look read_text write_text new_message forward_call
requeststatus write channel req res handler w = do
  c ← look channel w.objects
  let o = record (w.objects) {
    channel = put w.objects.channel channel (record c { handler = handler });
  }
  let (new_req, o1) = new_message o
  json ← read_text req o1
  o2 ← write_text new_req json o1
  let (new_res, o3) = new_message o2
  forward_call write channel forward_path new_req new_res (status_forward channel req res)
      (record w { objects = o3 })

-- What a handler does when the request is parsed, and when it is not.
unfoldable pub on_parsed :
    (write : Write) (method : (channel req res : ℕ) → Handler → World → Outcome World) (t : ℕ)
    → Option Text
    → (cntl request response : ℕ) → World
    → Outcome World
unfolding write_text finish_call
on_parsed write method t none cntl request response w =
    deref (w.memory.heap.chain (Heap.req t)).buf >>= λ b. finish_call write cntl response 500 w
on_parsed write method t (some json) cntl request response w =
    write_text request json w.objects >>= λ o.
    method cntl request response finish (record w { objects = o })

-- A handler of the module, with the objects that it has made.
unfoldable pub handled :
    (write : Write) (method : (channel req res : ℕ) → Handler → World → Outcome World)
    (parse : Parse) (t : ℕ)
    → World
    → ℕ × ℕ × ℕ × Objects
    → Outcome World
unfolding on_parsed
handled write method parse t w (cntl, request, response, o) =
    let (json, h) = parse t w.memory.heap in
    let m = record (w.memory) { heap = h } in
    on_parsed write method t json cntl request response (record { memory = m; objects = o })

-- ngxrpc_inspect_application_interface with the method `interface`, and
-- ngxrpc_inspect_application_requeststatus with `requeststatus`.
unfoldable pub application :
    (write : Write) (method : (channel req res : ℕ) → Handler → World → Outcome World)
    (parse : Parse) (r t : ℕ)
    → World
    → Outcome World
unfolding new_call handled
application write method parse r t w = handled write method parse t w (new_call r t w.objects)
