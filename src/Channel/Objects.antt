-- ===== src/Channel/Objects.antt =====
-- The C++ objects of ngx_rpc_module/ngx_rpc_channel.h and ngx_rpc_channel.cpp: which channels and
-- messages there are, beside the shared memory. A message is known by its JSON text. A
-- deleted object that is used or deleted again is a fault.
pub mod Lifetimes
use nginx_rpc.Common.{
  ℕ, zero, suc, Bool, true, false, Option, none, some, List, [], put, if◌then◌else◌,
}
use nginx_rpc.Heap.{Heap}
use nginx_rpc.Memory.{Outcome, done, fault, no_fuel, ◌>>=◌, deref, Memory}
use nginx_rpc.Channel.{finish_request, forward_request}
use nginx_rpc.Generator.Names.{Text}

abbrev pub Write : Type 0
Write = Text → (t : ℕ) → Heap → Heap × ℕ

-- An RpcCallHandler: none yet, RpcChannel::finish_request, or
-- Application_server::requeststatus_forward_done with the values that std::bind has kept.
pub data Handler : Type 0 where
  no_handler finish : Handler
  status_forward : (orgin_channel orgin_request orgin_response : ℕ) → Handler

-- The fields of RpcChannel.
pub record RpcChannel : Type 0 where
  pub r : ℕ
  pub task : ℕ
  pub req : Option ℕ
  pub res : Option ℕ
  pub pre_cntl : ℕ
  pub handler : Handler

-- `fresh` is the next address that `new` gives, and `channel` and `text` are what the objects hold.
pub record Objects : Type 0 where
  pub fresh : ℕ
  pub alive : ℕ → Bool
  pub channel : ℕ → RpcChannel
  pub text : ℕ → Text

pub record World : Type 0 where
  pub memory : Memory
  pub objects : Objects

-- `new`, before the constructor.
unfoldable pub allocate : Objects → ℕ × Objects
allocate o = (o.fresh, record o { fresh = suc o.fresh; alive = put o.alive o.fresh true })

-- `delete`, which ignores NULL.
unfoldable pub delete : Option ℕ → Objects → Outcome Objects
delete none o = done o
delete (some p) o = if o.alive p then done (record o { alive = put o.alive p false }) else fault

-- A read of an object.
unfoldable pub look : ℕ → Objects → Outcome RpcChannel
look p o = if o.alive p then done (o.channel p) else fault

unfoldable pub read_text : ℕ → Objects → Outcome Text
read_text p o = if o.alive p then done (o.text p) else fault

-- A write to a message.
unfoldable pub write_text : ℕ → Text → Objects → Outcome Objects
write_text p s o = if o.alive p then done (record o { text = put o.text p s }) else fault

-- The constructor of RpcChannel, with `new`: it leaves `task` and `pre_cntl` as they are.
unfoldable pub construct : (r : ℕ) → Objects → ℕ × Objects
unfolding allocate
construct r o =
    let (p, o1) = allocate o in
    let c = record (o1.channel p) { r = r; req = none; res = none; handler = no_handler } in
    (p, record o1 { channel = put o1.channel p c })

-- RpcChannel::destructor
unfoldable pub destructor : ℕ → Objects → Outcome Objects
unfolding look delete
destructor p o = look p o >>= λ c. delete c.req o >>= λ o1. delete c.res o1 >>= delete (some p)

-- RpcChannel::finish_request with the deletion of the channel at its end.
unfoldable pub finish_call :
    (write : Write) (channel : ℕ) (res : ℕ) (result : ℕ) → World → Outcome World
unfolding look read_text delete finish_request
finish_call write channel res result w = do
  c ← look channel w.objects
  json ← read_text res w.objects
  o ← delete (some channel) w.objects
  done (record { memory = finish_request (write json) c.r result c.task w.memory; objects = o })

-- RpcChannel::forward_request with the new channel.
unfoldable pub forward_call :
    (write : Write) (this : ℕ) (path : Text) (req res : ℕ) → Handler → World → Outcome World
unfolding look read_text construct forward_request
forward_call write this path req res handler w = do
  c ← look this w.objects
  let (p, o) = construct c.r w.objects
  let new = record (o.channel p) {
    pre_cntl = this;
    req = some req;
    res = some res;
    handler = handler;
  }
  json ← read_text req w.objects
  done (record {
    memory = forward_request (write json) c.r p path c.task w.memory;
    objects = record o { channel = put o.channel p new };
  })

-- The call of a handler. requeststatus_forward_done copies the text of the new response, and calls
-- the handler of the channel that it was bound to.
unfoldable pub call :
    (fuel : ℕ) (write : Write) → Handler → (channel req res status : ℕ) → World → Outcome World
unfolding finish_call look read_text write_text
call zero write h channel req res status w = no_fuel
call (suc fuel) write no_handler channel req res status w = fault
call (suc fuel) write finish channel req res status w = finish_call write channel res status w
call (suc fuel) write (status_forward orgin orgin_req orgin_res) channel req res status w = do
  json ← read_text res w.objects
  o ← write_text orgin_res json w.objects
  c ← look orgin o
  call fuel write c.handler orgin req res status (record w { objects = o })

-- RpcChannel::foward_done: `parse` is what parsing the task's request chain gives.
unfoldable pub foward_done :
    (fuel : ℕ) (write : Write) (parse : ℕ → Heap → Text × Heap) (task ctx : ℕ)
    → World
    → Outcome World
unfolding look write_text call delete
foward_done fuel write parse task ctx w = do
  c ← look ctx w.objects
  req ← deref c.req
  res ← deref c.res
  let (json, h) = parse task w.memory.heap
  o ← write_text res json w.objects
  let m = record (w.memory) { heap = h }
  let status = (m.task task).response_states
  w1 ← call fuel write c.handler c.pre_cntl req res status (record { memory = m; objects = o })
  o1 ← delete (some ctx) w1.objects
  done (record w1 { objects = o1 })
