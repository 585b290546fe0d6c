-- ===== src/Inspect/Objects/Forward.antt =====
-- The objects of a request that the method requeststatus forwards.
use nginx_rpc.Common.{ℕ, suc, ◌<◌, ◌≡◌, ◌≢◌, refl, true, false, none, some, put, arith, []}
use nginx_rpc.Memory.{done}
use nginx_rpc.Channel.Objects.{
  Write, no_handler, Objects, World, finish, status_forward, allocate, delete, look, read_text,
  write_text, construct, finish_call, forward_call, call, foward_done,
}
use nginx_rpc.Generator.Names.{Text}
use nginx_rpc.Inspect
use nginx_rpc.Inspect.{
  Parse, application_requeststatus, requeststatus_forward_done, on_request, Merge,
}
use nginx_rpc.Inspect.Objects.{new_message, requeststatus}
use nginx_rpc.Inspect.Objects.Interface.{Kept, Ready}

-- A request on its way: both channels and the four messages are there.
pub record Forwarding (r t cntl request response new_req new_res new : ℕ) (o : Objects)
    : Type 0 where
  pub channel_alive : o.alive cntl ≡ true
  pub request_alive : o.alive request ≡ true
  pub response_alive : o.alive response ≡ true
  pub new_req_alive : o.alive new_req ≡ true
  pub new_res_alive : o.alive new_res ≡ true
  pub new_alive : o.alive new ≡ true
  pub for_request : (o.channel cntl).r ≡ r
  pub for_task : (o.channel cntl).task ≡ t
  pub its_handler : (o.channel cntl).handler ≡ finish
  pub its_req : (o.channel new).req ≡ some new_req
  pub its_res : (o.channel new).res ≡ some new_res
  pub before : (o.channel new).pre_cntl ≡ cntl
  pub back_to : (o.channel new).handler ≡ status_forward cntl request response
  pub two : cntl ≢ new
  pub apart : response ≢ new_res

-- The objects after requeststatus.
abbrev relayed : (cntl request response : ℕ) → Text → Objects → Objects
relayed cntl request response json o =
    let q = o.fresh in
    let c = put o.channel cntl (record (o.channel cntl) { handler = finish }) in
    let new = record (c (suc (suc q))) {
      r = (c cntl).r;
      req = some q;
      res = some (suc q);
      pre_cntl = cntl;
      handler = status_forward cntl request response;
    } in
    let made = record (c (suc (suc q))) {
      r = (c cntl).r;
      req = none;
      res = none;
      handler = no_handler;
    } in
    record {
      fresh = suc (suc (suc q));
      alive = put (put (put o.alive q true) (suc q) true) (suc (suc q)) true;
      channel = put (put c (suc (suc q)) made) (suc (suc q)) new;
      text = put (put (put o.text q []) q json) (suc q) [];
    }

-- What requeststatus does with a channel and its messages, where the addresses from `new_req` on are
-- free.
pub requeststatus-Forwarding :
    (write : Write) (r t cntl request response : ℕ) (json : Text) (w : World)
    → Ready r t cntl request response w.objects
    → w.objects.text request ≡ json
    → cntl < w.objects.fresh
    → request < w.objects.fresh
    → response < w.objects.fresh
    → let q = w.objects.fresh in
      (w' : World) × (requeststatus write cntl request response finish w ≡ done w')
      × (w'.memory ≡ Inspect.requeststatus write r (suc (suc q)) json t w.memory)
      × Forwarding r t cntl request response q (suc q) (suc (suc q)) w'.objects
      × Kept w.objects w'.objects
      × (w'.objects.fresh ≡ suc (suc (suc q)))
unfolding put requeststatus forward_call Inspect.requeststatus look read_text write_text new_message
    construct allocate
requeststatus-Forwarding write r t cntl request response json w ok text lc lq lp =
    let q = w.objects.fresh in
    let made : Objects = relayed cntl request response json w.objects in
    (
      record {
        memory = Inspect.requeststatus write r (suc (suc q)) json t w.memory;
        objects = made;
      },
      ground arith,
      refl,
      record {
        channel_alive = ground arith;
        request_alive = ground arith;
        response_alive = ground arith;
        new_req_alive = ground arith;
        new_res_alive = ground arith;
        new_alive = ground arith;
        for_request = ground arith;
        for_task = ground arith;
        its_handler = ground arith;
        its_req = ground arith;
        its_res = ground arith;
        before = ground arith;
        back_to = ground arith;
        two = λ e. omega (arith, lc, e);
        apart = λ e. omega (arith, lp, e);
      },
      λ p lt. ground (arith, lt),
      refl,
    )

-- The objects after foward_done, where the answer has the text `json`.
abbrev relayed_back : (cntl response new_res new : ℕ) → Text → Objects → Objects
relayed_back cntl response new_res new json o = record o {
  alive = put (put o.alive cntl false) new false;
  text = put (put o.text new_res json) response json;
}

pub foward_done-Forwarding :
    (fuel : ℕ) (write : Write) (merge : Merge) (r t cntl request response new_req new_res new : ℕ)
    (w : World)
    → Forwarding r t cntl request response new_req new_res new w.objects
    → (w' : World) × (foward_done (suc (suc fuel)) write merge t new w ≡ done w')
      × (w'.memory ≡ Inspect.foward_done write merge r t w.memory)
      × (w'.objects.alive cntl ≡ false)
      × (w'.objects.alive new ≡ false)
      × ((p : ℕ) → p ≢ cntl → p ≢ new → w'.objects.alive p ≡ w.objects.alive p)
unfolding put foward_done look write_text read_text call finish_call delete Inspect.foward_done
    requeststatus_forward_done
foward_done-Forwarding fuel write merge r t cntl request response new_req new_res new w f = (
  record {
    memory = Inspect.foward_done write merge r t w.memory;
    objects = relayed_back cntl response new_res new (merge t w.memory.heap).0 w.objects;
  },
  ground arith,
  refl,
  ground arith,
  ground arith,
  λ p np nn. ground arith,
)
