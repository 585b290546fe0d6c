-- ===== src/Inspect/Objects/Relayed.antt =====
-- A request that requeststatus forwards, from its arrival to its answer, with its objects.
use nginx_rpc.Common.{
  ℕ, suc, ◌<◌, subst, ◌≡◌, ◌≢◌, sym, ap, ◌∙◌, true, false, some, put, put_self, put_ne, arith,
}
use nginx_rpc.Memory.{done}
use nginx_rpc.Channel.Objects.{Write, Objects, World, write_text, foward_done, RpcChannel}
use nginx_rpc.Generator.Names.{Text}
use nginx_rpc.Inspect
use nginx_rpc.Inspect.{
  Parse, application_requeststatus, requeststatus_forward_done, on_request, Merge,
}
use nginx_rpc.Inspect.Objects.{on_parsed, handled, application, requeststatus}
use nginx_rpc.Inspect.Objects.Interface.{Kept, Ready, new_call-Ready}
use nginx_rpc.Inspect.Objects.Forward.{Forwarding, requeststatus-Forwarding, foward_done-Forwarding}

-- The objects of `o` are in `o2` as they were; there may be others.
pub record Unchanged (o o2 : Objects) : Type 0 where
  pub alive : (p : ℕ) → p < o.fresh → o2.alive p ≡ o.alive p
  pub channel : (p : ℕ) → p < o.fresh → o2.channel p ≡ o.channel p

Forwarding-Unchanged :
    {r t cntl request response q : ℕ} {o : Objects} (o2 : Objects)
    → Unchanged o o2
    → o.fresh ≡ suc (suc (suc q))
    → cntl < q
    → request < q
    → response < q
    → Forwarding r t cntl request response q (suc q) (suc (suc q)) o
    → Forwarding r t cntl request response q (suc q) (suc (suc q)) o2
Forwarding-Unchanged {cntl = cntl} {q = q} o2 same size lc lq lp f =
    let old = same.channel cntl (omega (arith, size, lc)) in
    let new = same.channel (suc (suc q)) (omega (arith, size)) in
    record {
      channel_alive = same.alive _ (omega (arith, size, lc)) ∙ f.channel_alive;
      request_alive = same.alive _ (omega (arith, size, lq)) ∙ f.request_alive;
      response_alive = same.alive _ (omega (arith, size, lp)) ∙ f.response_alive;
      new_req_alive = same.alive _ (omega (arith, size)) ∙ f.new_req_alive;
      new_res_alive = same.alive _ (omega (arith, size)) ∙ f.new_res_alive;
      new_alive = same.alive _ (omega (arith, size)) ∙ f.new_alive;
      for_request = ap (λ (c : RpcChannel). c.r) old ∙ f.for_request;
      for_task = ap (λ (c : RpcChannel). c.task) old ∙ f.for_task;
      its_handler = ap (λ (c : RpcChannel). c.handler) old ∙ f.its_handler;
      its_req = ap (λ (c : RpcChannel). c.req) new ∙ f.its_req;
      its_res = ap (λ (c : RpcChannel). c.res) new ∙ f.its_res;
      before = ap (λ (c : RpcChannel). c.pre_cntl) new ∙ f.before;
      back_to = ap (λ (c : RpcChannel). c.handler) new ∙ f.back_to;
      two = f.two;
      apart = f.apart;
    }

-- The handler of requeststatus has parsed its request.
on_parsed-Forwarding :
    (write : Write) (r t cntl request response : ℕ) (json : Text) (w : World)
    → Ready r t cntl request response w.objects
    → cntl < w.objects.fresh
    → request < w.objects.fresh
    → response < w.objects.fresh
    → let q = w.objects.fresh in
      (w' : World) × (on_parsed write (requeststatus write) t (some json) cntl request response w
        ≡ done w')
      × (w'.memory ≡ Inspect.requeststatus write r (suc (suc q)) json t w.memory)
      × Forwarding r t cntl request response q (suc q) (suc (suc q)) w'.objects
      × Kept w.objects w'.objects
      × (w'.objects.fresh ≡ suc (suc (suc q)))
unfolding on_parsed write_text
on_parsed-Forwarding write r t cntl request response json w ok lc lq lp =
    let o : Objects = record (w.objects) { text = put w.objects.text request json } in
    let ready : Ready r t cntl request response o = record {
      channel_alive = ok.channel_alive;
      request_alive = ok.request_alive;
      response_alive = ok.response_alive;
      for_request = ok.for_request;
      for_task = ok.for_task;
      its_handler = ok.its_handler;
      empty = put_ne w.objects.text request response json (λ e. ok.different (sym e)) ∙ ok.empty;
      different = ok.different;
    } in
    let (w', ran, same, fwd, kept, three) =
      requeststatus-Forwarding write r t cntl request response json (record w { objects = o }) ready
        (put_self w.objects.text request json) lc lq lp in
    (w', rw (ok.request_alive, ran), same, fwd, kept, three)

-- A request that requeststatus has with its C++ objects, where each address that `new` will
-- give is free: it is forwarded, and the memory is as the handler without objects leaves it. Then
-- the memory changes, and other objects may come, while those that are there stay as they are; and
-- then foward_done ends, and leaves the memory as foward_done without objects does. No deleted object
-- is used or deleted again, both channels are deleted, and no other object is: the four messages
-- are left.
pub requeststatus-leaves_four :
    (fuel : ℕ) (write : Write) (parse : Parse) (merge : Merge) (r t : ℕ) (json : Text)
    (later : World → World) (w : World)
    → (parse t w.memory.heap).0 ≡ some json
    → ((v : World) → Unchanged v.objects (later v).objects)
    → let p = w.objects.fresh in
      let p1 = suc p in
      let p2 = suc p1 in
      let p3 = suc p2 in
      let p4 = suc p3 in
      let p5 = suc p4 in
      (w1 : World) × (w3 : World) × (application write (requeststatus write) parse r t w ≡ done w1)
      × (application_requeststatus write parse p5 r t w.memory ≡ done w1.memory)
      × Kept w.objects w1.objects
      × (foward_done (suc (suc fuel)) write merge t p5 (later w1) ≡ done w3)
      × (w3.memory ≡ Inspect.foward_done write merge r t (later w1).memory)
      × (w3.objects.alive p ≡ false)
      × (w3.objects.alive p5 ≡ false)
      × (w3.objects.alive p1 ≡ true)
      × (w3.objects.alive p2 ≡ true)
      × (w3.objects.alive p3 ≡ true)
      × (w3.objects.alive p4 ≡ true)
      × ((k : ℕ) → k ≢ p → k ≢ p5 → w3.objects.alive k ≡ (later w1).objects.alive k)
unfolding application handled application_requeststatus on_request
requeststatus-leaves_four fuel write parse merge r t json later w e un =
    let p = w.objects.fresh in
    let p1 = suc p in
    let p2 = suc p1 in
    let p3 = suc p2 in
    let p4 = suc p3 in
    let p5 = suc p4 in
    let (o, made, ready, kept, three) = new_call-Ready r t w.objects in
    let h = (parse t w.memory.heap).1 in
    let w0 : World = record { memory = record (w.memory) { heap = h }; objects = o } in
    let (w1, ran, same, fwd, kept1, three1) =
      on_parsed-Forwarding write r t p p1 p2 json w0 ready (omega (arith, three))
        (omega (arith, three)) (omega (arith, three)) in
    let four : Forwarding r t p p1 p2 p3 p4 p5 w1.objects =
      subst (λ q. Forwarding r t p p1 p2 q (suc q) (suc (suc q)) w1.objects) three fwd in
    let f =
      Forwarding-Unchanged (later w1).objects (un w1) (three1 ∙ ap (λ q. suc (suc (suc q))) three)
        (omega arith) (omega arith) (omega arith) four in
    let (w3, done3, mem3, gone, gone2, others) =
      foward_done-Forwarding fuel write merge r t p p1 p2 p3 p4 p5 (later w1) f in
    (
      w1,
      w3,
      ap (handled write (requeststatus write) parse t w) made
          ∙ ap (λ j. on_parsed write (requeststatus write) t j p p1 p2 w0) e
          ∙ ran,
      ap
            (λ j.
              on_request write (λ json'. Inspect.requeststatus write r p5 json' t) r t w.memory
                (j, h))
            e
          ∙ ap done (
              ap (λ q. Inspect.requeststatus write r (suc (suc q)) json t w0.memory) (sym three)
              ∙ sym same),
      λ k lt. kept1 k (omega (arith, lt, three)) ∙ (kept k lt).0,
      done3,
      mem3,
      gone,
      gone2,
      others p1 (λ x. omega (arith, x)) (λ x. omega (arith, x)) ∙ f.request_alive,
      others p2 (λ x. omega (arith, x)) (λ x. omega (arith, x)) ∙ f.response_alive,
      others p3 (λ x. omega (arith, x)) (λ x. omega (arith, x)) ∙ f.new_req_alive,
      others p4 (λ x. omega (arith, x)) (λ x. omega (arith, x)) ∙ f.new_res_alive,
      others,
    )
