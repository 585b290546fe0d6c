-- ===== src/Inspect/Objects/Interface.antt =====
-- The objects of a request that the method interface answers.
use nginx_rpc.Common.{
  ℕ, suc, ◌<◌, ◌≡◌, ◌≢◌, refl, ap, ◌∙◌, true, false, Option, none, some, put, put_self, put_ne,
  arith, [],
}
use nginx_rpc.Heap
use nginx_rpc.Heap.{Place}
use nginx_rpc.Memory.{done}
use nginx_rpc.Channel.Objects.{
  Write, Objects, World, finish, allocate, delete, look, read_text, write_text, construct,
  finish_call, call,
}
use nginx_rpc.Channel.{finish_request}
use nginx_rpc.Generator.Names.{Text, codes}
use nginx_rpc.Inspect
use nginx_rpc.Inspect.{Parse, application_interface, on_request, unparsed}
use nginx_rpc.Inspect.Objects.{new_message, new_call, on_parsed, handled, application, interface}

-- The objects that the two states share are those before `fresh`.
abbrev pub Kept : Objects → Objects → Type 0
Kept o o' = (p : ℕ) → p < o.fresh → o'.alive p ≡ o.alive p

-- These objects are also as they were: the channels have the same fields, and the messages the same
-- texts.
abbrev pub Untouched : Objects → Objects → Type 0
Untouched o o' =
    (p : ℕ)
    → p < o.fresh
    → (o'.alive p ≡ o.alive p) × (o'.channel p ≡ o.channel p) × (o'.text p ≡ o.text p)

-- A channel is there with its task and its messages.
pub record Ready (r t cntl request response : ℕ) (o : Objects) : Type 0 where
  pub channel_alive : o.alive cntl ≡ true
  pub request_alive : o.alive request ≡ true
  pub response_alive : o.alive response ≡ true
  pub for_request : (o.channel cntl).r ≡ r
  pub for_task : (o.channel cntl).task ≡ t
  pub its_handler : (o.channel cntl).handler ≡ finish
  pub empty : o.text response ≡ []
  pub different : request ≢ response

-- The objects that a handler begins with.
pub new_call-Ready :
    (r t : ℕ) (o : Objects)
    → (o' : Objects) × (new_call r t o ≡ (o.fresh, suc o.fresh, suc (suc o.fresh), o'))
      × Ready r t o.fresh (suc o.fresh) (suc (suc o.fresh)) o'
      × Untouched o o'
      × (o'.fresh ≡ suc (suc (suc o.fresh)))
unfolding new_call construct new_message allocate put
new_call-Ready r t o = (
  _,
  refl,
  record {
    channel_alive = ground arith;
    request_alive = ground arith;
    response_alive = ground arith;
    for_request = ground arith;
    for_task = ground arith;
    its_handler = ground arith;
    empty = ground arith;
    different = λ e. omega (arith, e);
  },
  λ p lt. (ground arith, ground arith, ground arith),
  refl,
)

-- What is left when a channel has been answered on: the channel is gone, all else is still there, and
-- only the two messages may have another text.
pub record Answered (cntl request response : ℕ) (o o' : Objects) : Type 0 where
  pub gone : o'.alive cntl ≡ false
  pub others : (p : ℕ) → p ≢ cntl → o'.alive p ≡ o.alive p
  pub channels : (p : ℕ) → o'.channel p ≡ o.channel p
  pub texts : (p : ℕ) → p ≢ request → p ≢ response → o'.text p ≡ o.text p
  pub no_new : o'.fresh ≡ o.fresh

pub finish_call-Answered :
    (write : Write) (r t cntl request res result : ℕ) (w : World)
    → w.objects.alive cntl ≡ true
    → w.objects.alive res ≡ true
    → (w.objects.channel cntl).r ≡ r
    → (w.objects.channel cntl).task ≡ t
    → (w' : World) × (finish_call write cntl res result w ≡ done w')
      × (w'.memory ≡ finish_request (write (w.objects.text res)) r result t w.memory)
      × Answered cntl request res w.objects w'.objects
unfolding finish_call look read_text delete
finish_call-Answered write r t cntl request res result w ac ar er et = (
  record {
    memory = finish_request (write (w.objects.text res)) r result t w.memory;
    objects = record (w.objects) { alive = put w.objects.alive cntl false };
  },
  simp (ac, ar, er, et),
  refl,
  record {
    gone = put_self w.objects.alive cntl false;
    others = λ p ne. put_ne w.objects.alive cntl p false ne;
    channels = λ p. refl;
    texts = λ p nq nr. refl;
    no_new = refl;
  },
)

-- A handler of the module that has parsed its request or not, with the method interface.
on_parsed-Answered :
    (write : Write) (r t cntl request response : ℕ) (b : Place) (json : Option Text) (w : World)
    → Ready r t cntl request response w.objects
    → (w.memory.heap.chain (Heap.req t)).buf ≡ some b
    → (w' : World) × (on_parsed write (interface write) t json cntl request response w ≡ done w')
      × (on_request write (λ _. Inspect.interface write r t) r t w.memory (json, w.memory.heap)
          ≡ done w'.memory)
      × Answered cntl request response w.objects w'.objects
unfolding on_parsed interface on_request unparsed Inspect.interface write_text call
on_parsed-Answered write r t cntl request response b none w ok there =
    let (w', ran, same, answered) =
      finish_call-Answered write r t cntl request response 500 w ok.channel_alive ok.response_alive
        ok.for_request ok.for_task in
    (w', rw (there, ran), rw (there, same, ok.empty), answered)
on_parsed-Answered write r t cntl request response b (some json) w ok there =
    let texts = put (put w.objects.text request json) response (codes "hehe") in
    let (w', ran, same, answered) =
      finish_call-Answered write r t cntl request response 200
        (record w { objects = record (w.objects) { text = texts } }) ok.channel_alive
        ok.response_alive ok.for_request ok.for_task in
    (
      w',
      rw (ok.request_alive, ok.response_alive, ran),
      rw (same, put_self),
      record {
        gone = answered.gone;
        others = answered.others;
        channels = answered.channels;
        texts = λ p nq nr.
            answered.texts p nq nr
            ∙ put_ne (put w.objects.text request json) response p (codes "hehe") nr
            ∙ put_ne w.objects.text request p json nq;
        no_new = answered.no_new;
      },
    )

-- A request whose first buffer is still there when it was read, handled by the method interface with
-- its C++ objects, where each address that `new` will give is free: the handler ends, and the
-- memory is as the handler without objects leaves it. No deleted object is used or deleted again,
-- the channel is deleted, all objects from before are as they were, with their fields and texts,
-- and the request and the response that the handler has made are never deleted: two objects are
-- left for every request.
pub interface-leaves_two :
    (write : Write) (parse : Parse) (r t : ℕ) (w : World) (b : Place)
    → ((parse t w.memory.heap).1.chain (Heap.req t)).buf ≡ some b
    → (w' : World) × (application write (interface write) parse r t w ≡ done w')
      × (application_interface write parse r t w.memory ≡ done w'.memory)
      × Untouched w.objects w'.objects
      × (w'.objects.alive w.objects.fresh ≡ false)
      × (w'.objects.alive (suc w.objects.fresh) ≡ true)
      × (w'.objects.alive (suc (suc w.objects.fresh)) ≡ true)
      × (w'.objects.fresh ≡ suc (suc (suc w.objects.fresh)))
unfolding application handled application_interface
interface-leaves_two write parse r t w b there =
    let p = w.objects.fresh in
    let (o, made, ready, kept, three) = new_call-Ready r t w.objects in
    let (json, h) = parse t w.memory.heap in
    let w1 : World = record { memory = record (w.memory) { heap = h }; objects = o } in
    let (w', ran, same, answered) =
      on_parsed-Answered write r t p (suc p) (suc (suc p)) b json w1 ready there in
    (
      w',
      ap (handled write (interface write) parse t w) made ∙ ran,
      same,
      λ q lt.
          let (alive, channel, text) = kept q lt in
          (
            answered.others q (λ e. omega (arith, lt, e)) ∙ alive,
            answered.channels q ∙ channel,
            answered.texts q (λ e. omega (arith, lt, e)) (λ e. omega (arith, lt, e)) ∙ text,
          ),
      answered.gone,
      answered.others (suc p) (λ e. omega (arith, e)) ∙ ready.request_alive,
      answered.others (suc (suc p)) (λ e. omega (arith, e)) ∙ ready.response_alive,
      answered.no_new ∙ three,
    )
