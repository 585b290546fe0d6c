-- ===== src/Inspect/Answers.antt =====
-- The answers of the built-in service, and its forwarding.
use nginx_rpc.Common.{
  ℕ, zero, suc, Bool, true, ◌∙◌, arith, ◌++◌, drop, append-nil, ◌≤◌, ◌≡◌, refl, sym, ap, subst,
  Option, none, some, List, [], ◌∷◌, length, put_self,
}
use nginx_rpc.Common.Int.{pos}
use nginx_rpc.Heap.{Place, req, res, Heap}
use nginx_rpc.Memory.{done, fault, Callee, Memory, Task, set_task}
use nginx_rpc.Ring.{task}
use nginx_rpc.Notify.{push_task}
use nginx_rpc.Task.Chains.{Holds}
use nginx_rpc.Stream.Writer.Served.{served-Holds}
use nginx_rpc.Channel.{finish_request, forward_request, pass_on, strncpy, give_back, written}
use nginx_rpc.Channel.Reply.{
  serve, stream_out, stream_out-serve, finish_request-served, finish_request-same,
}
use nginx_rpc.Generator.Names.{Text, codes}
use nginx_rpc.Inspect.{
  Write, Parse, interface, requeststatus, forward_path, requeststatus_forward_done, unparsed,
  on_request, application_interface, application_requeststatus, Merge, foward_done,
}

-- Task `t` holds an answer: these bytes in its response chain, their number, and the status.
pub record Answered (t : ℕ) (bs : List ℕ) (status : ℕ) (m : Memory) : Type 0 where
  pub holds : Holds m.heap (some (res t)) (bs ∷ [])
  pub counted : (m.task t).res_length ≡ pos (length bs)
  pub with_status : (m.task t).response_states ≡ status

-- `write` is what NgxShmChainBufferWriter leaves of a message that fits one buffer, where every
-- allocation is granted: the stream's own calls (`stream_out`) end with it.
pub record Streams (serialize : Text → List ℕ) (write : Write) : Type 0 where
  pub granted : ℕ → Bool
  pub fuel : ℕ
  pub all_granted : (k : ℕ) → granted k ≡ true
  pub leaves :
      (json : Text) (t : ℕ) (h : Heap)
      → length (serialize json) ≤ 4096
      → stream_out granted (suc fuel) (serialize json) t h ≡ done (write json t h)

pub Streams-serve :
    {serialize : Text → List ℕ} {write : Write} (streams : Streams serialize write) (json : Text)
    (t : ℕ) (h : Heap)
    → length (serialize json) ≤ 4096
    → write json t h ≡ serve (serialize json) t h
Streams-serve {serialize} streams json t h fits =
    let out =
      stream_out-serve streams.granted streams.fuel t (serialize json) h streams.all_granted fits in
    done-injective (sym (streams.leaves json t h fits) ∙ out)
  where
    done-injective : {x y : Heap × ℕ} → done x ≡ done y → x ≡ y
    done-injective e = cc

-- The status and the text of the answer of `interface`, for what the parser gives.
abbrev pub interface_status : Option Text → ℕ
interface_status none = 500
interface_status (some json) = 200

abbrev pub interface_text : Option Text → Text
interface_text none = []
interface_text (some json) = codes "hehe"

-- What the forwarding of a request leaves in the task.
pub record Forwarded (r channel t : ℕ) (bs : List ℕ) (m : Memory) : Type 0 where
  pub holds : Holds m.heap (some (res t)) (bs ∷ [])
  pub counted : (m.task t).res_length ≡ pos (length bs)
  pub to_path : (m.task t).path ≡ forward_path
  pub on_finish : (m.task t).finish ≡ record { handler = Callee.request_forward; p1 = r }
  pub on_answer : (m.task t).closure ≡ record { handler = Callee.forward_done; p1 = channel }

pass_on-Forwarded :
    (o : Option ℕ) (r channel t : ℕ) (bs : List ℕ) (m : Memory)
    → Forwarded r channel t bs m
    → Forwarded r channel t bs (pass_on o t m)
unfolding pass_on push_task
pass_on-Forwarded none r channel t bs m f = f
pass_on-Forwarded (some d) r channel t bs m f = record {
  holds = f.holds;
  counted = f.counted;
  to_path = f.to_path;
  on_finish = f.on_finish;
  on_answer = f.on_answer;
}

drop-short {ℓ} : {A : Type ℓ} (n : ℕ) (xs : List A) → length xs ≤ n → drop n xs ≡ []
drop-short zero [] le = refl
drop-short zero (x ∷ xs) le = absurd (omega (arith, le))
drop-short (suc n) [] le = refl
drop-short (suc n) (x ∷ xs) le = drop-short n xs (omega (arith, le))

-- Nothing is left of an old path that is not longer.
strncpy-short : (old path : List ℕ) → length old ≤ length path → strncpy old path ≡ path
strncpy-short old path le =
    ap (λ rest. path ++ rest) (drop-short (length path) old le) ∙ append-nil path

served-Forwarded :
    (r channel t : ℕ) (bs : List ℕ) (m : Memory)
    → length (m.task t).path ≤ length forward_path
    → Forwarded r channel t bs (forward_request (serve bs) r channel forward_path t m)
unfolding forward_request
served-Forwarded r channel t bs m short =
    pass_on-Forwarded (m.task t).done_notify r channel t bs _ (record {
      holds = served-Holds (res t) bs m.heap;
      counted = rw put_self refl;
      to_path =
          ap (λ (x : Task). x.path) (put_self m.task t _)
          ∙ strncpy-short (m.task t).path forward_path short;
      on_finish = rw put_self refl;
      on_answer = rw put_self refl;
    })

-- Either handler, on a request without a buffer that is not parsed, reads through NULL.
pub on_request-fault :
    (write : Write) (parse : Parse) (channel r t : ℕ) (m : Memory)
    → (parse t m.heap).0 ≡ none
    → ((parse t m.heap).1.chain (req t)).buf ≡ none
    → (application_interface write parse r t m ≡ fault)
      × (application_requeststatus write parse channel r t m ≡ fault)
unfolding application_interface application_requeststatus on_request unparsed
on_request-fault write parse channel r t m e eb = (
  go (λ json. interface write r t) (parse t m.heap) e eb,
  go (λ json. requeststatus write r channel json t) (parse t m.heap) e eb,
)
  where
    go :
        (call : Text → Memory → Memory) (x : Option Text × Heap)
        → x.0 ≡ none
        → (x.1.chain (req t)).buf ≡ none
        → on_request write call r t m x ≡ fault
    go call (none, h) e eb = rw eb refl
    go call (some json, h) e eb = absurd (cc e)

module _ (serialize : Text → List ℕ) (write : Write) (streams : Streams serialize write) where
  pub finish_request-Answered :
      (r status t : ℕ) (json : Text) (m : Memory)
      → length (serialize json) ≤ 4096
      → Answered t (serialize json) status (finish_request (write json) r status t m)
  finish_request-Answered r status t json m fits =
      let (h, l, s) = finish_request-served r status t (serialize json) m in
      let same =
        finish_request-same (write json) (serve (serialize json)) r status t m
          (Streams-serve streams json t m.heap fits) in
      subst (Answered t (serialize json) status) (sym same)
        (record { holds = h; counted = l; with_status = s })

  pub requeststatus-Forwarded :
      (r channel t : ℕ) (json : Text) (m : Memory)
      → length (serialize json) ≤ 4096
      → length (m.task t).path ≤ length forward_path
      → Forwarded r channel t (serialize json) (requeststatus write r channel json t m)
  unfolding requeststatus forward_request
  requeststatus-Forwarded r channel t json m fits short =
      subst (Forwarded r channel t (serialize json))
        (ap (λ x. forward_request (λ u h. x) r channel forward_path t m)
          (sym (Streams-serve streams json t m.heap fits)))
        (served-Forwarded r channel t (serialize json) m short)

  on_request-Answered :
      (r t : ℕ) (m : Memory) (b : Place) (x : Option Text × Heap)
      → length (serialize (interface_text x.0)) ≤ 4096
      → (x.1.chain (req t)).buf ≡ some b
      → (m' : Memory) × (on_request write (λ json. interface write r t) r t m x ≡ done m')
        × Answered t (serialize (interface_text x.0)) (interface_status x.0) m'
  unfolding on_request unparsed interface
  on_request-Answered r t m b (none, h) fits e =
      (_, rw e refl, finish_request-Answered r 500 t [] (record m { heap = h }) fits)
  on_request-Answered r t m b (some json, h) fits e =
      (_, refl, finish_request-Answered r 200 t (codes "hehe") (record m { heap = h }) fits)

  -- The handler of the method `interface`, on a request whose first buffer is still there when it was
  -- read, when the response has at most 4096 bytes and every allocation of the stream is granted:
  -- it ends, and the task holds the answer, which
  -- is the fixed text with status 200 if the request was parsed, and an empty message with
  -- status 500 if it was not.
  pub application_interface-Answered :
      (parse : Parse) (r t : ℕ) (m : Memory) (b : Place)
      → length (serialize (interface_text (parse t m.heap).0)) ≤ 4096
      → ((parse t m.heap).1.chain (req t)).buf ≡ some b
      → (m' : Memory) × (application_interface write parse r t m ≡ done m')
        × Answered t
            (serialize (interface_text (parse t m.heap).0))
            (interface_status (parse t m.heap).0)
            m'
  unfolding application_interface
  application_interface-Answered parse r t m b fits e =
      on_request-Answered r t m b (parse t m.heap) fits e

  -- A request that requeststatus has parsed, of at most 4096 bytes, is forwarded: its message stands
  -- in the response chain, as the stream leaves it with every allocation granted, bound for the
  -- path of `interface`, if the task has no longer path from before. Whatever has happened in
  -- between to the memory `m2`: where foward_done has parsed the request's chain, and the response
  -- then has a text, of at most 4096 bytes, the task holds this text as its answer, keeps the
  -- status that it had in `m2`, is to be finished for the first request, and is pushed to the
  -- notify `d` that waits for it.
  pub requeststatus-relayed :
      (parse : Parse) (merge : Merge) (channel r d t : ℕ) (json : Text) (m m2 : Memory)
      → (parse t m.heap).0 ≡ some json
      → length (serialize json) ≤ 4096
      → length (serialize (merge t m2.heap).0) ≤ 4096
      → length (m.task t).path ≤ length forward_path
      → (m2.task t).done_notify ≡ some d
      → (m' : Memory) × (m3 : Memory) × (application_requeststatus write parse channel r t m
          ≡ done m')
        × Forwarded r channel t (serialize json) m'
        × (foward_done write merge r t m2 ≡ (push_task d (task t) m3).1)
        × (m3.links ≡ m2.links)
        × Answered t
            (serialize (merge t m2.heap).0)
            (m2.task t).response_states
            (foward_done write merge r t m2)
        × (((foward_done write merge r t m2).task t).finish
            ≡ record { handler = Callee.request_finish; p1 = r })
  unfolding application_requeststatus on_request foward_done requeststatus_forward_done
      finish_request give_back push_task
  requeststatus-relayed parse merge channel r d t json m m2 e fits fits2 short ed =
      let (text, h) = merge t m2.heap in
      let w = written (write text) (m2.task t).response_states t (record m2 { heap = h }) in
      let v : Task = record (w.task t) {
        finish = record { handler = Callee.request_finish; p1 = r };
      } in
      (
        _,
        set_task t v w,
        go (parse t m.heap) e,
        requeststatus-Forwarded r channel t json (record m { heap = (parse t m.heap).1 }) fits
            short,
        ap (λ o. give_back o r t w) ed,
        refl,
        finish_request-Answered r (m2.task t).response_states t (merge t m2.heap).0
            (record m2 { heap = (merge t m2.heap).1 }) fits2,
        ap (λ o. ((give_back o r t w).task t).finish) ed
            ∙ ap (λ (x : Task). x.finish) (put_self w.task t v),
      )
    where
      go :
          (x : Option Text × Heap)
          → x.0 ≡ some json
          → on_request write (λ j. requeststatus write r channel j t) r t m x
            ≡ done (requeststatus write r channel json t (record m { heap = x.1 }))
      go x e = rw e refl
