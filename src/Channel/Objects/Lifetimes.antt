-- ===== src/Channel/Objects/Lifetimes.antt =====
-- RpcChannel::destructor, on the objects that a handler has made.
use nginx_rpc.Common.{ℕ, ◌≡◌, ◌≢◌, true, false, some, put, arith}
use nginx_rpc.Memory.{done, fault}
use nginx_rpc.Channel.Objects.{Objects, delete, look, destructor}

-- RpcChannel::destructor on a channel and its two messages, all different and all there, deletes
-- these three and nothing else, and a second call on the same channel uses a deleted object.
pub destructor-deletes_once :
    (p req res : ℕ) (o : Objects)
    → (o.channel p).req ≡ some req
    → (o.channel p).res ≡ some res
    → o.alive p ≡ true
    → o.alive req ≡ true
    → o.alive res ≡ true
    → p ≢ req
    → p ≢ res
    → req ≢ res
    → (o' : Objects) × (destructor p o ≡ done o')
      × (o'.alive p ≡ false)
      × (o'.alive req ≡ false)
      × (o'.alive res ≡ false)
      × ((k : ℕ) → k ≢ p → k ≢ req → k ≢ res → o'.alive k ≡ o.alive k)
      × (destructor p o' ≡ fault)
unfolding put destructor look delete
destructor-deletes_once p req res o eq es ap aq as_ npq nps nqs = (
  record o { alive = put (put (put o.alive req false) res false) p false },
  ground arith,
  ground arith,
  ground arith,
  ground arith,
  λ k x y z. ground arith,
  ground arith,
)
