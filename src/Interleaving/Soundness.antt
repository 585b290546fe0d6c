-- ===== src/Interleaving/Soundness.antt =====
-- The states that the steps of Interleaving lead through, and the lists that they stand for.
use nginx_rpc.Common.{
  ℕ, ◌≡◌, ◌≢◌, ◌⊎◌, inl, inr, refl, sym, ap, ◌∙◌, subst, Bool, true, false, some, List, [], ◌∷◌,
  ◌++◌, map, NotIn, put, put_self, put_ne, ℕ_discrete,
}
use mathlib.Core.List.{Memᴰ}
use mathlib.Core.List.Memᴰ
use nginx_rpc.Ring.{Node, task}
use nginx_rpc.Memory.{ok, error, done}
use nginx_rpc.RpcQueue.View.{View, Represents, Unplaced, enqueue, dequeue}
use nginx_rpc.Interleaving.{Whereabouts, waiting, held, sent, State, Event}
use nginx_rpc.Interleaving.Board
use nginx_rpc.Interleaving.Board.{Board, Move}

-- The task is in no queue, since a process has it or it is on its way to one.
abbrev pub Away : Whereabouts → Type 0
Away waiting = ⊥
Away held = Unit
Away (sent n) = Unit

-- The pointers hold a view in which each task that is away waits nowhere, each task that waits does
-- so at a notify that there is, the processes in the idle ring are those that are offered, and a task
-- on its way goes to a notify that there is.
pub record Sound (live : ℕ → Bool) (s : State) : Type 0 where
  pub view : View
  pub rings : Represents s.memory.links view
  pub same_live : (n : ℕ) → view.live n ≡ live n
  pub away : (t : ℕ) → Away (s.whereabouts t) → Unplaced t view
  pub queued :
      (t : ℕ) → s.whereabouts t ≡ waiting → (n : ℕ) × (live n ≡ true) × Memᴰ t (view.pending n)
  pub listed : (n : ℕ) → s.offered n ≡ true → Memᴰ n view.idle
  pub busy : (n : ℕ) → s.offered n ≡ false → NotIn n view.idle
  pub bound : (t n : ℕ) → s.whereabouts t ≡ sent n → live n ≡ true

-- The lists of a state, by the view that its pointers hold.
abbrev pub board : State → View → Board
board s v = record { queues = v.pending; idle = v.idle; whereabouts = s.whereabouts }

-- The state `s'` is sound too, and to be got on the lists, with the event `e`.
abbrev pub Onward : (live : ℕ → Bool) (s s' : State) → Sound live s → Event → Type 0
Onward live s s' g e =
    (g' : Sound live s') × (step : Move live (board s g.view) (board s' g'.view)) × (Board.event
        step
      ≡ e)

-- Lists with one task more, or one less.
pub NotIn-append_one : (x t : ℕ) (ts : List ℕ) → x ≢ t → NotIn x ts → NotIn x (ts ++ t ∷ [])
NotIn-append_one x t [] ne out = (ne, tt)
NotIn-append_one x t (y ∷ ys) ne out = (out.0, NotIn-append_one x t ys ne out.1)

pub Unplaced-enqueue : (v : View) (n t x : ℕ) → x ≢ t → Unplaced x v → Unplaced x (enqueue n t v)
Unplaced-enqueue v n t x ne out k = elim (ℕ_discrete k n) [
  | yes e ↦
      subst (λ j. NotIn x (put v.pending n (v.pending n ++ t ∷ []) j)) (sym e)
        (rw put_self (NotIn-append_one x t (v.pending n) ne (out n)))
  | no kn ↦ rw (put_ne v.pending n k (v.pending n ++ t ∷ []) kn) (out k)
]

-- A store with one place replaced, at any place.
pub put_cases {ℓ} :
    {A : Type ℓ} (f : ℕ → A) (i : ℕ) (a : A) (j : ℕ)
    → ((j ≡ i) × (put f i a j ≡ a)) ⊎ ((j ≢ i) × (put f i a j ≡ f j))
put_cases f i a j = elim (ℕ_discrete j i) [
  | yes e ↦ inl (e, ap (put f i a) e ∙ put_self f i a)
  | no ne ↦ inr (ne, put_ne f i j a ne)
]

pub waiting_not_sent : {n : ℕ} → waiting ≢ sent n
waiting_not_sent e = cc e

pub held_not_sent : {n : ℕ} → held ≢ sent n
held_not_sent e = cc e

pub held_not_waiting : held ≢ waiting
held_not_waiting e = cc e

pub sent-injective : {n k : ℕ} → sent n ≡ sent k → n ≡ k
sent-injective e = cc e

pub error_not_ok : error ≢ ok
error_not_ok e = cc e

pub true_not_false : true ≢ false
true_not_false e = cc e

pub popped_task : {t u : ℕ} → some (task t) ≡ some (task u) → t ≡ u
popped_task e = cc e

pub done-injective {ℓ} : {A : Type ℓ} {a b : A} → done a ≡ done b → a ≡ b
done-injective e = cc e

pub NotIn-back : (f : ℕ → Node) (x : ℕ) (ys : List ℕ) → NotIn (f x) (map f ys) → NotIn x ys
NotIn-back f x [] out = tt
NotIn-back f x (y ∷ ys) out = ((λ e. out.0 (ap f e)), NotIn-back f x ys out.1)

-- A queue without its first task.
pub Unplaced-dequeue :
    (v : View) (n t x : ℕ) (ts : List ℕ)
    → v.pending n ≡ t ∷ ts
    → Unplaced x v
    → Unplaced x (dequeue n ts v)
Unplaced-dequeue v n t x ts e out k = elim (put_cases v.pending n ts k) [
  | inl p ↦ subst (NotIn x) (sym p.1) (subst (NotIn x) e (out n)).1
  | inr p ↦ subst (NotIn x) (sym p.1) (out k)
]

pub mem-enqueue :
    (v : View) (n t x k : ℕ) → Memᴰ x (v.pending k) → Memᴰ x ((enqueue n t v).pending k)
mem-enqueue v n t x k at = elim (put_cases v.pending n (v.pending n ++ t ∷ []) k) [
  | inl p ↦
      subst (Memᴰ x) (sym p.1)
        (Memᴰ.append_left (t ∷ []) (subst (λ j. Memᴰ x (v.pending j)) p.0 at))
  | inr p ↦ subst (Memᴰ x) (sym p.1) at
]

pub mem_last : (v : View) (n t : ℕ) → Memᴰ t ((enqueue n t v).pending n)
mem_last v n t =
    subst (Memᴰ t) (sym (put_self v.pending n _)) (Memᴰ.append_right (v.pending n) (Memᴰ.head refl))

pub mem_rest {ℓ} : {A : Type ℓ} {a b : A} {xs : List A} → a ≢ b → Memᴰ a (b ∷ xs) → Memᴰ a xs
mem_rest ne (Memᴰ.head e) = absurd (ne e)
mem_rest ne (Memᴰ.tail at) = at

pub mem-dequeue :
    (v : View) (n t x k : ℕ) (ts : List ℕ)
    → v.pending n ≡ t ∷ ts
    → x ≢ t
    → Memᴰ x (v.pending k)
    → Memᴰ x ((dequeue n ts v).pending k)
mem-dequeue v n t x k ts e ne at = elim (put_cases v.pending n ts k) [
  | inl p ↦
      subst (Memᴰ x) (sym p.1)
        (mem_rest ne (subst (Memᴰ x) e (subst (λ j. Memᴰ x (v.pending j)) p.0 at)))
  | inr p ↦ subst (Memᴰ x) (sym p.1) at
]
