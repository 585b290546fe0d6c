-- ===== src/Notify/Register.antt =====
-- Binding a notify to a connection: ngx_rpc_notify_register and ngx_rpc_notify_unregister.
use nginx_rpc.Common.{
  ℕ, zero, suc, ◌≤◌, ◌≡◌, refl, Bool, true, false, Option, none, some, List, [], ◌∷◌, ◌||◌, ◌++◌,
  if◌then◌else◌, get_elem?, length, put_self, arith,
}
use nginx_rpc.Common.Int.{ℤ, pos, is_negative, gt}
use nginx_rpc.Memory.{
  default_handler, notify_read, notify_write, add_conn, del_conn, free_conn, close, ok, done, fault,
  Memory, emit,
}
use nginx_rpc.Notify.{bind, register, unregister}

-- The notify `n` is bound to connection `c`, whose events lead back to `n`, and it calls the
-- default handler on `ctx`.
pub record Bound (m : Memory) (n c ctx : ℕ) : Type 0 where
  pub conn : (m.notify n).notify_conn ≡ some c
  pub back : (m.connection c).sockaddr ≡ some n
  pub reads : (m.connection c).read_handler ≡ notify_read
  pub writes : (m.connection c).write_handler ≡ notify_write
  pub on_read : (m.notify n).read_handler ≡ default_handler
  pub on_write : (m.notify n).write_handler ≡ default_handler
  pub with_ctx : (m.notify n).ctx ≡ ctx

bind-Bound : (n ctx c : ℕ) (m : Memory) → Bound (emit (add_conn c) (bind n ctx c m)) n c ctx
unfolding bind
bind-Bound n ctx c m = record {
  conn = rw put_self refl;
  back = rw put_self refl;
  reads = rw put_self refl;
  writes = rw put_self refl;
  on_read = rw put_self refl;
  on_write = rw put_self refl;
  with_ctx = rw put_self refl;
}

-- A slot number below 0 or above the last process's is refused, and nothing changes.
pub register-refused :
    (slot last : ℤ) (conn : Option ℕ) (added : Bool) (slots : List (Option ℕ)) (ctx : ℕ)
    (m : Memory)
    → (is_negative slot || gt slot last) ≡ true
    → register slot last conn added slots ctx m ≡ done (none, m)
unfolding register
register-refused slot last conn added slots ctx m out = rw out refl

-- A slot number from 0 to the last process's, which a slot of the array has: the notify of that
-- slot is bound to the connection, which is offered to the event loop; the caller gets the notify
-- just when the event loop takes it. The rings, the tasks and the buffers stay as they are, and so
-- does the eventfd.
pub register-Bound :
    (s last c : ℕ) (added : Bool) (slots : List (Option ℕ)) (ctx n : ℕ) (m : Memory)
    → s ≤ last
    → get_elem? slots s ≡ some (some n)
    → (m' : Memory) × (register (pos s) (pos last) (some c) added slots ctx m
        ≡ done ((if added then some n else none), m'))
      × Bound m' n c ctx
      × (m'.effects ≡ m.effects ++ add_conn c ∷ [])
      × (m'.links ≡ m.links)
      × ((m'.notify n).event_fd ≡ (m.notify n).event_fd)
unfolding register bind
register-Bound s last c added slots ctx n m le at =
    let inside : gt (pos s) (pos last) ≡ false = ground arith in
    (
      emit (add_conn c) (bind n ctx c m),
      rw inside (rw at refl),
      bind-Bound n ctx c m,
      refl,
      refl,
      rw put_self refl,
    )

-- The slot number one past the end of the array passes the test when it is the last process's, and
-- the read of the array is out of bounds.
pub register-past_end :
    (last : ℕ) (conn : Option ℕ) (added : Bool) (slots : List (Option ℕ)) (ctx : ℕ) (m : Memory)
    → length slots ≡ last
    → register (pos last) (pos last) conn added slots ctx m ≡ fault
unfolding register
register-past_end last conn added slots ctx m len =
    let inside : gt (pos last) (pos last) ≡ false = ground arith in
    let missing : get_elem? slots last ≡ none = past slots last len in rw inside (rw missing refl)
  where
    past : (xs : List (Option ℕ)) (i : ℕ) → length xs ≡ i → get_elem? xs i ≡ none
    past [] i e = refl
    past (x ∷ xs) zero e = absurd (omega (arith, e))
    past (x ∷ xs) (suc i) e = past xs i (omega (arith, e))

-- ngx_rpc_notify_unregister of a bound notify: its connection leaves the event loop, its eventfd is
-- closed and the connection is given back, in this order.
pub unregister-Bound :
    (m : Memory) (n c ctx : ℕ)
    → Bound m n c ctx
    → unregister (some n) m
      ≡ done (
        ok,
        record m {
          effects =
              m.effects ++ del_conn c ∷ [] ++ close (m.notify n).event_fd ∷ [] ++ free_conn c ∷ [];
        },
      )
unfolding unregister
unregister-Bound m n c ctx b = rw b.conn refl
