-- ===== src/Notify/Wake.antt =====
-- A wake-up of a process: the loop of ngx_rpc_notify_read_handler.
use nginx_rpc.Common.{ℕ, zero, suc, ◌≡◌, refl, ap, ◌∙◌, true, false, some, List, ◌∷◌, if◌then◌else◌}
use nginx_rpc.Common.Int.{ℤ, is_positive}
use nginx_rpc.Memory.{Callback, Outcome, done, fault, no_fuel, ◌>>=◌, deref, Memory}
use nginx_rpc.Notify.{Handler, read_loop, read_handler}

-- The eventfd gives `k` successful reads and then one that fails.
pub data Reads : ℕ → List ℤ → Type 0 where
  fails : {ret : ℤ} {reads : List ℤ} → is_positive ret ≡ false → Reads 0 (ret ∷ reads)
  succeeds :
      {k : ℕ} {ret : ℤ} {reads : List ℤ}
      → is_positive ret ≡ true
      → Reads k reads
      → Reads (suc k) (ret ∷ reads)

-- `k` runs, one after the other, for as long as they end.
abbrev pub repeat : ℕ → (Memory → Outcome Memory) → Memory → Outcome Memory
repeat zero f m = done m
repeat (suc k) f m = f m >>= repeat k f

-- The notify `n` runs `callback` on `ctx` when it is read.
pub record Runs (n : ℕ) (callback : Callback) (ctx : ℕ) (m : Memory) : Type 0 where
  pub handler : (m.notify n).read_handler ≡ callback
  pub argument : (m.notify n).ctx ≡ ctx

bind-ext :
    (o : Outcome Memory) (f g : Memory → Outcome Memory)
    → ((m : Memory) → o ≡ done m → f m ≡ g m)
    → (o >>= f) ≡ (o >>= g)
bind-ext (done m) f g same = same m refl
bind-ext fault f g same = refl
bind-ext no_fuel f g same = refl

module _ (call : Handler) (n : ℕ) (callback : Callback) (ctx : ℕ)
    (keeps : (m m' : Memory)
      → Runs n callback ctx m
      → call callback ctx m ≡ done m'
      → Runs n callback ctx m') where
  read_loop-repeat :
      {k : ℕ} {reads : List ℤ} (m : Memory)
      → Reads k reads
      → Runs n callback ctx m
      → read_loop call n reads m ≡ repeat (suc k) (call callback ctx) m
  unfolding read_loop
  read_loop-repeat m (fails {reads} e) r =
      rw (r.handler, r.argument)
        (bind-ext (call callback ctx m) _ done
          (λ m' ran. ap (λ b. if b then read_loop call n reads m' else done m') e))
  read_loop-repeat m (succeeds {k} {reads} e rest) r =
      rw (r.handler, r.argument)
        (bind-ext (call callback ctx m) _ (repeat (suc k) (call callback ctx)) (λ m' ran.
          ap (λ b. if b then read_loop call n reads m' else done m') e
          ∙ read_loop-repeat m' rest (keeps m m' r ran)))

  -- A wake-up of a bound notify whose handler stays the same while it runs: after `k` successful
  -- reads and one that fails the handler has run once more than there were successful reads.
  pub read_handler-repeat :
      {k : ℕ} {reads : List ℤ} (c : ℕ) (m : Memory)
      → (m.connection c).sockaddr ≡ some n
      → Reads k reads
      → Runs n callback ctx m
      → read_handler call c reads m ≡ repeat (suc k) (call callback ctx) m
  unfolding read_handler
  read_handler-repeat {reads} c m es rs r =
      ap (λ o. deref o >>= λ j. read_loop call j reads m) es ∙ read_loop-repeat m rs r
