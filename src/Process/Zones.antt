-- ===== src/Process/Zones.antt =====
-- ngx_rpc_module/ngx_rpc_process.c: the configuration of the shared zone and the number of
-- notifies, from the directives to ngx_proc_rpc_init_zone.
use nginx_rpc.Common.{
  ℕ, ◌+◌, ◌*◌, ◌^◌, ◌≡◌, ◌≢◌, ◌≤◌, refl, true, false, Option, none, some, List, [], ◌∷◌, ◌==◌,
  arith,
}
use nginx_rpc.Common.Int.{ℤ, pos, gt}
use nginx_rpc.Memory.{Status, ok, Outcome, done, ◌>>=◌, deref}
use nginx_rpc.Process.{Setup, unset_uint, create_loc_conf, set_shm_size, merge_loc_conf, add_counts}

-- A configuration that asks for one zone, of its own size.
pub record HasZone (size : ℕ) (s : Setup) : Type 0 where
  pub one : s.zones ≡ size ∷ []
  pub own : s.conf.shm_size ≡ size

-- The directives of one location: perhaps a size, then the merge.
directives : (size : Option ℤ) (pagesize : ℕ) → Setup → Outcome (Status × Setup)
unfolding merge_loc_conf set_shm_size
directives none pagesize s = merge_loc_conf true s
directives (some size) pagesize s =
    set_shm_size size pagesize true s >>= λ r. merge_loc_conf true r.1

-- The configuration of a location from its directives, allocated first.
unfoldable pub configured : (size : Option ℤ) (pagesize : ℕ) → Outcome (Status × Setup)
unfolding create_loc_conf directives
configured size pagesize = deref (create_loc_conf true) >>= directives size pagesize

merge-set :
    (s : Setup) → (s.conf.shm_size == unset_uint) ≡ false → merge_loc_conf true s ≡ done (ok, s)
unfolding merge_loc_conf
merge-set s isset = rw isset

-- The size of the zone that the directives ask for.
abbrev pub wanted : Option ℕ → ℕ
wanted none = 2 ^ 30
wanted (some size) = size

-- A size is at least eight pages, and not the mark of an unset size.
abbrev pub Fits : Option ℕ → ℕ → Type 0
Fits none pagesize = Unit
Fits (some size) pagesize = (8 * pagesize ≤ size) × (size ≢ unset_uint)

abbrev pub directive : Option ℕ → Option ℤ
directive none = none
directive (some size) = some (pos size)

-- A location asks for exactly one zone, of its own size: the size that it sets, if that is at least
-- eight pages and not the mark of an unset size, or 1 GiB if it sets none.
pub configured-HasZone :
    (size : Option ℕ) (pagesize : ℕ)
    → Fits size pagesize
    → (s : Setup) × (configured (directive size) pagesize ≡ done (ok, s)) × HasZone (wanted size) s
unfolding configured
configured-HasZone none pagesize fits = (_, refl, record { one = refl; own = refl })
configured-HasZone (some size) pagesize fits =
    let enough : gt (pos (8 * pagesize)) (pos size) ≡ false = ground (arith, fits.0) in
    let isset : (size == unset_uint) ≡ false = ground (arith, fits.1) in
    (
      record {
        conf = record { shpool = none; queue = none; notify = none; shm_size = size };
        zones = size ∷ [];
      },
      rw enough (merge-set _ isset),
      record { one = refl; own = refl },
    )

-- The total of a list.
abbrev sum : List ℕ → ℕ
sum [] = 0
sum (c ∷ cs) = c + sum cs

-- The counting loop of ngx_proc_rpc_master_init adds up the configured counts.
add_counts-sum : (total : ℕ) (counts : List ℕ) → add_counts total counts ≡ total + sum counts
unfolding add_counts
add_counts-sum total [] = omega arith
add_counts-sum total (c ∷ cs) = let ih = add_counts-sum (total + c) cs in omega (arith, ih)
