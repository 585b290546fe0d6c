-- ===== src/TestCase.antt =====
-- test/ngx_core_test_case_module.c: the process that runs the tests inside nginx. `test_main` is
-- linked from elsewhere; what it returns is an argument, and its calls are counted.
use nginx_rpc.Common.{ℕ, suc, ◌≡◌, refl, Bool, true, false, Option, none, some, if◌then◌else◌, ◌==◌}
use nginx_rpc.Memory.{Status, ok, declined}

-- `ngx_core_test_case_conf_t`, as far as it is used. None is NGX_CONF_UNSET.
pub record Conf : Type 0 where
  pub enable : Option ℕ
  pub port : Option ℕ

-- ngx_core_test_case_create_conf, on what ngx_pcalloc returns: test_main runs all the same.
unfoldable pub create_conf : (allocated : Bool) → (calls : ℕ) → Option Conf × ℕ
create_conf false calls = (none, suc calls)
create_conf true calls = (some (record { enable = none; port = none }), suc calls)

-- ngx_conf_merge_uint_value and ngx_conf_merge_off_value: the value, that of the outer
-- configuration, or the default.
unfoldable pub merge_value : (default : ℕ) (prev value : Option ℕ) → Option ℕ
merge_value default prev (some v) = some v
merge_value default (some p) none = some p
merge_value default none none = some default

-- ngx_core_test_case_merge_conf
unfoldable pub merge_conf : (parent child : Conf) → Conf
unfolding merge_value
merge_conf prev conf = record {
  enable = merge_value 0 prev.enable conf.enable;
  port = merge_value 0 prev.port conf.port;
}

-- The directive `test`: ngx_conf_set_flag_slot takes it once. Nothing sets `port`.
unfoldable pub set_enable : (on : Bool) → Conf → Conf
set_enable on conf = record conf { enable = some (if on then 1 else 0) }

-- A field of a merged configuration is zero.
abbrev pub is_zero : Option ℕ → Bool
is_zero none = false
is_zero (some n) = n == 0

-- ngx_core_test_case_prepare
unfoldable pub prepare : Conf → Status
prepare conf = if is_zero conf.enable then declined else if is_zero conf.port then declined else ok

-- ngx_core_test_case_process_init returns what test_main does.
unfoldable pub process_init : (tested : Status) (calls : ℕ) → Status × ℕ
process_init tested calls = (tested, suc calls)

-- ngx_core_test_case_loop
unfoldable pub loop : Status
loop = ok

-- What the directives make of a fresh configuration.
unfoldable pub with_directive : Option Bool → Conf
unfolding set_enable
with_directive none = record { enable = none; port = none }
with_directive (some on) = set_enable on (record { enable = none; port = none })

no_port : (d : Option Bool) → (with_directive d).port ≡ none
unfolding with_directive
no_port none = refl
no_port (some on) = refl

either_way : (b : Bool) → (if b then declined else declined) ≡ declined
either_way true = refl
either_way false = refl

-- A configuration of a location, with or without the directive, inside one that was made in the same
-- way: since nothing sets the port, ngx_core_test_case_prepare always declines, whatever the
-- directives say.
pub prepare-declined :
    (outer inner : Option Bool)
    → prepare (merge_conf (with_directive outer) (with_directive inner)) ≡ declined
unfolding prepare merge_conf merge_value
prepare-declined outer inner = rw (no_port outer, no_port inner) (either_way _)
