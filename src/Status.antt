-- ===== src/Status.antt =====
-- The status codes of coakka_runtime_bridge.h and of runtime.h.
use coakka_runtime_swift.Prelude.{ℤ, pos, negsuc}

abbrev pub Status : Type 0
Status = ℤ

-- COAKKA_SWIFT_OK, COAKKA_SWIFT_STATUS_OK and COAKKA_V2_OK are one value.
abbrev pub ok : Status
ok = pos 0

-- The bridge's own failures.
abbrev pub err_load : Status
err_load = negsuc 99

abbrev pub err_symbol : Status
err_symbol = negsuc 100

abbrev pub invalid_arg : Status
invalid_arg = negsuc 0

abbrev pub nomem : Status
nomem = negsuc 1

abbrev pub bad_state : Status
bad_state = negsuc 2

abbrev pub stale_generation : Status
stale_generation = negsuc 3

abbrev pub io : Status
io = negsuc 4

abbrev pub would_block : Status
would_block = negsuc 5

abbrev pub closed : Status
closed = negsuc 6

abbrev pub feature_unavailable : Status
feature_unavailable = negsuc 7

abbrev pub feature_not_entitled : Status
feature_not_entitled = negsuc 8
