-- ===== src/Adapter/Tests.antt =====
-- Runs of src/adapter.c.
use libgate.Base.{◌≡◌, refl, true, false, none, some}
use libgate.Adapter.{log_line, err, info}

lines :
    (log_line 7 true false 2 ≡ some (record { sys = true; std = true; priority = err }))
    × (log_line 7 true true 7 ≡ some (record { sys = false; std = false; priority = info }))
    × (log_line 7 true false 8 ≡ none)
unfolding log_line
lines = (refl, refl, refl)
