-- ===== src/Port/Retry/Spaced.antt =====
-- When the port was tried, and how far apart the tries are, for `gp_reconnect` of src/gp_port.c.
use libgate.Base.{ℕ, ◌+◌, ◌≤◌, arith, ◌∷◌, [], ◌++◌, List}
use libgate.World.{
  World, History, read_clock, armed, disarmed, written, closed, allocated, freed, asked_time,
  opened, received, token_put, addr_put, synced, scan_timer, created, db_opened, db_closed,
  cursor_made, cursor_read, param_put, keepalive_timer,
}

-- What the clock showed whenever the port was tried, the last try first.
unfoldable pub tried_at : World → History → List ℕ
tried_at w [] = []
tried_at w (read_clock ∷ h) = tried_at w h
tried_at w (armed usec ∷ h) = tried_at w h
tried_at w (disarmed ∷ h) = tried_at w h
tried_at w (written fd bytes ∷ h) = tried_at w h
tried_at w (closed fd ∷ h) = tried_at w h
tried_at w (allocated ∷ h) = tried_at w h
tried_at w (freed ∷ h) = tried_at w h
tried_at w (asked_time ∷ h) = tried_at w h
tried_at w (opened ∷ h) = w.time h ∷ tried_at w h
tried_at w (received fd n ∷ h) = tried_at w h
tried_at w (token_put token ∷ h) = tried_at w h
tried_at w (addr_put addr cid ∷ h) = tried_at w h
tried_at w (synced n ∷ h) = tried_at w h
tried_at w (scan_timer n ∷ h) = tried_at w h
tried_at w (created n ∷ h) = tried_at w h
tried_at w (db_opened n ∷ h) = tried_at w h
tried_at w (db_closed n ∷ h) = tried_at w h
tried_at w (cursor_made ∷ h) = tried_at w h
tried_at w (cursor_read first ∷ h) = tried_at w h
tried_at w (param_put k v ∷ h) = tried_at w h
tried_at w (keepalive_timer ∷ h) = tried_at w h

-- The last of these times, or `start` where there is none.
unfoldable pub latest : ℕ → List ℕ → ℕ
latest start [] = start
latest start (x ∷ xs) = x

-- Each of these times is 16 seconds or more behind the one before, and the first behind `start`.
unfoldable pub IsSpaced : ℕ → List ℕ → Type 0
IsSpaced start [] = Unit {0}
IsSpaced start (x ∷ xs) = (latest start xs + 16 ≤ x) × IsSpaced start xs

pub latest-append :
    (start mid : ℕ) (xs ys : List ℕ)
    → latest start ys ≤ mid
    → latest start (xs ++ ys) ≤ latest mid xs
unfolding latest
latest-append start mid [] ys h = h
latest-append start mid (x ∷ xs) ys h = omega arith

pub IsSpaced-append :
    (start mid : ℕ) (xs ys : List ℕ)
    → IsSpaced start ys
    → latest start ys ≤ mid
    → IsSpaced mid xs
    → IsSpaced start (xs ++ ys)
unfolding IsSpaced
IsSpaced-append start mid [] ys old h new = old
IsSpaced-append start mid (x ∷ xs) ys old h (far, new) =
    (omega (arith, latest-append start mid xs ys h), IsSpaced-append start mid xs ys old h new)
