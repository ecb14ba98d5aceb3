-- ===== src/Database/Tables.antt =====
-- What the database library behind src/db_layer.c documents of its tables: `get` finds what was last
-- put, and nothing else changes them.
use libgate.Base.{ℕ, ◌≡◌, Bool, ◌&&◌, false, Option, some, [], ◌∷◌, ◌==◌, if◌then◌else◌}
use libgate.World.{
  ParamKey, rule_key, sched_key, ParamValue, World, History, Token, read_clock, armed, disarmed,
  written, closed, allocated, freed, asked_time, opened, received, token_put, addr_put, synced,
  scan_timer, created, db_opened, db_closed, cursor_made, cursor_read, param_put, keepalive_timer,
}

module _ (put : History → Bool) where
  -- The token of the last `put` for the card that succeeded, or the one from before.
  unfoldable pub last_token : (ℕ → Option Token) → History → ℕ → Option Token
  last_token old [] c = old c
  last_token old (token_put t ∷ h) c =
      if put (token_put t ∷ h) && t.cid == c then some t else last_token old h c
  last_token old (read_clock ∷ h) c = last_token old h c
  last_token old (armed usec ∷ h) c = last_token old h c
  last_token old (disarmed ∷ h) c = last_token old h c
  last_token old (written fd bytes ∷ h) c = last_token old h c
  last_token old (closed fd ∷ h) c = last_token old h c
  last_token old (allocated ∷ h) c = last_token old h c
  last_token old (freed ∷ h) c = last_token old h c
  last_token old (asked_time ∷ h) c = last_token old h c
  last_token old (opened ∷ h) c = last_token old h c
  last_token old (received fd n ∷ h) c = last_token old h c
  last_token old (synced n ∷ h) c = last_token old h c
  last_token old (scan_timer n ∷ h) c = last_token old h c
  last_token old (created n ∷ h) c = last_token old h c
  last_token old (db_opened n ∷ h) c = last_token old h c
  last_token old (db_closed n ∷ h) c = last_token old h c
  last_token old (cursor_made ∷ h) c = last_token old h c
  last_token old (cursor_read first ∷ h) c = last_token old h c
  last_token old (param_put k v ∷ h) c = last_token old h c
  last_token old (keepalive_timer ∷ h) c = last_token old h c
  last_token old (addr_put b d ∷ h) c = last_token old h c

  unfoldable pub last_addr : (ℕ → Option ℕ) → History → ℕ → Option ℕ
  last_addr old [] a = old a
  last_addr old (addr_put b c ∷ h) a =
      if put (addr_put b c ∷ h) && b == a then some c else last_addr old h a
  last_addr old (read_clock ∷ h) a = last_addr old h a
  last_addr old (armed usec ∷ h) a = last_addr old h a
  last_addr old (disarmed ∷ h) a = last_addr old h a
  last_addr old (written fd bytes ∷ h) a = last_addr old h a
  last_addr old (closed fd ∷ h) a = last_addr old h a
  last_addr old (allocated ∷ h) a = last_addr old h a
  last_addr old (freed ∷ h) a = last_addr old h a
  last_addr old (asked_time ∷ h) a = last_addr old h a
  last_addr old (opened ∷ h) a = last_addr old h a
  last_addr old (received fd n ∷ h) a = last_addr old h a
  last_addr old (synced n ∷ h) a = last_addr old h a
  last_addr old (scan_timer n ∷ h) a = last_addr old h a
  last_addr old (created n ∷ h) a = last_addr old h a
  last_addr old (db_opened n ∷ h) a = last_addr old h a
  last_addr old (db_closed n ∷ h) a = last_addr old h a
  last_addr old (cursor_made ∷ h) a = last_addr old h a
  last_addr old (cursor_read first ∷ h) a = last_addr old h a
  last_addr old (param_put k v ∷ h) a = last_addr old h a
  last_addr old (keepalive_timer ∷ h) a = last_addr old h a
  last_addr old (token_put t ∷ h) a = last_addr old h a

-- The tables behave as documented; there may be tokens from before.
pub record IsStore (w : World) : Type 0 where
  pub tokens : (h : History) (c : ℕ) → w.get_token h c ≡ last_token w.put (w.get_token []) h c
  pub addrs : (h : History) (a : ℕ) → w.get_addr h a ≡ last_addr w.put (w.get_addr []) h a

abbrev pub same_key : ParamKey → ParamKey → Bool
same_key (rule_key r z) (rule_key r' z') = r == r' && z == z'
same_key (sched_key z n) (sched_key z' n') = z == z' && n == n'
same_key (rule_key r z) (sched_key z' n) = false
same_key (sched_key z n) (rule_key r z') = false

-- The value of the last `put` for a parameter that succeeded, or the one from before.
module _ (put : History → Bool) where
  unfoldable pub last_param :
      (ParamKey → Option ParamValue) → History → ParamKey → Option ParamValue
  last_param old [] k = old k
  last_param old (param_put j v ∷ h) k =
      if put (param_put j v ∷ h) && same_key j k then some v else last_param old h k
  last_param old (e ∷ h) k = last_param old h k

-- The table of parameters behaves as documented.
pub record IsParamStore (w : World) : Type 0 where
  pub params :
      (h : History) (k : ParamKey) → w.get_param h k ≡ last_param w.put (w.get_param []) h k
