-- ===== src/Database.antt =====
-- src/db_layer.c: the tokens that the application knows, in tables of a database library: opening and
-- closing them, the tokens, and the cursor; the parameters are in a module of their own.
mod Tests
pub mod Params
pub mod Cursor
pub mod Quiet
pub mod Tables
pub mod RoundTrip
use libgate.Base.{
  ℕ, ◌+◌, ◌-◌, ◌%◌, ◌^◌, Bool, true, false, ◌&&◌, Option, none, some, List, [], ◌∷◌, not, ◌==◌, leb,
  if◌then◌else◌,
}
use libgate.World.{
  World, History, Token, token_put, addr_put, synced, created, db_opened, db_closed, cursor_made,
  cursor_read,
}
use libgate.Gate.{Gate}
use libgate.Gate.Action.{Action, pure, ◌>>=◌, ◌>>◌, gets, modify, request}

module _ (w : World) where
  -- A table is synced if the one before it was.
  unfoldable pub db_sync : Action ℕ
  db_sync = do
    request (synced 0)
    tokens ← gets (λ s. w.sync s.history)
    (if not tokens then pure 0 else (do
      request (synced 1)
      addrs ← gets (λ s. w.sync s.history)
      (if not addrs then pure 0 else (do
        request (synced 2)
        params ← gets (λ s. w.sync s.history)
        pure (if params then 1 else 0)))))

  -- A table is created and opened if those before it were: 0 is the tokens, 1 the addresses and 2
  -- the parameters.
  unfoldable pub open_tables : List ℕ → Action ℕ
  open_tables [] = do r ← db_sync; pure 1
  open_tables (n ∷ rest) =
      let others = open_tables rest in
      do
        request (created n)
        made ← gets (λ s. w.create s.history)
        (if not made then pure 0 else (do
          request (db_opened n)
          ready ← gets (λ s. w.open_table s.history)
          (if not ready then pure 0 else others)))

  unfoldable pub db_init : Action ℕ
  unfolding open_tables
  db_init = open_tables (0 ∷ 1 ∷ 2 ∷ [])

  unfoldable pub close_tables : List ℕ → Action ℕ
  close_tables [] = pure 1
  close_tables (n ∷ rest) =
      let others = close_tables rest in
      do
        request (db_closed n)
        shut ← gets (λ s. w.close_table s.history)
        (if not shut then pure 0 else others)

  unfoldable pub db_close : Action ℕ
  unfolding close_tables
  db_close = close_tables (0 ∷ 1 ∷ 2 ∷ [])

  -- The cursor is made once; `fisrt` takes it to the first token. A cursor that cannot be made is left
  -- out: the code does not test for it.
  unfoldable pub db_get_next_token : ℕ → Action (Option Token)
  db_get_next_token fisrt = do
    made ← gets (λ s. s.cursor)
    (if made then pure tt else (do request cursor_made; modify (λ s. record s { cursor = true })))
    request (cursor_read (not (fisrt == 0)))
    gets (λ s. w.c_get s.history)

  -- 0 where there is no such address.
  unfoldable pub db_get_cid_by_a : ℕ → Action ℕ
  db_get_cid_by_a addr =
      gets λ s. elim (w.get_addr s.history (addr % 2 ^ 32)) [ none ↦ 0 | some cid ↦ cid ]

  unfoldable pub db_get_token_by_c : ℕ → Action (Option Token)
  db_get_token_by_c cid = gets λ s. w.get_token s.history cid

  unfoldable pub db_get_token_by_a : ℕ → Action (Option Token)
  db_get_token_by_a addr = do cid ← db_get_cid_by_a addr; db_get_token_by_c cid

  -- Both `put`, once the address is known to be free or the card's own.
  unfoldable pub put_both : Token → Action ℕ
  unfolding db_sync
  put_both rec = do
    request (token_put rec)
    saved ← gets (λ s. w.put s.history)
    (if not saved then pure 0 else (do
      request (addr_put rec.addr rec.cid)
      mapped ← gets (λ s. w.put s.history)
      (if not mapped then pure 0 else (do synced_all ← db_sync; pure 1))))

  -- Returns the record too, with the mask that the function sets in it.
  unfoldable pub db_add_token : Token → Action (ℕ × Token)
  unfolding put_both
  db_add_token rec = do
    cid ← db_get_cid_by_a rec.addr
    (if not (cid == 0) && not (cid == rec.cid)
        then pure (0, rec)
        else (do let saved = record rec { zone_mask = 1 }; r ← put_both saved; pure (r, saved)))

-- The greatest address; the cursor's key is read as a `uint16_t`.
max_addr : List ℕ → ℕ → ℕ
max_addr [] greatest = greatest
max_addr (a ∷ rest) greatest =
    max_addr rest (if leb (a % 2 ^ 16) greatest then greatest else a % 2 ^ 16)

unfoldable pub db_get_max_addr : World → Action ℕ
unfolding max_addr
db_get_max_addr w = gets λ s. max_addr (w.addresses s.history) (0x00C0 - 8)
