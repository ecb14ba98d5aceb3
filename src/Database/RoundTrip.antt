-- ===== src/Database/RoundTrip.antt =====
-- What src/db_layer.c finds behind a token that it added.
use libgate.Base.{
  ℕ, ◌%◌, ◌^◌, ◌<◌, ◌≡◌, ◌≢◌, ◌⊎◌, refl, sym, ap, ◌∙◌, arith, true, false, ◌&&◌, not, none, some,
  ◌∷◌, ◌==◌, Bool-cases, inl, inr,
}
use libgate.World.{World, History, Token, token_put, addr_put}
use libgate.Gate.{Gate}
use libgate.Gate.Action.{done, pure, ◌>>=◌}
use libgate.Database.{db_add_token, db_get_token_by_a, db_get_token_by_c, db_get_cid_by_a, put_both}
use libgate.Database.Quiet.{db_sync-QuietOn, quiet_token, quiet_addr}
use libgate.Database.Tables.{IsStore, last_token, last_addr}

-- The card at an address, 0 for none.
abbrev pub card_at : World → Gate → ℕ → ℕ
card_at w s addr = elim (w.get_addr s.history (addr % 2 ^ 32)) [ none ↦ 0 | some cid ↦ cid ]

-- The token is found in `t` by its card and by its address, and all else as it was in `s`, of which
-- nothing but the tables has changed.
pub record Added (w : World) (rec : Token) (s t : Gate) : Type 0 where
  pub by_card : w.get_token t.history rec.cid ≡ some rec
  pub by_addr : w.get_addr t.history rec.addr ≡ some rec.cid
  pub other_cards : (c : ℕ) → c ≢ rec.cid → w.get_token t.history c ≡ w.get_token s.history c
  pub only_tables : t ≡ record s { history = t.history }
  pub other_addrs : (a : ℕ) → a ≢ rec.addr → w.get_addr t.history a ≡ w.get_addr s.history a

-- An address is free for a card that the test for another card does not find.
pub no_other :
    (card cid : ℕ) → (not (card == 0) && not (card == cid)) ≡ false → (card ≡ 0) ⊎ (card ≡ cid)
no_other card cid e = elim (Bool-cases (card == 0)) [
  | inl p ↦ inl (ground arith)
  | inr p ↦ inr (ground arith)
]

module _ (w : World) (store : IsStore w) (works : (h : History) → w.put h ≡ true) where
  put_both_lem :
      (rec : Token) (s : Gate)
      → (g : History) × (put_both w rec s ≡ done 1 (record s { history = g }))
        × Added w rec s (record s { history = g })
  unfolding put_both last_token last_addr
  put_both_lem rec s =
      let h1 : History = token_put rec ∷ s.history in
      let h2 : History = addr_put rec.addr rec.cid ∷ h1 in
      let (r, g, runs, quiet) = db_sync-QuietOn w (record s { history = h2 }) in
      (
        g,
        ground (arith, works h1, works h2, runs),
        record {
          by_card =
              quiet_token w store quiet rec.cid
              ∙ store.tokens h2 rec.cid
              ∙ ground (arith, works h1);
          by_addr =
              quiet_addr w store quiet rec.addr
              ∙ store.addrs h2 rec.addr
              ∙ ground (arith, works h2);
          only_tables = refl;
          other_cards = λ c h.
              quiet_token w store quiet c
              ∙ store.tokens h2 c
              ∙ ground (arith, h)
              ∙ sym (store.tokens s.history c);
          other_addrs = λ a h.
              quiet_addr w store quiet a
              ∙ store.addrs h2 a
              ∙ ground (arith, h)
              ∙ sym (store.addrs s.history a);
        },
      )

  -- On tables that work as documented, while every `put` succeeds, a token whose address is below
  -- 2 ^ 32 is refused, and nothing is written, exactly where another card has its address. Where no
  -- card or this card has it, the token is added, with its zone mask set; it is then found by its card
  -- and by its address, and every other card and address finds what it found before.
  pub db_add_token_lem :
      (rec : Token) (s : Gate)
      → rec.addr < 2 ^ 32
      → let saved : Token = record rec { zone_mask = 1 } in
        ((card_at w s rec.addr ≢ 0)
          × (card_at w s rec.addr ≢ rec.cid)
          × (db_add_token w rec s ≡ done (0, rec) s))
        ⊎ (((card_at w s rec.addr ≡ 0) ⊎ (card_at w s rec.addr ≡ rec.cid))
            × (t : Gate) × (db_add_token w rec s ≡ done (1, saved) t)
            × Added w saved s t
            × (db_get_token_by_a w rec.addr t ≡ done (some saved) t))
  unfolding db_add_token db_get_token_by_a db_get_token_by_c db_get_cid_by_a
  db_add_token_lem rec s small =
      let card : ℕ = card_at w s rec.addr in
      let (g, runs, added) = put_both_lem (record rec { zone_mask = 1 }) s in
      let addr : rec.addr % 2 ^ 32 ≡ rec.addr = omega arith in
      elim (Bool-cases (not (card == 0) && not (card == rec.cid))) [
        | inl e ↦ inl (ground arith, ground arith, rw e)
        | inr e ↦ inr (
          no_other card rec.cid e,
          record s { history = g },
          rw e (
              ap
                (λ o.
                  ◌>>=◌ {B = ℕ × Token} (λ x. o) (λ r. pure (r, record rec { zone_mask = 1 })) s)
                runs),
          added,
          rw (addr, added.by_addr, added.by_card),
        )
      ]
