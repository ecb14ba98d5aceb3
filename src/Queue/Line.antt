-- ===== src/Queue/Line.antt =====
-- What sending and queueing do to the line and to the queues while line and memory are reliable.
use mathlib.Core.List.{map-append, reverse-append}
use libgate.Base.{
  ℕ, ◌≤◌, ◌<◌, ◌≡◌, refl, sym, ap, ◌∙◌, List, [], ◌∷◌, ◌++◌, append_assoc, map, reverse, true,
  false, some, arith, length, Status, Bool-cases, inl, inr,
}
use libgate.World.{
  World, History, written, armed, disarmed, read_clock, closed, allocated, freed, asked_time,
  opened, received, token_put, addr_put, synced, scan_timer, created, db_opened, db_closed,
  cursor_made, cursor_read, param_put, keepalive_timer,
}
use libgate.Gate.{Gate, Cmd}
use libgate.Gate.Action.{done}
use libgate.Codec.Escape.Stuffing.{stuff, length-stuff-le}
use libgate.Link.{gp_send, with_crc}
use libgate.Link.Frame.{frame, body, length-body}
use libgate.Link.Sending.{is_broken, sending, gp_send_writes}
use libgate.Queue.{is_first, gp_in_cmd, insert_tail}
use libgate.Queue.Fifo.{Waiting, take_in}

-- The frames on the line, the newest first.
unfoldable pub frames : History → List (List ℕ)
frames [] = []
frames (read_clock ∷ h) = frames h
frames (armed usec ∷ h) = frames h
frames (disarmed ∷ h) = frames h
frames (written fd bytes ∷ h) = bytes ∷ frames h
frames (closed fd ∷ h) = frames h
frames (allocated ∷ h) = frames h
frames (freed ∷ h) = frames h
frames (asked_time ∷ h) = frames h
frames (opened ∷ h) = frames h
frames (received fd n ∷ h) = frames h
frames (token_put token ∷ h) = frames h
frames (addr_put addr cid ∷ h) = frames h
frames (synced n ∷ h) = frames h
frames (scan_timer n ∷ h) = frames h
frames (created n ∷ h) = frames h
frames (db_opened n ∷ h) = frames h
frames (db_closed n ∷ h) = frames h
frames (cursor_made ∷ h) = frames h
frames (cursor_read first ∷ h) = frames h
frames (param_put k v ∷ h) = frames h
frames (keepalive_timer ∷ h) = frames h

-- Memory is never short and no write breaks.
pub record IsReliable (w : World) : Type 0 where
  pub memory : (h : History) → w.malloc h ≡ true
  pub line : (h : History) → is_broken (w.write h) ≡ false

-- The command has room in the buffers of `gp_send`.
abbrev pub Fits : Cmd → Type 0
Fits z = (z.data_len < 120) × (length (stuff (body z)) ≤ 127)

pub Fits-short : (z : Cmd) → z.data_len ≤ 60 → Fits z
Fits-short z h = (omega (arith, h), omega (arith, h, length-stuff-le (body z), length-body z))

abbrev pub waiting : Gate → Waiting
waiting s = record { first = s.head; second = s.head2 }

-- `out` went over the line on the way from `s` to `t`, and the queues of `t` are `q`.
pub record Sends (out : List Cmd) (q : Waiting) (s t : Gate) : Type 0 where
  pub port : t.cfg.fd ≡ s.cfg.fd
  pub queues : waiting t ≡ q
  pub line : frames t.history ≡ reverse (map frame out) ++ frames s.history

abbrev pub pair : List Cmd → List Cmd → Waiting
pair l l2 = record { first = l; second = l2 }

pub Sends-trans :
    {out more : List Cmd} {q q' : Waiting} {s t u : Gate}
    → Sends out q s t
    → Sends more q' t u
    → Sends (out ++ more) q' s u
Sends-trans {out} {more} {q} {q'} {s} {t} {u} a b = record {
  port = b.port ∙ a.port;
  queues = b.queues;
  line =
      b.line
      ∙ ap (◌++◌ (reverse (map frame more))) a.line
      ∙ sym (append_assoc (reverse (map frame more)) (reverse (map frame out)) (frames s.history))
      ∙ ap (λ t. t ++ frames s.history)
          (sym (
            ap reverse (map-append frame out more)
            ∙ reverse-append (map frame out) (map frame more)));
}

module _ (w : World) (good : IsReliable w) where
  pub gp_send-Sends :
      (z : Cmd) (s : Gate) (fd : ℕ)
      → s.cfg.fd ≡ some fd
      → 3 ≤ fd
      → Fits z
      → (r : Status) × (t : Gate) × (gp_send w z s ≡ done (r, with_crc z) t)
        × Sends (z ∷ []) (waiting s) s t
  unfolding frames
  gp_send-Sends z s fd is_open usable fits =
      let (t, sends, sent, port, past) = gp_send_writes w z s fd is_open usable fits.0 fits.1 in
      let whole = good.line (sending fd z s) in
      (
        (w.write (sending fd z s)).nwritten,
        t,
        sends,
        record { port = ground arith; queues = ground arith; line = ap frames past ∙ rw whole },
      )

  pub gp_in_cmd-Sends :
      (z : Cmd) (s : Gate)
      → (t : Gate) × (gp_in_cmd w z s ≡ done 1 t) × Sends [] (take_in z (waiting s)) s t
  unfolding gp_in_cmd frames take_in
  gp_in_cmd-Sends z s =
      let enough = good.memory (allocated ∷ s.history) in
      (
        insert_tail z (record s { history = allocated ∷ s.history }),
        rw enough,
        unfold insert_tail in
            elim (Bool-cases (is_first z)) [
              | inl e ↦ rw e (record { port = refl; queues = refl; line = refl })
              | inr e ↦ rw e (record { port = refl; queues = refl; line = refl })
            ],
      )
