-- ===== src/Receive/Swipe.antt =====
-- What `gp_receiv` of src/gp_layer.c does with the replies of a device at whose door a card is held up.
pub mod Door
mod Tests
use libgate.Base.{
  ℕ, ◌+◌, ◌-◌, ◌*◌, ◌/◌, ◌%◌, ◌≤◌, ◌≡◌, ◌⊎◌, inl, inr, refl, ap, ◌∙◌, arith, true, false, [], ◌∷◌,
  ◌++◌, none, some, pos, Bool, failed, count, leb, update, sub_ℕ, ℤ, ◌==◌, if◌then◌else◌, Status,
  is_positive, Bool-cases,
}
use libgate.World.{World, History, WriteResult}
use libgate.Gate.{Gate, Cmd, Dev, poll_result}
use libgate.Gate.Action.{done, pure, bind_done, ◌>>=◌}
use libgate.Codec.Integer.{bin2int}
use libgate.Link.{gp_send, next_handler}
use libgate.Link.Frame.{frame}
use libgate.Link.Sending.{sending, is_broken, gp_send_writes}
use libgate.Queue.{gp_put_cmd}
use libgate.Queue.Line.{Fits-short, frames}
use libgate.Target.{request, sent_or_queued}
use libgate.Target.Control.{ad_get_regs}
use libgate.Processor.{App, to_size, modify_dev, reply_dev}
use libgate.Processor.Input.{process_port_input, run_handler, plain_reply}
use libgate.Processor.Poll.{card_read, regs_read, cb_get_poll_result}
use libgate.Receive.{accept, sub_four}

-- The question what happened to the card.
abbrev pub regs_cmd : ℕ → Cmd
regs_cmd dev = record (request 0 dev 10 0x06 2 (0x15 ∷ 0x28 ∷ [])) { polling = 1 }

-- The state in which a reply of `n` bytes is handed to its handler.
abbrev pub taken : ℕ → Gate → Gate
taken n s = record s {
  receiv_mess = record s.receiv_mess { dev = s.receiv_mess.buf 4; len = sub_four (pos n) };
}

-- The state in which the card of the device that replied is kept.
abbrev card_kept : ℕ → Gate → Gate
card_kept cid s = record s {
  devices = update s.devices s.receiv_mess.dev (
      if (reply_dev s).last_cid == cid
      then reply_dev s
      else record (reply_dev s) { last_cid = cid; new_cid_flag = 1 });
}

data_size : (n : ℕ) → 4 ≤ n → to_size (sub_four (pos n)) ≡ n - 4
unfolding to_size sub_four
data_size n h = let enough : leb 4 n ≡ true = ground arith in rw enough refl

unbroken : (r : WriteResult) → is_positive r.nwritten ≡ true → is_broken r ≡ false
unbroken r h = go r.nwritten r.is_epipe h
  where
    go :
        (n : Status) (e : Bool)
        → is_positive n ≡ true
        → is_broken (record { nwritten = n; is_epipe = e }) ≡ false
    go failed e h = absurd (ground arith)
    go (count k) e h = ground arith

-- Sending keeps what is known of the cards.
sent_card :
    (t : Gate) (m : ℕ → Dev) (dst n : ℕ)
    → t.devices ≡ update m dst (record (m dst) { last_sent = n })
    → (e : ℕ)
    → ((t.devices e).last_cid ≡ (m e).last_cid) × ((t.devices e).new_cid_flag ≡ (m e).new_cid_flag)
sent_card t m dst n h e =
    (ap (λ f. (f e).last_cid) h ∙ ground arith, ap (λ f. (f e).new_cid_flag) h ∙ ground arith)

module _ (w : World) (app : App) (stop : ℕ) where
  -- A reply that is no acknowledgement goes to the handler of the command.
  pub handled :
      (n : ℕ) (s t : Gate) (r : Status)
      → s.receiv_mess.buf 4 ≡ s.send_mess.dev
      → (s.receiv_mess.buf 5 == 0x55) ≡ false
      → s.send_mess.ev_handler ≡ some poll_result
      → cb_get_poll_result w app 1 (taken n s) ≡ done r t
      → is_positive r ≡ true
      → accept w app stop (pos n) s ≡ done tt t
  unfolding accept process_port_input run_handler
  handled n s t r from other handler runs good =
      let same : (s.send_mess.dev == s.receiv_mess.buf 4) ≡ true = ground arith in
      let handed : process_port_input w app 1 (taken n s) ≡ done r t =
        ap
          (λ h. elim h [
            | some h' ↦ run_handler w app h' 1 (taken n s)
            | none ↦ plain_reply w app (taken n s)
          ])
          handler
        ∙ runs in
      rw (same, other)
        (bind_done (process_port_input w app 1)
            (λ r. if is_positive r then pure tt else (gp_put_cmd w >>= λ put. pure tt)) handed
          ∙ ends)
    where
      ends : (if is_positive r then pure tt else (gp_put_cmd w >>= λ put. pure tt)) t ≡ done tt t
      ends = rw good refl

  card_asks :
      (n : ℕ) (s : Gate)
      → 4 ≤ n
      → s.receiv_mess.buf 5 ≡ 0x04
      → s.send_mess.target ≡ 101
      → let cid =
          bin2int s.receiv_mess.buf 6 (n - 4) (s.devices (s.receiv_mess.buf 4)).cid_revert in
        cb_get_poll_result w app 1 (taken n s)
        ≡ ad_get_regs w 0 (s.receiv_mess.buf 4) (card_kept cid (taken n s))
  unfolding cb_get_poll_result card_read modify_dev
  card_asks n s long cmd_n target =
      let asked : (s.send_mess.target == 101) ≡ true = ground arith in
      let card : (s.receiv_mess.buf 5 == 0x04) ≡ true = ground arith in
      rw (asked, card)
        (ap
          (λ k. ad_get_regs w 0 (s.receiv_mess.buf 4) (
            card_kept (bin2int s.receiv_mess.buf 6 k (s.devices (s.receiv_mess.buf 4)).cid_revert)
              (taken n s)))
          (data_size n long))

  regs_sent :
      (dev : ℕ) (s : Gate) → ad_get_regs w 0 dev s ≡ (gp_send w (regs_cmd dev) >>= λ x. pure x.0) s
  unfolding ad_get_regs sent_or_queued request
  regs_sent dev s = refl

  -- While the port is open with a descriptor from 3 on and every `write` takes some bytes, the device
  -- that was asked for a card answers, with `n - 4` bytes: the card is kept, as a new one if
  -- the device's last card was another, and the device is asked at once what happened to it, the
  -- reply to which goes to the same handler.
  pub card_answer :
      (n fd : ℕ) (s : Gate)
      → ((h : History) → is_positive (w.write h).nwritten ≡ true)
      → s.cfg.fd ≡ some fd
      → 3 ≤ fd
      → 4 ≤ n
      → s.receiv_mess.buf 4 ≡ s.send_mess.dev
      → s.receiv_mess.buf 5 ≡ 0x04
      → s.send_mess.target ≡ 101
      → s.send_mess.ev_handler ≡ some poll_result
      → let d = s.devices (s.receiv_mess.buf 4) in
        let cid = bin2int s.receiv_mess.buf 6 (n - 4) d.cid_revert in
        (t : Gate) × (accept w app stop (pos n) s ≡ done tt t)
        × (frames t.history ≡ frame (regs_cmd (s.receiv_mess.buf 4)) ∷ frames s.history)
        × (t.send_mess.is_expected ≡ 1)
        × (t.send_mess.dev ≡ s.receiv_mess.buf 4 % 256)
        × (t.send_mess.target ≡ 10)
        × (t.send_mess.ev_handler ≡ some poll_result)
        × ((t.devices (s.receiv_mess.buf 4)).last_cid ≡ cid)
        × ((t.devices (s.receiv_mess.buf 4)).new_cid_flag
            ≡ (if d.last_cid == cid then d.new_cid_flag else 1))
        × (t.cfg.fd ≡ some fd)
        × (t.head ≡ s.head)
        × (t.head2 ≡ s.head2)
  unfolding frames
  card_answer n fd s good is_open usable long from cmd_n target handler =
      let z = regs_cmd (s.receiv_mess.buf 4) in
      let d = s.devices (s.receiv_mess.buf 4) in
      let cid = bin2int s.receiv_mess.buf 6 (n - 4) d.cid_revert in
      let kept = card_kept cid (taken n s) in
      let fits = Fits-short z (unfold request in omega arith) in
      let (t, sends, sent, port, past) = gp_send_writes w z kept fd is_open usable fits.0 fits.1 in
      let whole = good (sending fd z kept) in
      let solid = unbroken (w.write (sending fd z kept)) whole in
      let (last_cid, flag) = sent_card t kept.devices _ _ sent.devices (s.receiv_mess.buf 4) in
      (
        t,
        handled n s t _ from (ground arith) handler
            (card_asks n s long cmd_n target
              ∙ regs_sent (s.receiv_mess.buf 4) kept
              ∙ bind_done (gp_send w z) (λ x. pure x.0) sends)
            whole,
        ap (λ h. frames h) past ∙ rw solid refl,
        sent.expected,
        unfold request in sent.dev,
        unfold request in sent.target,
        sent.handler ∙ ap (next_handler z) handler ∙ (unfold next_handler request in refl),
        last_cid ∙ ground arith,
        flag ∙ ground arith,
        port ∙ rw solid refl,
        sent.queues.0,
        sent.queues.1,
      )
