-- ===== src/Safety/Arrival.antt =====
-- The state of the library while `gp_receiv` of src/gp_layer.c stores the bytes that it reads.
use libgate.Base.{
  ℕ, zero, suc, ◌+◌, ◌≤◌, ◌≡◌, refl, ap, sym, subst, arith, true, false, ltb, leb, ◌==◌, none, some,
  not, if◌then◌else◌, Option, Bool, inl, inr, List, [], ◌∷◌, length, take, ℤ, pos, is_positive,
  store_list, update,
}
use libgate.World.{World, ReadResult, unreadable, bytes_read, received}
use libgate.Gate.{Gate, ReceivMess}
use libgate.Gate.Action.{Action, pure, modify, ◌>>=◌, ◌>>◌}
use libgate.Codec.Escape.{gp_init}
use libgate.Port.{gp_close, gp_reconnect}
use libgate.Queue.{gp_put_cmd}
use libgate.Target.Control.{ad_soft_reset}
use libgate.Target.Order.{perform, tokens_stored, soft_reset}
use libgate.Processor.{App}
use libgate.Processor.Input.{process_port_input}
use libgate.Receive.{
  room, read_port, after_read, bytes_in, chunk, frame_complete, accept, find_end, unesc_reply,
  crc_reply, sub_four, gp_reply, set_reply, add_count, start_frame, read_buf_last,
}
use libgate.Safety.{
  IsSound, Ends, Safe, bind-Ends, bind-Safe, if-Safe, same-IsSound, pure-Safe, gets-Safe,
}
use libgate.Safety.Line.{gp_close-Safe, gp_reconnect-Safe}
use libgate.Safety.Sending.{gp_put_cmd-Safe}
use libgate.Safety.Commands.{perform-Safe}
use libgate.Safety.Poll.{IsSafe}
use libgate.Safety.Replies.{process_port_input-Safe}

if-Ends :
    {A : Type 0} (b : Bool) (m k : Action A) (s : Gate)
    → Ends (λ a. Unit) (m s)
    → Ends (λ a. Unit) (k s)
    → Ends (λ a. Unit) ((if b then m else k) s)
if-Ends true m k s h h' = h
if-Ends false m k s h h' = h'

-- While no bytes of a reply have come in, its length is of no account.
idle-IsSound :
    (s t : Gate)
    → IsSound s
    → t.head ≡ s.head
    → t.head2 ≡ s.head2
    → t.receiv_buf_p ≡ none
    → IsSound t
idle-IsSound s t v e f idle = record {
  queues = (same-IsSound s (record s { head = t.head; head2 = t.head2 }) v e f refl refl).queues;
  place = inl idle;
}

length-take-le : (n : ℕ) (xs : List ℕ) → length (take n xs) ≤ n
length-take-le zero xs = omega arith
length-take-le (suc n) [] = omega arith
length-take-le (suc n) (x ∷ xs) = omega (arith, length-take-le n xs)

module _ (w : World) (app : App) (calm : IsSafe app) (stop : ℕ) where
  put_then-Safe : Safe (gp_put_cmd w >>= λ put. pure tt)
  put_then-Safe = bind-Safe (gp_put_cmd w) _ (gp_put_cmd-Safe w) λ put. pure-Safe tt

  accept-Ends :
      (l : ℤ) (s : Gate)
      → IsSound s
      → s.receiv_buf_p ≡ none
      → Ends (λ a. Unit) (accept w app stop l s)
  unfolding accept
  accept-Ends l s v idle =
      let quiet : (f : ReceivMess → ReceivMess)
          → IsSound (record s { receiv_mess = f s.receiv_mess }) =
        λ f. idle-IsSound s _ v refl refl idle in
      let dev : ReceivMess → ReceivMess = λ r. record r { dev = r.buf 4 } in
      let named : ℕ → ReceivMess → ReceivMess =
        λ k r. record r { buf = update r.buf 5 (r.buf k) } in
      let s1 : Gate = record s { receiv_mess = dev s.receiv_mess } in
      let next : Action (Unit {0}) = gp_put_cmd w >>= λ put. pure tt in
      let ack : Action (Unit {0}) =
        set_reply (named 7) >> (process_port_input w app 1 >>= λ r. pure tt) in
      let refused : Action (Unit {0}) =
        if s.receiv_mess.buf 6 == 0xAA then set_reply (named 7) else set_reply (named 8) in
      let short : Action (Unit {0}) = if s.receiv_mess.buf 6 == 0x55 then ack else refused in
      let long : Action (Unit {0}) =
        set_reply (λ r. record r { len = sub_four l })
        >> (process_port_input w app 1 >>= λ r. if is_positive r then pure tt else next) in
      if-Ends (not (s.send_mess.dev == s.receiv_mess.buf 4)) (pure tt)
        (set_reply dev >> (if s.receiv_mess.buf 5 == gp_reply then short >> next else long)) s
        (tt, v)
        (if-Ends (s.receiv_mess.buf 5 == gp_reply) (short >> next) long s1
          (bind-Ends (λ a. Unit) (λ a. Unit) short (λ x. next) s1
            (if-Ends (s.receiv_mess.buf 6 == 0x55) ack refused s1
              ((bind-Safe (process_port_input w app 1) (λ r. pure tt)
                  (process_port_input-Safe w app calm 1) λ r. pure-Safe tt).ends
                (record s1 { receiv_mess = named 7 s1.receiv_mess }) (quiet λ r. named 7 (dev r)))
              (if-Ends (s.receiv_mess.buf 6 == 0xAA) (set_reply (named 7)) (set_reply (named 8)) s1
                (tt, quiet λ r. named 7 (dev r)) (tt, quiet λ r. named 8 (dev r))))
            (λ a t p u. put_then-Safe.ends t u))
          ((bind-Safe (process_port_input w app 1) (λ r. if is_positive r then pure tt else next)
              (process_port_input-Safe w app calm 1)
              λ r. if-Safe (is_positive r) (pure tt) next (pure-Safe tt) put_then-Safe).ends
            (record s1 { receiv_mess = record s1.receiv_mess { len = sub_four l } })
            (quiet λ r. record (dev r) { len = sub_four l })))

  frame_complete-Ends :
      (place : ℕ) (s : Gate) → IsSound s → Ends (λ a. Unit) (frame_complete w app stop place s)
  unfolding frame_complete
  frame_complete-Ends place s v =
      let x = unesc_reply s.receiv_mess.buf place in
      let t : Gate = record s {
        receiv_buf_p = none;
        receiv_mess = record s.receiv_mess { buf = x.1 };
      } in
      let u = idle-IsSound s t v refl refl refl in
      if-Ends (ltb 0 (crc_reply x.1 x.0)) (pure tt) (accept w app stop x.0) t (tt, u)
        (accept-Ends x.0 t u refl)

  -- The bytes that come in have room.
  chunk-Ends :
      (p : ℕ) (bs : List ℕ) (s : Gate)
      → IsSound s
      → s.receiv_buf_p ≡ some p
      → s.receiv_mess.len ≡ pos p
      → p + length bs ≤ 134
      → Ends (λ a. Unit) (chunk w app stop p bs s)
  unfolding chunk add_count
  chunk-Ends p bs s v place len fits =
      let enough : leb (p + length bs) read_buf_last ≡ true = ground arith in
      let t : Gate = record s {
        receiv_mess = record s.receiv_mess {
          buf = update (store_list s.receiv_mess.buf p bs) (p + length bs) 0;
        };
      } in
      let u = same-IsSound s t v refl refl refl refl in
      let kept : Action (Unit {0}) = elim (find_end bs) [
        | some i ↦ frame_complete w app stop (p + i)
        | none ↦ modify (λ s. record s {
          receiv_mess = record s.receiv_mess { len = add_count s.receiv_mess.len (length bs) };
          receiv_buf_p = some (p + length bs);
        })
      ] in
      rw enough (
        if-Ends (not (t.receiv_mess.buf 0 == gp_init)) (gp_reconnect w 0 >>= λ r. pure tt) kept t
          ((bind-Safe (gp_reconnect w 0) (λ r. pure tt) (gp_reconnect-Safe w 0)
              λ r. pure-Safe tt).ends
            t u)
          (found t u place len (find_end bs)))
    where
      found :
          (t : Gate)
          → IsSound t
          → t.receiv_buf_p ≡ some p
          → t.receiv_mess.len ≡ pos p
          → (e : Option ℕ)
          → Ends {A = Unit {0}}
              (λ a. Unit)
              ((elim e as (λ e. Action (Unit {0})) [
                | some i ↦ frame_complete w app stop (p + i)
                | none ↦ modify (λ s. record s {
                  receiv_mess = record s.receiv_mess {
                    len = add_count s.receiv_mess.len (length bs);
                  };
                  receiv_buf_p = some (p + length bs);
                })
              ])
                t)
      found t u place len (some i) = frame_complete-Ends (p + i) t u
      found t u place len none = (
        tt,
        record {
          queues = u.queues;
          place = inr (p + length bs, refl, ap (λ l. add_count l (length bs)) len, fits);
        },
      )

  soft_reset-Safe : (dev : ℕ) → Safe (ad_soft_reset w 0 dev)
  unfolding perform tokens_stored
  soft_reset-Safe dev = perform-Safe w 0 dev soft_reset (omega arith)

  after_read-Ends :
      (p size : ℕ) (r : ReadResult) (s : Gate)
      → IsSound s
      → s.receiv_buf_p ≡ some p
      → s.receiv_mess.len ≡ pos p
      → p + size ≤ 134
      → Ends (λ a. Unit) (after_read w app stop p size r s)
  unfolding after_read bytes_in
  after_read-Ends p size unreadable s v place len fits =
      (bind-Safe gp_close (λ x. gp_put_cmd w >>= λ put. pure tt) gp_close-Safe
          λ x. put_then-Safe).ends
        s v
  after_read-Ends p size (bytes_read bs) s v place len fits =
      go (take size bs) (omega (arith, fits, length-take-le size bs))
    where
      go : (l : List ℕ) → p + length l ≤ 134 → Ends (λ a. Unit) (bytes_in w app stop p l s)
      go [] h =
          (gets-Safe (λ s. s.send_mess.dev) (λ dev. ad_soft_reset w 0 dev >>= λ r. gp_close)
              λ dev.
                bind-Safe (ad_soft_reset w 0 dev) (λ r. gp_close) (soft_reset-Safe dev)
                  λ r. gp_close-Safe).ends
            s v
      go (b ∷ rest) h = chunk-Ends p (b ∷ rest) s v place len h

  read_port-Ends :
      (fd p : ℕ) (s : Gate)
      → IsSound s
      → s.receiv_buf_p ≡ some p
      → s.receiv_mess.len ≡ pos p
      → p ≤ 134
      → Ends (λ a. Unit) (read_port w app stop fd s)
  unfolding read_port room
  read_port-Ends fd p s v place len below =
      let At : Option ℕ → ℤ → Type 0 = λ o l.
        Ends (λ a. Unit)
          (after_read w app stop (elim o as (λ o. ℕ) [ none ↦ 0 | some q ↦ q ]) (room l)
            (w.read (received fd (room l) ∷ s.history))
            (record s { history = received fd (room l) ∷ s.history })) in
      subst (λ o. At o s.receiv_mess.len) (sym place)
        (subst (λ l. At (some p) l) (sym len)
          (after_read-Ends p (room (pos p)) (w.read (received fd (room (pos p)) ∷ s.history))
            (record s { history = received fd (room (pos p)) ∷ s.history })
            (same-IsSound s _ v refl refl refl refl) place len (ground arith)))

  pub started-Ends :
      (fd : ℕ) (s : Gate) → IsSound s → Ends (λ a. Unit) (read_port w app stop fd (start_frame s))
  unfolding start_frame
  started-Ends fd s v =
      let At : Option ℕ → Type 0 = λ o.
        Ends (λ a. Unit)
          (read_port w app stop fd (elim o as (λ o. Gate) [
            | none ↦ record s {
              receiv_buf_p = some 0;
              receiv_mess = record s.receiv_mess { len = pos 0 };
            }
            | some p ↦ s
          ])) in
      elim v.place [
        | inl n ↦ subst At (sym n) (
            read_port-Ends fd 0
              (record s {
                receiv_buf_p = some 0;
                receiv_mess = record s.receiv_mess { len = pos 0 };
              })
              (record { queues = v.queues; place = inr (0, refl, refl, omega arith) }) refl refl
              (omega arith))
        | inr (p, a, b, c) ↦ subst At (sym a) (read_port-Ends fd p s v a b c)
      ]
