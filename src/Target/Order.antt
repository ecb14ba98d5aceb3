-- ===== src/Target/Order.antt =====
-- The functions of src/ad_target.c with their arguments, as data: what a caller can ask of a device.
use libgate.Base.{ℕ, Option, Buf, Status}
use libgate.World.{World}
use libgate.Gate.{Handler, Rtc, Times, TimeZone}
use libgate.Gate.Action.{Action}
use libgate.Target.Control.{
  ad_get_info, ad_soft_reset, ad_hard_reset, ad_turn_on, ad_turn_off, ad_exchange, ad_get_regs,
  ad_prep_load,
}
use libgate.Target.Memory.{
  ad_get_date, ad_set_date, ad_get_cid, ad_get_buff_addr, ad_get_buff_data, ad_set_buff_addr_down,
  ad_reset_buff, ad_get_token_bound, ad_set_token_bound, ad_reset_token_bound, ad_get_token,
  ad_set_token, ad_get_times, ad_set_times, ad_get_sched_table, ad_set_sched_rec,
}

pub data Order : Type 0 where
  get_info soft_reset hard_reset turn_off get_regs get_date reset_buff reset_token_bound get_times :
      Order
  turn_on exchange prep_load set_buff_addr_down set_token_bound : ℕ → Order
  set_date : Rtc → Order
  get_cid get_buff_addr get_token_bound get_sched_table : Option Handler → Order
  get_buff_data get_token : ℕ → ℕ → Order
  set_token : ℕ → Buf → ℕ → Order
  set_times : Times → Order
  set_sched_rec : ℕ → TimeZone → Option Handler → Order

module _ (w : World) (q gp_dst : ℕ) where
  unfoldable pub perform : Order → Action Status
  perform get_info = ad_get_info w q gp_dst
  perform soft_reset = ad_soft_reset w q gp_dst
  perform hard_reset = ad_hard_reset w q gp_dst
  perform turn_off = ad_turn_off w q gp_dst
  perform get_regs = ad_get_regs w q gp_dst
  perform get_date = ad_get_date q gp_dst w
  perform reset_buff = ad_reset_buff q gp_dst w
  perform reset_token_bound = ad_reset_token_bound q gp_dst w
  perform get_times = ad_get_times q gp_dst w
  perform (turn_on subdev) = ad_turn_on w q gp_dst subdev
  perform (exchange new_dst) = ad_exchange w q gp_dst new_dst
  perform (prep_load enable) = ad_prep_load w q gp_dst enable
  perform (set_buff_addr_down addr) = ad_set_buff_addr_down q gp_dst w addr
  perform (set_token_bound addr) = ad_set_token_bound q gp_dst w addr
  perform (set_date d) = ad_set_date q gp_dst w d
  perform (get_cid handler) = ad_get_cid q gp_dst w handler
  perform (get_buff_addr handler) = ad_get_buff_addr q gp_dst w handler
  perform (get_token_bound handler) = ad_get_token_bound q gp_dst w handler
  perform (get_sched_table handler) = ad_get_sched_table q gp_dst w handler
  perform (get_buff_data addr l) = ad_get_buff_data q gp_dst w addr l
  perform (get_token addr n) = ad_get_token q gp_dst w addr n
  perform (set_token addr records n) = ad_set_token q gp_dst w addr records n
  perform (set_times t) = ad_set_times q gp_dst w t
  perform (set_sched_rec num rec handler) = ad_set_sched_rec q gp_dst w num rec handler

-- The tokens that an order stores at once; their number is all that can make a command too long.
unfoldable pub tokens_stored : Order → ℕ
tokens_stored (set_token addr records n) = n
tokens_stored order = 0
