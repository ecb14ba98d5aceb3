-- ===== src/Queue.antt =====
-- src/gp_queue.c: the two queues of commands that wait for the line. A `TAILQ` is the list of its
-- entries, the first at the head; `qdump` only logs.
pub mod Fifo
pub mod Line
pub mod Service
mod Tests
use libgate.Base.{
  ℕ, zero, suc, List, [], ◌∷◌, ◌++◌, Bool, true, false, Status, count, ◌==◌, if◌then◌else◌,
}
use libgate.World.{World, allocated, freed}
use libgate.Gate.{Gate, Cmd}
use libgate.Gate.Action.{Action, pure, ◌>>=◌, ◌>>◌, modify, gets, request}
use libgate.Link.{gp_send}

abbrev pub ad_q_first : ℕ
ad_q_first = 1

abbrev pub is_first : Cmd → Bool
is_first z = z.queue == ad_q_first

-- `TAILQ_INSERT_TAIL` into the queue that the command asks for.
unfoldable pub insert_tail : Cmd → Gate → Gate
insert_tail z s =
    if is_first z
    then record s { head = s.head ++ z ∷ [] }
    else record s { head2 = s.head2 ++ z ∷ [] }

remove_entry : ℕ → List Cmd → List Cmd
remove_entry i [] = []
remove_entry zero (c ∷ cs) = cs
remove_entry (suc i) (c ∷ cs) = c ∷ remove_entry i cs

-- The entry is named by its place in `gp_head`. It is not freed.
pub gp_del_cmd : ℕ → Action ℕ
unfolding remove_entry
gp_del_cmd i = do modify (λ s. record s { head = remove_entry i s.head }); pure 0

pub gp_queue_init : Action ℕ
gp_queue_init = do modify (λ s. record s { head = []; head2 = [] }); pure 1

module _ (w : World) where
  -- 0 where `malloc` fails.
  unfoldable pub gp_in_cmd : Cmd → Action ℕ
  unfolding insert_tail
  gp_in_cmd z = do
    request allocated
    enough ← gets (λ s. w.malloc s.history)
    (if enough then modify (insert_tail z) >> pure 1 else pure 0)

  unfoldable pub send_entry : Cmd → Action Status
  send_entry z = do (r, sent) ← gp_send w z; request freed; pure r

  unfoldable pub second : List Cmd → Action Status
  unfolding send_entry
  second [] s = pure (count 0) s
  second (z ∷ rest) s = send_entry z (record s { head2 = rest })

  unfoldable pub first : List Cmd → Action Status
  unfolding send_entry second
  first [] s = second s.head2 s
  first (z ∷ rest) s = send_entry z (record s { head = rest })

  -- Sends the oldest command of `gp_head`, or of `gp_head2` where that is empty; 0 if both are.
  unfoldable pub gp_put_cmd : Action Status
  unfolding first
  gp_put_cmd s = first s.head s
