-- ===== src/Client/Lifecycle.antt =====
-- packages/wazeko/src/client.ts: the connection of a client.
use wazeko.Prelude.{◌≡◌, refl, sym, ◌∙◌, true, [], ◌∷◌, ◌++◌, map, append-nil}
use wazeko.Text.{Text, codes}
use wazeko.Types.Events.{disconnected, connection_update, disconnect}
use wazeko.Events as Queues
use wazeko.Events.Order.{promise_of, upto, IsOrdered, push-IsOrdered, close-IsOrdered, close-closed}
use wazeko.Client.{Wazeko, emit_event, set_state, disconnect_with}

-- After a disconnect every promise that the event queue gave out is settled.
pub record IsDisconnected (reason : Text) (c c' : Wazeko) : Type 0 where
  pub stated : c'.state ≡ disconnected
  pub told :
      c'.emitted ≡ (c.emitted ++ connection_update disconnected ∷ []) ++ disconnect reason ∷ []
  pub shut : c'.event_queue.closed ≡ true
  pub nobody_waits : c'.event_queue.waiters ≡ []
  pub settled : map promise_of c'.event_queue.deliveries ≡ upto c'.event_queue.asked

-- A client whose event queue is in order goes to the disconnected state on `disconnect`, tells its
-- listeners so and for what reason, and closes the event queue with every promise settled.
pub disconnect_with-IsDisconnected :
    (reason : Text) (c : Wazeko)
    → IsOrdered c.event_queue
    → IsDisconnected reason c (disconnect_with reason c)
unfolding disconnect_with set_state emit_event
disconnect_with-IsDisconnected reason c h =
    let q =
      Queues.push (disconnect reason)
        (Queues.push (connection_update disconnected) c.event_queue) in
    let told =
      push-IsOrdered (disconnect reason) _
        (push-IsOrdered (connection_update disconnected) c.event_queue h) in
    let ended = close-IsOrdered (disconnect (codes "queue closed")) q told in
    let shut = close-closed (disconnect (codes "queue closed")) q in
    record {
      stated = refl;
      told = refl;
      shut = shut;
      nobody_waits = ended.nobody_left shut;
      settled = sym (append-nil _) ∙ (simp (ended.nobody_left shut) at ended.served);
    }
